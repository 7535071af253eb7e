-- ===== src/Cmd/Kills.antt =====
-- cmd/kanly/main.go and killcache.go: which kills of earlier runs are kept and used again.
pub mod Laws
use kanly.Base.{
  ℕ, Bool, true, false, not, ◌&&◌, ◌||◌, Text, List, [], ◌∷◌, Option, none, some, ◌==◌, text_eq,
  if◌then◌else◌,
}
use kanly.Base.Strings.{is_text, or_empty}
use kanly.Base.Map.{Map, lookup, insert, delete}
use kanly.Mutation.{Status, status_eq, killed, Mutation, Result}

pub record KillEntry : Type 0 where
  pub key : Text
  pub killers : Map Text Text

-- `m[name]`, which is empty for a missing name.
abbrev pub hash_of : Map Text Text → Text → Text
hash_of hashes name = or_empty (lookup name hashes)

-- The test killed the mutant, and its source is the same now.
abbrev pub still_kills : KillEntry → Map Text Text → Text → Bool
still_kills e test_hash name =
    is_text (hash_of e.killers name) && hash_of e.killers name == hash_of test_hash name

unfoldable pub first_killer : KillEntry → Map Text Text → List Text → Option Text
first_killer e test_hash [] = none
first_killer e test_hash (name ∷ covering) =
    let next = first_killer e test_hash covering in
    if still_kills e test_hash name then some name else next

-- `none` is the empty name.
unfoldable pub reused_killer : KillEntry → Text → Map Text Text → List Text → Option Text
reused_killer e key test_hash covering =
    if not (is_text key) || not (e.key == key) then none else first_killer e test_hash covering

-- The loop over `r.KillingTests`.
unfoldable pub killers_from : Map Text Text → Map Text Text → List Text → Map Text Text
killers_from test_hash killers [] = killers
killers_from test_hash killers (name ∷ names) =
    killers_from test_hash
      (if is_text (hash_of test_hash name)
        then insert name (hash_of test_hash name) killers
        else killers)
      names

abbrev pub entry_of : Map Text Text → Result → Text → KillEntry
entry_of test_hash r key = record {
  key = key;
  killers = if r.status == killed then killers_from test_hash [] r.killing_tests else [];
}

abbrev pub is_update : Result → Text → Bool
is_update r key = is_text key && not r.cached

-- `kill_updates` on the results with their keys, which have the same length; `set` is the map built
-- so far.
unfoldable pub updates_from :
    Map Text Text → Map Text KillEntry → List (Result × Text) → Map Text KillEntry
updates_from test_hash set [] = set
updates_from test_hash set ((r, key) ∷ results) =
    updates_from test_hash
      (if is_update r key
        then insert r.mutation.fingerprint (entry_of test_hash r key) set
        else set)
      results

unfoldable pub kill_updates : List (Result × Text) → Map Text Text → Map Text KillEntry
kill_updates results test_hash = updates_from test_hash [] results

-- `killCache.update` on the package's stored entries: one without killers is dropped.
unfoldable pub update_cache : Map Text KillEntry → Map Text KillEntry → Map Text KillEntry
update_cache stored [] = stored
update_cache stored ((fp, e) ∷ set) =
    update_cache (elim e.killers [ [] ↦ delete fp stored | k ∷ ks ↦ insert fp e stored ]) set
