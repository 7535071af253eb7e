-- ===== src/Cmd/Kills/Laws.antt =====
-- cmd/kanly/main.go: `reusedKiller` on what `killUpdates` stored.
use mathlib.Core.Path.{subst}
use kanly.Base.{
  ◌≡◌, refl, ◌⊎◌, inl, inr, Bool, true, not, ◌&&◌, ◌||◌, Text, List, [], ◌∷◌, some, arith, ◌==◌,
  text_eq, text_beq_iff, beq_refl, contains, any, Bool-cases, if◌then◌else◌,
}
use kanly.Base.Strings.{is_text}
use kanly.Base.Map.{Map, lookup, insert, lookup-insert}
use kanly.Mutation.{status_eq, killed, Result}
use kanly.Cmd.Kills.{
  KillEntry, hash_of, still_kills, first_killer, reused_killer, killers_from, entry_of, is_update,
  updates_from, kill_updates,
}

some-injective : {A : Type 0} {a b : A} → some a ≡ some b → a ≡ b
some-injective h = cc

first_killer-inv :
    (e : KillEntry) (test_hash : Map Text Text) (covering : List Text) (name : Text)
    → first_killer e test_hash covering ≡ some name
    → (contains covering name ≡ true) × (still_kills e test_hash name ≡ true)
unfolding first_killer
first_killer-inv e th [] name h = cc
first_killer-inv e th (n ∷ covering) name h = elim (Bool-cases (still_kills e th n)) [
  | inl b ↦
      let q : n ≡ name = some-injective (rw (b, first_killer) at h) in
      subst (λ x. ((n == x || contains covering x) ≡ true) × (still_kills e th x ≡ true)) q
        (rw (beq_refl n) refl, b)
  | inr b ↦
      let (c, k) = first_killer-inv e th covering name (rw (b, first_killer) at h) in
      (ground arith, k)
]

insert-hash :
    (n v name : Text) (killers : Map Text Text)
    → hash_of (insert n v killers) name ≡ (if n == name then v else hash_of killers name)
insert-hash n v name killers = ground (arith, lookup-insert n name v killers)

-- A stored hash is one that the tests had when the entry was made, of a test that killed the mutant.
killers_from-hash :
    (test_hash killers : Map Text Text) (names : List Text) (name : Text)
    → (hash_of (killers_from test_hash killers names) name ≡ hash_of killers name)
      ⊎ ((hash_of (killers_from test_hash killers names) name ≡ hash_of test_hash name)
          × (contains names name ≡ true))
unfolding killers_from
killers_from-hash th killers [] name = inl refl
killers_from-hash th killers (n ∷ names) name = elim (Bool-cases (is_text (hash_of th n))) [
  | inl b ↦ rw b (
      ground (
        arith,
        killers_from-hash th (insert n (hash_of th n) killers) names name,
        insert-hash n (hash_of th n) name killers,
        text_beq_iff n name,
      ))
  | inr b ↦ rw b (ground (arith, killers_from-hash th killers names name))
]

updates_from-any :
    (q : KillEntry → Bool) (test_hash : Map Text Text) (set : Map Text KillEntry)
    (results : List (Result × Text)) (fp : Text) (e : KillEntry)
    → lookup fp (updates_from test_hash set results) ≡ some e
    → q e ≡ true
    → (lookup fp set ≡ some e)
      ⊎ (any
            (λ (r, k).
              is_update r k && (r.mutation.fingerprint == fp && q (entry_of test_hash r k)))
            results
          ≡ true)
unfolding updates_from
updates_from-any q th set [] fp e h t = inl h
updates_from-any q th set ((r, k) ∷ results) fp e h t = elim (Bool-cases (is_update r k)) [
  | inl b ↦ rw b (
      ground (
        arith,
        updates_from-any q th (insert r.mutation.fingerprint (entry_of th r k) set) results fp e
            (rw (b, updates_from) at h) t,
        lookup-insert r.mutation.fingerprint fp (entry_of th r k) set,
      ))
  | inr b ↦ rw b (updates_from-any q th set results fp e (rw (b, updates_from) at h) t)
]

-- The entry has the key, and the test among its killers with an unchanged hash.
abbrev usable : Text → Map Text Text → Text → KillEntry → Bool
usable key now name e = (is_text key && e.key == key) && still_kills e now name

reused_killer-inv :
    (e : KillEntry) (key : Text) (now : Map Text Text) (covering : List Text) (name : Text)
    → reused_killer e key now covering ≡ some name
    → (contains covering name ≡ true) × (usable key now name e ≡ true)
unfolding reused_killer
reused_killer-inv e key now covering name h =
    elim (Bool-cases (not (is_text key) || not (e.key == key))) [
      | inl b ↦ cc (rw b at h)
      | inr b ↦ let (c, k) = first_killer-inv e now covering name (rw b at h) in (c, ground arith)
    ]

-- An earlier result that accounts for the kill: the same mutant and key, killed in that run and not
-- taken from the cache, by the same test with the same source.
abbrev pub accounts : Text → Text → Text → Map Text Text → Map Text Text → Result → Text → Bool
accounts fp key name then_hash now r k =
    (r.mutation.fingerprint == fp && k == key)
    && ((r.status == killed && not r.cached)
        && (contains r.killing_tests name && hash_of then_hash name == hash_of now name))

usable-accounts :
    (fp key name : Text) (then_hash now : Map Text Text) (r : Result) (k : Text)
    → is_update r k ≡ true
    → (r.mutation.fingerprint == fp) ≡ true
    → usable key now name (entry_of then_hash r k) ≡ true
    → accounts fp key name then_hash now r k ≡ true
unfolding lookup
usable-accounts fp key name th now r k u f h = elim (Bool-cases (r.status == killed)) [
  | inl b ↦ ground (arith, killers_from-hash th [] r.killing_tests name)
  | inr b ↦ ground arith
]

any-implies :
    {A : Type 0} (p q : A → Bool) (xs : List A)
    → ((x : A) → p x ≡ true → q x ≡ true)
    → any p xs ≡ true
    → any q xs ≡ true
any-implies p q [] f h = h
any-implies p q (x ∷ xs) f h = ground (arith, f x, any-implies p q xs f)

-- Where a stored kill is used again, the test that it names covers the mutant now, and a result of
-- the run that stored it accounts for it.
pub reused_killer-kill_updates :
    (results : List (Result × Text)) (then_hash now : Map Text Text) (fp key : Text) (e : KillEntry)
    (covering : List Text) (name : Text)
    → lookup fp (kill_updates results then_hash) ≡ some e
    → reused_killer e key now covering ≡ some name
    → (contains covering name ≡ true)
      × (any (λ (r, k). accounts fp key name then_hash now r k) results ≡ true)
unfolding kill_updates lookup
reused_killer-kill_updates results th now fp key e covering name h k =
    let (c, u) = reused_killer-inv e key now covering name k in
    (
      c,
      elim (updates_from-any (usable key now name) th [] results fp e h u) [
        | inl old ↦ cc old
        | inr found ↦
            any-implies _ (λ (r, k). accounts fp key name th now r k) results
              (λ (r, k) b.
                usable-accounts fp key name th now r k (ground arith) (ground arith) (ground arith))
              found
      ],
    )
