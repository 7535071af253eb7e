-- ===== src/Report/TestAxis.antt =====
-- internal/report/report.go: `buildTestAggregations`, the results of a run seen from its tests.
pub mod Kills
pub mod Presence
pub mod Redundant
pub mod Laws
use kanly.Base.{
  ℕ, ◌≡◌, ◌↔◌, Bool, true, false, not, ◌&&◌, ◌||◌, Text, codes, List, [], ◌∷◌, ◌++◌, Option, none,
  some, ◌==◌, Eq, nat_eq, text_eq, text_beq, text_beq_iff, length, ltb, leb, map, keep, arith,
  if◌then◌else◌,
}
use kanly.Base.Map.{Map, update}
use kanly.Base.Sort.{sort}
use kanly.Base.Strings.{text_le, is_text, contains_text, join, or_empty}
use kanly.Base.Decimal.{itoa}
use kanly.Mutation.{Mutation, Result, TestStats}

-- The `key` of a test: its package and its name.
abbrev pub Key : Type 0
Key = Text × Text

abbrev pub key_beq : Key → Key → Bool
key_beq (p, n) (q, m) = text_beq p q && text_beq n m

pub key_beq_iff : (j k : Key) → (key_beq j k ≡ true) ↔ (j ≡ k)
key_beq_iff (p, n) (q, m) = ground (arith, text_beq_iff p q, text_beq_iff n m)

instance abbrev pub key_eq : Eq Key
key_eq = record { beq = key_beq; decides = key_beq_iff }

abbrev pub or_new : Key → Option TestStats → TestStats
or_new (p, n) none = record { pkg = p; name = n; kill_count = 0; killed_mutants = [] }
or_new k (some ts) = ts

-- `ensure(k)` with the use that is made of its result.
abbrev pub ensure : Key → (TestStats → TestStats) → Map Key TestStats → Map Key TestStats
ensure k use_it stats = update k (λ old. use_it (or_new k old)) stats

unfoldable pub ensure_names : Text → List Text → Map Key TestStats → Map Key TestStats
ensure_names p [] stats = stats
ensure_names p (n ∷ names) stats = ensure_names p names (ensure (p, n) (λ ts. ts) stats)

unfoldable pub ensure_all : Map Text (List Text) → Map Key TestStats → Map Key TestStats
ensure_all [] stats = stats
ensure_all ((p, names) ∷ inventory) stats = ensure_all inventory (ensure_names p names stats)

abbrev pub add_kill : ℕ → TestStats → TestStats
add_kill id ts = record ts { killed_mutants = ts.killed_mutants ++ id ∷ [] }

-- The loop over `r.KillingTests`.
unfoldable pub add_kills : Mutation → List Text → Map Key TestStats → Map Key TestStats
add_kills m [] stats = stats
add_kills m (n ∷ names) stats = add_kills m names (ensure (m.pkg, n) (add_kill m.id) stats)

unfoldable pub add_results : List Result → Map Key TestStats → Map Key TestStats
add_results [] stats = stats
add_results (r ∷ results) stats = add_results results (add_kills r.mutation r.killing_tests stats)

abbrev pub finish : TestStats → TestStats
finish ts = record ts {
  killed_mutants = sort leb ts.killed_mutants;
  kill_count = length ts.killed_mutants;
}

-- `!less(b, a)`: the tests with the most kills first.
abbrev pub by_kills : TestStats → TestStats → Bool
by_kills a b =
    if not (b.kill_count == a.kill_count)
    then not (ltb a.kill_count b.kill_count)
    else if not (b.pkg == a.pkg)
    then text_le a.pkg b.pkg
    else text_le a.name b.name

abbrev pub values : Map Key TestStats → List TestStats
values = map (λ (k, ts). finish ts)

unfoldable pub build_tests : List Result → Map Text (List Text) → List TestStats
build_tests results inventory =
    sort by_kills (values (add_results results (ensure_all inventory [])))

abbrev pub qualify_test_name : Text → Text → Text
qualify_test_name p n =
    if not (is_text p) || contains_text n (codes ".") then n else p ++ (codes "." ++ n)

abbrev full_name : TestStats → Text
full_name ts = qualify_test_name ts.pkg ts.name

unfoldable pub zero_kill : List TestStats → List Text
zero_kill tests = sort text_le (map full_name (keep (λ ts. not (ltb 0 ts.kill_count)) tests))

-- The text that stands for a test's package and kills.
abbrev pub kill_hash : TestStats → Text
kill_hash ts = ts.pkg ++ (0 ∷ join (codes ",") (map itoa ts.killed_mutants))

abbrev pub or_no_names : Option (List Text) → List Text
or_no_names none = []
or_no_names (some names) = names

unfoldable pub by_hash : List TestStats → Map Text (List Text) → Map Text (List Text)
by_hash [] groups = groups
by_hash (ts ∷ tests) groups = by_hash tests (
    if ts.kill_count == 0
    then groups
    else update (kill_hash ts) (λ old. or_no_names old ++ full_name ts ∷ []) groups)

abbrev first : List Text → Text
first [] = []
first (n ∷ names) = n

unfoldable pub redundant : List TestStats → List (List Text)
redundant tests =
    sort (λ g h. text_le (first g) (first h))
      (map (λ (h, g). sort text_le g) (keep (λ (h, g). not (ltb (length g) 2)) (by_hash tests [])))
