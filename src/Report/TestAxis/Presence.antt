-- ===== src/Report/TestAxis/Presence.antt =====
-- internal/report/report.go: which tests `buildTestAggregations` has an entry for.
use kanly.Base.{
  ◌≡◌, refl, ap, ◌∙◌, Bool, false, ◌||◌, Text, List, [], ◌∷◌, ◌==◌, text_eq, arith, any, contains,
  Distinct, Bool-cases, inl, inr,
}
use kanly.Base.Map.{Map, lookup, lookup-update}
use kanly.Base.Sort.{insert, sort}
use kanly.Base.Strings.{is_some}
use kanly.Mutation.{Mutation, Result, TestStats}
use kanly.Report.TestAxis.{
  Key, key_beq, key_beq_iff, key_eq, or_new, ensure, ensure_names, ensure_all, add_kill, add_kills,
  add_results, by_kills,
}

abbrev pub in_names : Key → Text → List Text → Bool
in_names k p names = any (λ n. (p, n) == k) names

-- The inventory has the test.
abbrev pub listed : Key → Map Text (List Text) → Bool
listed k inventory = any (λ (p, names). in_names k p names) inventory

-- The test killed some mutant of its package.
abbrev pub kills_any : Key → List Result → Bool
kills_any k results = any (λ r. in_names k r.mutation.pkg r.killing_tests) results

abbrev has : Key → Map Key TestStats → Bool
has k stats = is_some (lookup k stats)

has-ensure :
    (k j : Key) (f : TestStats → TestStats) (stats : Map Key TestStats)
    → has j (ensure k f stats) ≡ (key_beq k j || has j stats)
has-ensure k j f stats =
    rw (lookup-update k j (λ old. f (or_new k old)) stats)
      (elim (Bool-cases (key_beq k j)) [ inl b ↦ rw b refl | inr b ↦ rw b refl ])

has-ensure_names :
    (k : Key) (p : Text) (names : List Text) (stats : Map Key TestStats)
    → has k (ensure_names p names stats) ≡ (in_names k p names || has k stats)
unfolding ensure_names
has-ensure_names k p [] stats = refl
has-ensure_names k p (n ∷ names) stats =
    has-ensure_names k p names (ensure (p, n) (λ ts. ts) stats)
    ∙ rw (has-ensure (p, n) k (λ ts. ts) stats) (ground arith)

pub has-ensure_all :
    (k : Key) (inventory : Map Text (List Text)) (stats : Map Key TestStats)
    → has k (ensure_all inventory stats) ≡ (listed k inventory || has k stats)
unfolding ensure_all
has-ensure_all k [] stats = refl
has-ensure_all k ((p, names) ∷ inventory) stats =
    has-ensure_all k inventory (ensure_names p names stats)
    ∙ rw (has-ensure_names k p names stats) (ground arith)

has-add_kills :
    (k : Key) (m : Mutation) (names : List Text) (stats : Map Key TestStats)
    → has k (add_kills m names stats) ≡ (in_names k m.pkg names || has k stats)
unfolding add_kills
has-add_kills k m [] stats = refl
has-add_kills k m (n ∷ names) stats =
    has-add_kills k m names (ensure (m.pkg, n) (add_kill m.id) stats)
    ∙ rw (has-ensure (m.pkg, n) k (add_kill m.id) stats) (ground arith)

pub has-add_results :
    (k : Key) (results : List Result) (stats : Map Key TestStats)
    → has k (add_results results stats) ≡ (kills_any k results || has k stats)
unfolding add_results
has-add_results k [] stats = refl
has-add_results k (r ∷ results) stats =
    has-add_results k results (add_kills r.mutation r.killing_tests stats)
    ∙ rw (has-add_kills k r.mutation r.killing_tests stats) (ground arith)

abbrev pub tests_of : List TestStats → List Key
tests_of [] = []
tests_of (ts ∷ tests) = (ts.pkg, ts.name) ∷ tests_of tests

tests-insert :
    (k : Key) (ts : TestStats) (tests : List TestStats)
    → contains (tests_of (insert by_kills ts tests)) k
      ≡ (key_beq (ts.pkg, ts.name) k || contains (tests_of tests) k)
unfolding insert
tests-insert k ts [] = refl
tests-insert k ts (u ∷ tests) = elim (Bool-cases (by_kills ts u)) [
  | inl b ↦ rw b refl
  | inr b ↦ rw (b, tests-insert k ts tests) (ground arith)
]

pub tests-sort :
    (k : Key) (tests : List TestStats)
    → contains (tests_of (sort by_kills tests)) k ≡ contains (tests_of tests) k
unfolding sort
tests-sort k [] = refl
tests-sort k (ts ∷ tests) =
    tests-insert k ts (sort by_kills tests)
    ∙ ap (λ b. key_beq (ts.pkg, ts.name) k || b) (tests-sort k tests)

insert-Distinct :
    (ts : TestStats) (tests : List TestStats)
    → contains (tests_of tests) (ts.pkg, ts.name) ≡ false
    → Distinct (tests_of tests)
    → Distinct (tests_of (insert by_kills ts tests))
unfolding insert
insert-Distinct ts [] h d = (refl, tt)
insert-Distinct ts (u ∷ tests) h d = elim (Bool-cases (by_kills ts u)) [
  | inl b ↦ rw b (h, d)
  | inr b ↦ rw b (
    tests-insert (u.pkg, u.name) ts tests
        ∙ ground (
          arith,
          key_beq_iff (ts.pkg, ts.name) (u.pkg, u.name),
          key_beq_iff (u.pkg, u.name) (ts.pkg, ts.name),
        ),
    insert-Distinct ts tests (ground arith) d.1,
  )
]

pub sort-Distinct :
    (tests : List TestStats) → Distinct (tests_of tests) → Distinct (tests_of (sort by_kills tests))
unfolding sort
sort-Distinct [] d = tt
sort-Distinct (ts ∷ tests) d =
    insert-Distinct ts (sort by_kills tests) (tests-sort (ts.pkg, ts.name) tests ∙ d.0)
      (sort-Distinct tests d.1)
