-- ===== src/Report/TestAxis/Kills.antt =====
-- internal/report/report.go: the kills that the loops of `buildTestAggregations` collect.
use mathlib.Core.List.{append_assoc, append-nil}
use kanly.Base.{
  ℕ, ◌≡◌, refl, sym, ap, ◌∙◌, true, Text, List, [], ◌∷◌, ◌++◌, Option, none, some, ◌==◌, text_eq,
  Bool-cases, inl, inr, if◌then◌else◌,
}
use kanly.Base.Map.{Map, lookup, lookup-update}
use kanly.Mutation.{Mutation, Result, TestStats}
use kanly.Report.TestAxis.{
  Key, key_beq, key_beq_iff, key_eq, or_new, ensure, ensure_names, ensure_all, add_kill, add_kills,
  add_results,
}

-- The mutant once for each time that the test is among the names.
abbrev pub kills_in : Key → Mutation → List Text → List ℕ
kills_in k m [] = []
kills_in k m (n ∷ names) = if (m.pkg, n) == k then m.id ∷ kills_in k m names else kills_in k m names

-- The mutants of the test's package that the test killed, in the order of the results.
abbrev pub kills_by : Key → List Result → List ℕ
kills_by k [] = []
kills_by k (r ∷ results) = kills_in k r.mutation r.killing_tests ++ kills_by k results

abbrev pub killed_of : Option TestStats → List ℕ
killed_of none = []
killed_of (some ts) = ts.killed_mutants

abbrev pub killed : Key → Map Key TestStats → List ℕ
killed k stats = killed_of (lookup k stats)

or_new-killed : (k : Key) (old : Option TestStats) → (or_new k old).killed_mutants ≡ killed_of old
or_new-killed (p, n) none = refl
or_new-killed (p, n) (some ts) = refl

same_key :
    (k j : Key) (stats : Map Key TestStats) → key_beq k j ≡ true → killed k stats ≡ killed j stats
same_key k j stats h = ap (λ x. killed x stats) ((key_beq_iff k j).0 h)

killed-ensure :
    (k j : Key) (stats : Map Key TestStats) → killed j (ensure k (λ ts. ts) stats) ≡ killed j stats
killed-ensure k j stats =
    rw (lookup-update k j (λ old. or_new k old) stats) (elim (Bool-cases (key_beq k j)) [
      | inl b ↦ rw b (or_new-killed k (lookup k stats) ∙ same_key k j stats b)
      | inr b ↦ rw b refl
    ])

killed-add :
    (k j : Key) (id : ℕ) (stats : Map Key TestStats)
    → killed j (ensure k (add_kill id) stats)
      ≡ (if k == j then killed j stats ++ id ∷ [] else killed j stats)
killed-add k j id stats =
    rw (lookup-update k j (λ old. add_kill id (or_new k old)) stats)
      (elim (Bool-cases (key_beq k j)) [
        | inl b ↦
            rw b
              (ap (λ ids. ids ++ id ∷ []) (or_new-killed k (lookup k stats) ∙ same_key k j stats b))
        | inr b ↦ rw b refl
      ])

killed-add_kills :
    (k : Key) (m : Mutation) (names : List Text) (stats : Map Key TestStats)
    → killed k (add_kills m names stats) ≡ killed k stats ++ kills_in k m names
unfolding add_kills
killed-add_kills k m [] stats = sym (append-nil (killed k stats))
killed-add_kills k m (n ∷ names) stats =
    killed-add_kills k m names (ensure (m.pkg, n) (add_kill m.id) stats)
    ∙ rw (killed-add (m.pkg, n) k m.id stats) (elim (Bool-cases (key_beq (m.pkg, n) k)) [
      | inl b ↦ rw b (append_assoc (killed k stats) (m.id ∷ []) (kills_in k m names))
      | inr b ↦ rw b refl
    ])

pub killed-add_results :
    (k : Key) (results : List Result) (stats : Map Key TestStats)
    → killed k (add_results results stats) ≡ killed k stats ++ kills_by k results
unfolding add_results
killed-add_results k [] stats = sym (append-nil (killed k stats))
killed-add_results k (r ∷ results) stats =
    killed-add_results k results (add_kills r.mutation r.killing_tests stats)
    ∙ rw (killed-add_kills k r.mutation r.killing_tests stats)
        (append_assoc (killed k stats) (kills_in k r.mutation r.killing_tests) (kills_by k results))

killed-ensure_names :
    (k : Key) (p : Text) (names : List Text) (stats : Map Key TestStats)
    → killed k (ensure_names p names stats) ≡ killed k stats
unfolding ensure_names
killed-ensure_names k p [] stats = refl
killed-ensure_names k p (n ∷ names) stats =
    killed-ensure_names k p names (ensure (p, n) (λ ts. ts) stats) ∙ killed-ensure (p, n) k stats

pub killed-ensure_all :
    (k : Key) (inventory : Map Text (List Text)) (stats : Map Key TestStats)
    → killed k (ensure_all inventory stats) ≡ killed k stats
unfolding ensure_all
killed-ensure_all k [] stats = refl
killed-ensure_all k ((p, names) ∷ inventory) stats =
    killed-ensure_all k inventory (ensure_names p names stats) ∙ killed-ensure_names k p names stats
