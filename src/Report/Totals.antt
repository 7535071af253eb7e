-- ===== src/Report/Totals.antt =====
-- internal/report/report.go: the counts and scores of `Build` against each other.
use native.Mathlib.Nat.{mul-le-mul_left}
use kanly.Base.{
  ℕ, ◌+◌, ◌-◌, ◌*◌, ◌≤◌, ◌≡◌, ap, refl, sym, ◌∙◌, false, Text, List, [], ◌∷◌, Option, none, some,
  arith, length, nat_beq, ◌==◌, text_eq, text_beq_iff, keep, Bool-cases, inl, inr,
}
use kanly.Base.Map.{Map, lookup, update, lookup-update}
use kanly.Mutation.{Status, killed, survived, timeout, not_viable, not_covered, Result}
use kanly.Report.{
  Counts, ratio, score, score_with_uncovered, no_counts, count_status, count_all, overall, or_new,
  count_result, per_package,
}

abbrev pub verdicts : Counts → ℕ
verdicts s = s.killed + s.survived + s.timeout + s.not_viable + s.not_covered

count_status-verdicts : (v : Status) (s : Counts) → verdicts (count_status v s) ≡ verdicts s + 1
count_status-verdicts killed s = omega arith
count_status-verdicts survived s = omega arith
count_status-verdicts timeout s = omega arith
count_status-verdicts not_viable s = omega arith
count_status-verdicts not_covered s = omega arith

count_status-total : (v : Status) (s : Counts) → (count_status v s).total ≡ s.total
count_status-total killed s = refl
count_status-total survived s = refl
count_status-total timeout s = refl
count_status-total not_viable s = refl
count_status-total not_covered s = refl

count_all-verdicts :
    (s : Counts) (results : List Result)
    → verdicts (count_all s results) ≡ verdicts s + length results
unfolding count_all
count_all-verdicts s [] = omega arith
count_all-verdicts s (r ∷ results) =
    omega (
      arith,
      count_all-verdicts (count_status r.status s) results,
      count_status-verdicts r.status s,
    )

count_all-total : (s : Counts) (results : List Result) → (count_all s results).total ≡ s.total
unfolding count_all
count_all-total s [] = refl
count_all-total s (r ∷ results) =
    count_all-total (count_status r.status s) results ∙ count_status-total r.status s

-- The five verdicts of a report add up to its total, which is the number of results.
pub overall-verdicts :
    (results : List Result)
    → (verdicts (overall results) ≡ (overall results).total)
      × ((overall results).total ≡ length results)
unfolding overall
overall-verdicts results =
    let t = count_all-total (record no_counts { total = length results }) results in
    (omega (arith, count_all-verdicts (record no_counts { total = length results }) results, t), t)

ratio_le : (k d : ℕ) → k ≤ d → (ratio k d).num ≤ (ratio k d).den
ratio_le k d h = elim (Bool-cases (nat_beq d 0)) [ inl z ↦ rw z (omega arith) | inr p ↦ rw p h ]

ratio_zero : (e : ℕ) → (ratio 0 e).num ≡ 0
ratio_zero e = elim (Bool-cases (nat_beq e 0)) [ inl z ↦ rw z refl | inr p ↦ rw p refl ]

ratio_more :
    (k d e : ℕ)
    → k ≤ d
    → d ≤ e
    → (ratio k e).num * (ratio k d).den ≤ (ratio k d).num * (ratio k e).den
ratio_more k d e h l = elim (Bool-cases (nat_beq d 0)) [
  | inl z ↦
      let none_detected : k ≡ 0 = ground arith in rw (z, none_detected, ratio_zero e) (omega arith)
  | inr p ↦ let q : nat_beq e 0 ≡ false = ground arith in rw (p, q) (mul-le-mul_left k l)
]

-- A score lies between 0 and 1, and counting the uncovered mutants never raises it.
pub score_lem :
    (results : List Result)
    → ((score (overall results)).num ≤ (score (overall results)).den)
      × ((score_with_uncovered (overall results)).num * (score (overall results)).den
          ≤ (score (overall results)).num * (score_with_uncovered (overall results)).den)
unfolding score score_with_uncovered
score_lem results =
    let s = overall results in
    let (e, _) = overall-verdicts results in
    (
      ratio_le (s.killed + s.timeout) (s.total - s.not_covered - s.not_viable) (omega arith),
      ratio_more (s.killed + s.timeout) (s.total - s.not_covered - s.not_viable)
          (s.total - s.not_viable) (omega arith) (omega arith),
    )

-- The entry of one package in `pkgMap`, from the results of that package alone.
abbrev tally : Option Counts → List Result → Option Counts
tally old [] = old
tally old (r ∷ results) = tally (some (count_result r.status (or_new old))) results

per_package-tally :
    (m : Map Text Counts) (results : List Result) (p : Text)
    → lookup p (per_package m results)
      ≡ tally (lookup p m) (keep (λ r. r.mutation.pkg == p) results)
unfolding per_package
per_package-tally m [] p = refl
per_package-tally m (r ∷ results) p =
    per_package-tally (update r.mutation.pkg (λ old. count_result r.status (or_new old)) m) results
      p
    ∙ rw (lookup-update r.mutation.pkg p (λ old. count_result r.status (or_new old)) m)
        (elim (Bool-cases (r.mutation.pkg == p)) [
          | inl same ↦ rw same (
              ap
                (λ name.
                  tally (some (count_result r.status (or_new (lookup name m))))
                    (keep (λ r. r.mutation.pkg == p) results))
                ((text_beq_iff r.mutation.pkg p).0 same))
          | inr other ↦ rw other refl
        ])

with_total : Counts → ℕ → Counts
with_total s n = record s { total = n }

regroup : (t n : ℕ) → t + 1 + n ≡ t + (n + 1)
regroup t n = omega arith

count_result-total : (v : Status) (s : Counts) → (count_result v s).total ≡ s.total + 1
count_result-total v s = count_status-total v (record s { total = s.total + 1 })

count_status-with_total :
    (v : Status) (s : Counts) (n : ℕ)
    → with_total (count_result v s) (s.total + 1 + n)
      ≡ count_status v (with_total s (s.total + (n + 1)))
unfolding with_total
count_status-with_total killed s n = ap (with_total (count_status killed s)) (regroup s.total n)
count_status-with_total survived s n = ap (with_total (count_status survived s)) (regroup s.total n)
count_status-with_total timeout s n = ap (with_total (count_status timeout s)) (regroup s.total n)
count_status-with_total not_viable s n =
    ap (with_total (count_status not_viable s)) (regroup s.total n)
count_status-with_total not_covered s n =
    ap (with_total (count_status not_covered s)) (regroup s.total n)

count_result-with_total :
    (v : Status) (s : Counts) (n k : ℕ)
    → k ≡ s.total + (n + 1)
    → with_total (count_result v s) ((count_result v s).total + n) ≡ count_status v (with_total s k)
unfolding with_total
count_result-with_total v s n k h =
    ap (λ t. with_total (count_result v s) (t + n)) (count_result-total v s)
    ∙ count_status-with_total v s n
    ∙ ap (λ t. count_status v (with_total s t)) (sym h)

tally-count_all :
    (s : Counts) (results : List Result)
    → tally (some s) results ≡ some (count_all (with_total s (s.total + length results)) results)
unfolding count_all with_total
tally-count_all s [] = ap (λ n. some (with_total s n)) (omega arith)
tally-count_all s (r ∷ results) =
    tally-count_all (count_result r.status s) results
    ∙ ap (λ t. some (count_all t results))
        (count_result-with_total r.status s (length results) (s.total + length (r ∷ results))
          (omega arith))

from_none :
    (own : List Result)
    → tally none own ≡ (elim own [ [] ↦ none | r ∷ more ↦ some (overall (r ∷ more)) ])
unfolding overall count_all with_total
from_none [] = refl
from_none (r ∷ own) =
    tally-count_all (count_result r.status no_counts) own
    ∙ ap (λ t. some (count_all t own))
        (count_result-with_total r.status no_counts (length own) (length (r ∷ own)) (omega arith))

-- The counts of a package in the report are those that a report of its results alone would have,
-- and a package without results has no entry.
pub per_package-overall :
    (results : List Result) (p : Text)
    → lookup p (per_package [] results) ≡ (elim (keep (λ r. r.mutation.pkg == p) results) [
      | [] ↦ none
      | r ∷ own ↦ some (overall (r ∷ own))
    ])
unfolding lookup
per_package-overall results p =
    per_package-tally [] results p ∙ from_none (keep (λ r. r.mutation.pkg == p) results)
