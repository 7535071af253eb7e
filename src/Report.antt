-- ===== src/Report.antt =====
-- internal/report/report.go: the counts and scores of a report, over all mutants and per package.
pub mod Totals
pub mod Survivors
pub mod Budget
pub mod TestAxis
mod Tests
use kanly.Base.{
  ℕ, ◌+◌, ◌-◌, Bool, true, false, Text, List, [], ◌∷◌, Option, none, some, length, nat_beq, text_eq,
  map, if◌then◌else◌,
}
use kanly.Base.Map.{Map, lookup, update}
use kanly.Base.Sort.{sort}
use kanly.Base.Strings.{text_le}
use kanly.Mutation.{Status, killed, survived, timeout, not_viable, not_covered, Mutation, Result}

-- A score is a fraction, the quotient of two counts.
pub record Fraction : Type 0 where
  pub num : ℕ
  pub den : ℕ

-- The counts of a `Summary`; `Ignored` is set elsewhere.
pub record Counts : Type 0 where
  pub total : ℕ
  pub killed : ℕ
  pub survived : ℕ
  pub timeout : ℕ
  pub not_viable : ℕ
  pub not_covered : ℕ

-- The counts are never negative, so a denominator that is not positive is 0 here.
abbrev pub ratio : ℕ → ℕ → Fraction
ratio num den =
    if nat_beq den 0 then record { num = 0; den = 1 } else record { num = num; den = den }

unfoldable pub score : Counts → Fraction
score s = ratio (s.killed + s.timeout) (s.total - s.not_covered - s.not_viable)

unfoldable pub score_with_uncovered : Counts → Fraction
score_with_uncovered s = ratio (s.killed + s.timeout) (s.total - s.not_viable)

abbrev pub no_counts : Counts
no_counts = record {
  total = 0;
  killed = 0;
  survived = 0;
  timeout = 0;
  not_viable = 0;
  not_covered = 0;
}

-- The switch on `r.Status`.
abbrev pub count_status : Status → Counts → Counts
count_status killed s = record s { killed = s.killed + 1 }
count_status survived s = record s { survived = s.survived + 1 }
count_status timeout s = record s { timeout = s.timeout + 1 }
count_status not_viable s = record s { not_viable = s.not_viable + 1 }
count_status not_covered s = record s { not_covered = s.not_covered + 1 }

unfoldable pub count_all : Counts → List Result → Counts
count_all s [] = s
count_all s (r ∷ results) = count_all (count_status r.status s) results

unfoldable pub overall : List Result → Counts
unfolding count_all
overall results = count_all (record no_counts { total = length results }) results

abbrev pub or_new : Option Counts → Counts
or_new none = no_counts
or_new (some s) = s

abbrev pub count_result : Status → Counts → Counts
count_result status s = count_status status (record s { total = s.total + 1 })

-- The loop that fills `pkgMap`.
unfoldable pub per_package : Map Text Counts → List Result → Map Text Counts
per_package m [] = m
per_package m (r ∷ results) =
    per_package (update r.mutation.pkg (λ old. count_result r.status (or_new old)) m) results

pub record PackageSummary : Type 0 where
  pub pkg : Text
  pub counts : Counts
  pub score : Fraction
  pub score_with_uncovered : Fraction

abbrev summarize : Map Text Counts → Text → PackageSummary
summarize m name =
    let s = or_new (lookup name m) in
    record {
      pkg = name;
      counts = s;
      score = score s;
      score_with_uncovered = score_with_uncovered s;
    }

abbrev names_of : Map Text Counts → List Text
names_of = map (λ (name, _). name)

unfoldable pub package_summaries : List Result → List PackageSummary
unfolding per_package
package_summaries results =
    let m = per_package [] results in map (summarize m) (sort text_le (names_of m))
