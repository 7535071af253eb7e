-- ===== src/Runner/Timing.antt =====
-- internal/runner/runner.go: the timeout of a mutant from the baseline's durations, in nanoseconds.
-- Multiplying by the timeout factor, a float, is an argument.
use kanly.Base.{
  ℕ, ◌+◌, ◌-◌, ◌≤◌, ◌≡◌, refl, false, Text, List, [], ◌∷◌, Option, none, some, arith, text_eq,
  nat_eq, text_beq_iff, contains, Distinct, ltb, if◌then◌else◌,
}
use kanly.Base.Map.{Map, lookup}

pub record Baseline : Type 0 where
  pub tests : List Text
  pub durations : Map Text ℕ
  pub wall : ℕ

abbrev pub sum_durations : Map Text ℕ → ℕ
sum_durations [] = 0
sum_durations ((name, d) ∷ durations) = d + sum_durations durations

-- `b.Wall - sum` where that is positive.
unfoldable pub overhead : Baseline → ℕ
overhead b =
    if ltb (sum_durations b.durations) b.wall then b.wall - sum_durations b.durations else 0

abbrev pub or_zero : Option ℕ → ℕ
or_zero none = 0
or_zero (some d) = d

abbrev pub time_of : Map Text ℕ → List Text → ℕ
time_of durations [] = 0
time_of durations (name ∷ names) = or_zero (lookup name durations) + time_of durations names

abbrev pub or_all : List Text → List Text → List Text
or_all [] all = all
or_all (t ∷ tests) all = t ∷ tests

unfoldable pub mutant_timeout : (ℕ → ℕ) → Baseline → List Text → ℕ → ℕ
mutant_timeout scale b tests slack =
    scale (overhead b + time_of b.durations (or_all tests b.tests)) + slack

-- Every test of the baseline's has a duration, listed in the order of its tests.
abbrev pub Timed : Map Text ℕ → List Text → Type 0
Timed [] [] = Unit
Timed ((name, d) ∷ durations) (t ∷ tests) = (name ≡ t) × Timed durations tests
Timed _ _ = ⊥

time_of-other :
    (t : Text) (d : ℕ) (durations : Map Text ℕ) (tests : List Text)
    → contains tests t ≡ false
    → time_of ((t, d) ∷ durations) tests ≡ time_of durations tests
unfolding lookup
time_of-other t d durations [] h = refl
time_of-other t d durations (u ∷ tests) h =
    ground (arith, time_of-other t d durations tests, text_beq_iff t u, text_beq_iff u t)

time_of-all :
    (durations : Map Text ℕ) (tests : List Text)
    → Timed durations tests
    → Distinct tests
    → time_of durations tests ≡ sum_durations durations
unfolding lookup
time_of-all [] [] h d = refl
time_of-all [] (t ∷ tests) h d = absurd h
time_of-all (e ∷ durations) [] h d = absurd h
time_of-all ((name, k) ∷ durations) (t ∷ tests) h d = ground (
  arith,
  text_beq_iff name t,
  time_of-other name k durations tests,
  time_of-all durations tests h.1 d.1,
  h.0,
)

overhead-wall : (b : Baseline) → b.wall ≤ overhead b + sum_durations b.durations
unfolding overhead
overhead-wall b = ground arith

-- A mutant that runs every test gets at least the time that the unmodified tests took and the slack
-- on top, for a factor that is not below 1, as long as each test has one duration.
pub mutant_timeout-wall :
    (scale : ℕ → ℕ) (b : Baseline) (slack : ℕ)
    → ((n : ℕ) → n ≤ scale n)
    → Timed b.durations b.tests
    → Distinct b.tests
    → b.wall + slack ≤ mutant_timeout scale b [] slack
unfolding mutant_timeout
mutant_timeout-wall scale b slack f h d =
    mutant_timeout_chain b.wall (overhead b) (time_of b.durations b.tests)
      (sum_durations b.durations) (scale (overhead b + time_of b.durations b.tests)) slack
      (overhead-wall b) (time_of-all b.durations b.tests h d)
      (f (overhead b + time_of b.durations b.tests))
  where
    mutant_timeout_chain : (w o t s r k : ℕ) → w ≤ o + s → t ≡ s → o + t ≤ r → w + k ≤ r + k
    mutant_timeout_chain w o t s r k h e l = omega arith
