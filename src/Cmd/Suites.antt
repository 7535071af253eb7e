-- ===== src/Cmd/Suites.antt =====
-- cmd/kanly/main.go: `runMutantSuites`. Running one test binary, `runner.RunMutant` under the
-- suite's timeout, is an argument.
use kanly.Base.{
  ℕ, ◌+◌, ◌≡◌, refl, sym, ◌∙◌, ap, Bool, true, false, ◌&&◌, ◌||◌, Text, codes, List, [], ◌∷◌, ◌++◌,
  arith, map, any, ◌==◌, Bool-cases, inl, inr, if◌then◌else◌,
}
use kanly.Base.Attempt.{Attempt, done, failed, ◌>>=◌, >>=-eq-done, done-injective}
use kanly.Mutation.{Status, status_eq, status_beq_iff, killed, survived, timeout}

-- A suite with the tests of it that cover the mutant.
pub record Suite : Type 0 where
  pub pkg : Text
  pub own : Bool
  pub tests : List Text

abbrev pub result_name : Suite → Text → Text
result_name s test = if s.own then test else s.pkg ++ (codes "." ++ test)

pub record Verdict : Type 0 where
  pub status : Status
  pub killers : List Text
  pub total : ℕ

-- What a run reports: its verdict, the tests that failed and its duration.
abbrev pub RunMutant : Type 0 → Type 0
RunMutant E = Suite → Attempt E Verdict

-- The verdict so far with one more run's.
abbrev pub absorb : Suite → Verdict → Verdict → Verdict
absorb s v r = elim r.status [
  | killed ↦ record {
    status = killed;
    killers = v.killers ++ map (result_name s) r.killers;
    total = v.total + r.total;
  }
  | timeout ↦ record {
    status = if v.status == killed then killed else timeout;
    killers = v.killers;
    total = v.total + r.total;
  }
  | _ ↦ record v { total = v.total + r.total }
]

module _ {E : Type 0} (run : RunMutant E) (fail_fast : Bool) where
  unfoldable pub run_from : Verdict → List Suite → Attempt E Verdict
  run_from v [] = done v
  run_from v (s ∷ suites) =
      let skipped = run_from v suites in
      elim s.tests [
        | [] ↦ skipped
        | t ∷ tests ↦ do
          r ← run s
          elim (r.status == killed && fail_fast) [
            | true ↦ done (absorb s v r)
            | false ↦ run_from (absorb s v r) suites
          ]
      ]

  unfoldable pub run_mutant_suites : List Suite → Attempt E Verdict
  run_mutant_suites suites = run_from (record { status = survived; killers = []; total = 0 }) suites

-- Whether a suite with tests gives a verdict.
abbrev is_run : Suite → Bool
is_run s = elim s.tests [ [] ↦ false | t ∷ tests ↦ true ]

abbrev pub gives : {E : Type 0} → RunMutant E → Status → Suite → Bool
gives run want s = is_run s && elim (run s) [ done r ↦ r.status == want | failed e ↦ false ]

-- A kill outweighs a timeout, which outweighs survival.
abbrev pub worst : Bool → Bool → Status
worst true timed_out = killed
worst false true = timeout
worst false false = survived

abbrev joined : Status → Bool → Bool → Status
joined v kills times = worst ((v == killed) || kills) ((v == timeout) || times)

-- A verdict so far is one of three.
abbrev pub settled : Status → Bool
settled v = v == killed || (v == timeout || v == survived)

absorb-joined :
    (s : Suite) (v r : Verdict) (k t : Bool)
    → settled v.status ≡ true
    → joined (absorb s v r).status k t
      ≡ joined v.status ((r.status == killed) || k) ((r.status == timeout) || t)
absorb-joined s v r k t c = ground arith

absorb-settled :
    (s : Suite) (v r : Verdict) → settled v.status ≡ true → settled (absorb s v r).status ≡ true
absorb-settled s v r c = ground arith

joined-killed :
    (s : Suite) (v r : Verdict) (k t : Bool)
    → r.status ≡ killed
    → (absorb s v r).status
      ≡ joined v.status ((r.status == killed) || k) ((r.status == timeout) || t)
joined-killed s v r k t h = ground arith

joined-settled : (v : Status) → settled v ≡ true → v ≡ joined v false false
joined-settled v c = ground arith

module _ {E : Type 0} (run : RunMutant E) (fail_fast : Bool) where
  run_from-step :
      (v : Verdict) (s : Suite) (suites : List Suite) (t : Text) (ts : List Text) {r : Verdict}
      → s.tests ≡ t ∷ ts
      → run_from run fail_fast v (s ∷ suites) ≡ done r
      → (x : Verdict) × (run s ≡ done x)
        × (elim (x.status == killed && fail_fast) [
          | true ↦ done (absorb s v x)
          | false ↦ run_from run fail_fast (absorb s v x) suites
        ])
          ≡ done r
  unfolding run_from
  run_from-step v s suites t ts e h = >>=-eq-done (run s) _ (rw e at h)

  gives-run :
      (want : Status) (s : Suite) (x : Verdict) (t : Text) (ts : List Text)
      → s.tests ≡ t ∷ ts
      → run s ≡ done x
      → gives run want s ≡ (x.status == want)
  gives-run want s x t ts e h = rw (h, e) refl

  gives-skip : (want : Status) (s : Suite) → s.tests ≡ [] → gives run want s ≡ false
  gives-skip want s e = rw e refl

  run_from-status :
      (v : Verdict) (suites : List Suite) {r : Verdict}
      → settled v.status ≡ true
      → run_from run fail_fast v suites ≡ done r
      → r.status ≡ joined v.status (any (gives run killed) suites) (any (gives run timeout) suites)
  unfolding run_from
  run_from-status v [] c h =
      ap (λ (x : Verdict). x.status) (sym (done-injective h)) ∙ joined-settled v.status c
  run_from-status v (s ∷ suites) {r} c h =
      step s.tests refl (λ x r'. run_from-status (absorb s v x) suites {r = r'})
        (λ r'. run_from-status v suites {r = r'} c)
    where
      step :
          (ts : List Text)
          → s.tests ≡ ts
          → ((x : Verdict)
              → (r' : Verdict) → settled (absorb s v x).status ≡ true
              → run_from run fail_fast (absorb s v x) suites ≡ done r'
              → r'.status
                ≡ joined
                    (absorb s v x).status
                    (any (gives run killed) suites)
                    (any (gives run timeout) suites))
          → ((r' : Verdict)
              → run_from run fail_fast v suites ≡ done r'
              → r'.status
                ≡ joined v.status (any (gives run killed) suites) (any (gives run timeout) suites))
          → r.status
            ≡ joined v.status
                (gives run killed s || any (gives run killed) suites)
                (gives run timeout s || any (gives run timeout) suites)
      step [] e ih skip = rw (gives-skip killed s e, gives-skip timeout s e) (skip r (rw e at h))
      step (t ∷ ts) e ih skip =
          let (x, h1, h2) = run_from-step v s suites t ts e h in
          rw (gives-run killed s x t ts e h1, gives-run timeout s x t ts e h1)
            (elim (Bool-cases (x.status == killed && fail_fast)) [
              | inl b ↦
                  ap (λ (y : Verdict). y.status) (sym (done-injective (rw b at h2)))
                  ∙ joined-killed s v x _ _ (ground (arith, status_beq_iff x.status killed))
              | inr b ↦ ih x r (absorb-settled s v x c) (rw b at h2) ∙ absorb-joined s v x _ _ c
            ])

  -- A mutant that was run to the end, stopping at the first kill or not, is killed when the tests
  -- of some suite kill it, timed out when none does and those of some suite time out, and survives
  -- otherwise.
  pub run_mutant_suites-status :
      (suites : List Suite) {r : Verdict}
      → run_mutant_suites run fail_fast suites ≡ done r
      → r.status ≡ worst (any (gives run killed) suites) (any (gives run timeout) suites)
  unfolding run_mutant_suites
  run_mutant_suites-status suites h =
      run_from-status (record { status = survived; killers = []; total = 0 }) suites refl h
