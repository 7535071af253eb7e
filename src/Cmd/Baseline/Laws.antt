-- ===== src/Cmd/Baseline/Laws.antt =====
-- cmd/kanly/main.go: what `establishBaseline` excludes, and when it gives up.
use mathlib.Core.Path.{subst}
use mathlib.Core.List.{append_assoc, append-nil}
use kanly.Base.{
  ℕ, zero, suc, ◌≤◌, ◌<◌, ◌≡◌, refl, sym, ap, ◌∙◌, ◌⊎◌, inl, inr, Bool, true, false, not, ◌&&◌,
  Text, List, [], ◌∷◌, ◌++◌, map, length, arith, if◌then◌else◌,
}
use kanly.Base.Attempt.{done, failed}
use kanly.Runner.Timing.{Baseline}
use kanly.Cmd.Baseline.{
  ExcludedTest, BaselineRun, passed, test_failure, other_error, Binary, original, schema,
  BaselineError, TestRun, is_empty, excluded_test, explain_baseline_failure, settle_round, rounds,
  establish_baseline, max_baseline_rounds, Established, every_test_fails,
}

abbrev pub names : List ExcludedTest → List Text
names = map (λ e. e.test)

abbrev pub concat : List (List Text) → List Text
concat [] = []
concat (l ∷ ls) = l ++ concat ls

names-append :
    (ex : List ExcludedTest) (orig sch : TestRun) (tests : List Text)
    → names (ex ++ map (excluded_test orig sch) tests) ≡ names ex ++ tests
names-append [] orig sch [] = refl
names-append [] orig sch (t ∷ ts) = ap (λ r. t ∷ r) (names-append [] orig sch ts)
names-append (e ∷ ex) orig sch tests = ap (λ r. e.test ∷ r) (names-append ex orig sch tests)

module _ {W : Type 0} (run_baseline : List Text → W → BaselineRun × W)
    (run_tests : Binary → List Text → W → TestRun × W) where
  -- The unmodified tests as runs of the binary show them: each list are the tests that fail next when
  -- those before are skipped, as where one that panics hides others, and then the rest passes.
  abbrev pub Reveals : Baseline → List (List Text) → List Text → Type 0
  Reveals b [] skip = (w : W) → (w' : W) × (run_baseline skip w ≡ (passed b, w'))
  Reveals b (l ∷ ls) skip =
      (is_empty l ≡ false)
      × ((w : W) → (output : Text) × (w' : W) × (run_baseline skip w ≡ (test_failure l output, w')))
      × Reveals b ls (skip ++ l)

  explained :
      (output : Text) (w : W)
      → (e : BaselineError) × (w' : W) × (explain_baseline_failure run_baseline run_tests output w
          ≡ (failed e, w'))
  unfolding explain_baseline_failure
  explained output w = (_, _, refl)

  Ends : ℕ → Baseline → List (List Text) → List Text → List ExcludedTest → W → Type 0
  Ends left b layers skip ex w =
      ((length layers ≤ left)
        × ((ex' : List ExcludedTest) × (w' : W) × (rounds run_baseline run_tests left skip ex w
              ≡ (done (b, ex'), w'))
            × (names ex' ≡ names ex ++ concat layers)))
      ⊎ ((left < length layers)
          × ((e : BaselineError) × (w' : W) × (rounds run_baseline run_tests left skip ex w
                ≡ (failed e, w'))))

  rounds-Ends :
      (left : ℕ) (b : Baseline) (layers : List (List Text)) (skip : List Text)
      (ex : List ExcludedTest) (w : W)
      → is_empty b.tests ≡ false
      → Reveals b layers skip
      → Ends left b layers skip ex w
  unfolding rounds settle_round Ends
  rounds-Ends zero b [] skip ex w n r =
      let (w', e) = r w in
      inl (omega arith, (ex, w', rw (e, settle_round, n) refl, sym (append-nil (names ex))))
  rounds-Ends (suc left) b [] skip ex w n r =
      let (w', e) = r w in
      inl (omega arith, (ex, w', rw (e, settle_round, n) refl, sym (append-nil (names ex))))
  rounds-Ends left b ([] ∷ ls) skip ex w n (m, f, r) = ground arith
  rounds-Ends zero b ((t ∷ ts) ∷ ls) skip ex w n (m, f, r) =
      let (output, w', e) = f w in
      let (err, w'', x) = explained output w' in
      inr (omega arith, (err, w'', rw (e, settle_round) x))
  rounds-Ends (suc left) b ((t ∷ ts) ∷ ls) skip ex w n (m, f, r) =
      let (output, w', e) = f w in
      let orig = run_tests original (t ∷ ts) w' in
      let sch = run_tests schema (t ∷ ts) orig.1 in
      let ex2 = ex ++ map (excluded_test orig.0 sch.0) (t ∷ ts) in
      elim (rounds-Ends left b ls (skip ++ (t ∷ ts)) ex2 sch.1 n r) [
        | inl (l, (ex', w4, h, k)) ↦ inl (
          omega arith,
          (
            ex',
            w4,
            rw (e, settle_round) h,
            k
                ∙ (ap (λ r. r ++ concat ls) (names-append ex orig.0 sch.0 (t ∷ ts))
                    ∙ append_assoc (names ex) (t ∷ ts) (concat ls)),
          ),
        )
        | inr (l, (err, w4, h)) ↦ inr (omega arith, (err, w4, rw (e, settle_round) h))
      ]

  -- Where runs of the binary show the failing tests in layers, and some test passes without them all,
  -- the baseline is established exactly when there are at most three layers: then it excludes the
  -- tests of all layers, in order, and otherwise it ends with an error.
  pub establish_baseline-layers :
      (b : Baseline) (layers : List (List Text)) (w : W)
      → is_empty b.tests ≡ false
      → Reveals b layers []
      → ((length layers ≤ max_baseline_rounds)
          × ((excluded : List ExcludedTest) × (w' : W) × (establish_baseline run_baseline run_tests
                  w
                ≡ (done (b, excluded), w'))
              × (names excluded ≡ concat layers)))
        ⊎ ((max_baseline_rounds < length layers)
            × ((e : BaselineError) × (w' : W) × (establish_baseline run_baseline run_tests w
                  ≡ (failed e, w'))))
  unfolding establish_baseline Ends
  establish_baseline-layers b layers w n r = rounds-Ends max_baseline_rounds b layers [] [] w n r

  Sound : Established run_baseline run_tests → Type 0
  Sound (done (b, ex), w') =
      (w : W) × (run_baseline (names ex) w ≡ (passed b, w'))
      × ((is_empty b.tests && not (is_empty ex)) ≡ false)
  Sound (failed e, w') = Unit {0}

  is_empty-names : (ex : List ExcludedTest) → is_empty (names ex) ≡ is_empty ex
  is_empty-names [] = refl
  is_empty-names (e ∷ ex) = refl

  passed-Sound :
      (skip : List Text) (ex : List ExcludedTest) (b : Baseline) (w w' : W)
      → names ex ≡ skip
      → run_baseline skip w ≡ (passed b, w')
      → (t : Bool) → (is_empty b.tests && not (is_empty skip)) ≡ t
      → Sound (if t then failed every_test_fails else done (b, ex), w')
  unfolding Sound
  passed-Sound skip ex b w w' n e true h = tt
  passed-Sound skip ex b w w' n e false h = (
    w,
    ap (λ s. run_baseline s w) n ∙ e,
    ap (λ x. is_empty b.tests && not x) (sym (is_empty-names ex) ∙ ap is_empty n) ∙ h,
  )

  settle_round-Sound :
      (retry : List Text → Text → W → Established run_baseline run_tests) (skip : List Text)
      (ex : List ExcludedTest) (w : W) (o : BaselineRun × W)
      → names ex ≡ skip
      → run_baseline skip w ≡ o
      → ((tests : List Text) (output : Text) (w' : W) → Sound (retry tests output w'))
      → Sound (settle_round run_baseline run_tests retry skip ex o)
  unfolding settle_round Sound explain_baseline_failure
  settle_round-Sound retry skip ex w (passed b, w') n e h = passed-Sound skip ex b w w' n e _ refl
  settle_round-Sound retry skip ex w (other_error msg, w') n e h = tt
  settle_round-Sound retry skip ex w (test_failure [] output, w') n e h = tt
  settle_round-Sound retry skip ex w (test_failure (t ∷ ts) output, w') n e h = h (t ∷ ts) output w'

  gives_up-Sound :
      (output : Text) (w : W) → Sound (explain_baseline_failure run_baseline run_tests output w)
  unfolding Sound explain_baseline_failure
  gives_up-Sound output w = tt

  rounds-Sound :
      (left : ℕ) (skip : List Text) (ex : List ExcludedTest) (w : W)
      → names ex ≡ skip
      → Sound (rounds run_baseline run_tests left skip ex w)
  unfolding rounds
  rounds-Sound zero skip ex w n =
      settle_round-Sound _ skip ex w (run_baseline skip w) n refl
        (λ tests output w'. gives_up-Sound output w')
  rounds-Sound (suc left) skip ex w n =
      settle_round-Sound _ skip ex w (run_baseline skip w) n refl (λ tests output w1.
        let orig = run_tests original tests w1 in
        let sch = run_tests schema tests orig.1 in
        rounds-Sound left (skip ++ tests) (ex ++ map (excluded_test orig.0 sch.0) tests) sch.1
          (names-append ex orig.0 sch.0 tests ∙ ap (λ s. s ++ tests) n))

  -- However the tests behave, a baseline that is established is that of a run, the last one, which
  -- skipped exactly the excluded tests, and it has a test unless none is excluded.
  pub establish_baseline-excluded :
      (w w' : W) (b : Baseline) (excluded : List ExcludedTest)
      → establish_baseline run_baseline run_tests w ≡ (done (b, excluded), w')
      → (w0 : W) × (run_baseline (names excluded) w0 ≡ (passed b, w'))
        × ((is_empty b.tests && not (is_empty excluded)) ≡ false)
  unfolding establish_baseline Sound
  establish_baseline-excluded w w' b excluded h =
      subst Sound h (rounds-Sound max_baseline_rounds [] [] w refl)
