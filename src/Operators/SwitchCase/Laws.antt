-- ===== src/Operators/SwitchCase/Laws.antt =====
-- internal/operators/switch_case.go: a rewritten switch beside the switch that its active mutant
-- describes.
use kanly.Base.{
  ℕ, suc, ◌+◌, ◌<◌, ◌≤◌, ◌≡◌, refl, sym, ap, ◌∙◌, List, [], ◌∷◌, Option, none, some, arith, nat_eq,
  length, All, Distinct, Bool-cases, inl, inr,
}
use kanly.Base.Int.{ℤ, pos, negsuc}
use kanly.Go.{Outcome, value, panic, Run}
use kanly.Schema.Runtime.{is_active}
use kanly.Operators.SwitchCase.{
  Clause, Switch, pick, then_run, run_switch, default_body, labelled, default_idx, body_from, exec,
  swap_all, rewrite_group,
}
use kanly.Operators.SwitchCase.Exec.{then_run_assoc, Follows, exec-pick}
use kanly.Operators.SwitchCase.Collect.{
  Mutant, drop, swap, positions, candidates, ids, dropped_clauses, id_of, IsPlaced, IsAllPlaced,
  active_mutant, swaps_of, drops_from, collect-candidates,
}
use kanly.Operators.SwitchCase.Active.{drops_clause, moved, fires-active, swap_all-active}
use kanly.Operators.SwitchCase.Select.{
  defaults, body_nth, chosen, pick-labelled, labelled-default, chosen-none, chosen-body_nth,
  default_idx-body_nth,
}
use kanly.Operators.SwitchCase.Mutate.{
  mutate, SameTests, SameTests-mutate, default_idx-mutate, defaults-mutate, length-mutate,
  length-positions, moved-body_nth,
}

moved-missing : (o : Option Mutant) → moved o (negsuc 0) ≡ negsuc 0
moved-missing none = refl
moved-missing (some (drop k id)) = refl
moved-missing (some (swap label k id)) = refl

zero_plus : (j : ℕ) → 0 + j ≡ j
zero_plus j = omega arith

negsuc-pos : {n i : ℕ} → negsuc n ≡ pos i → ⊥
negsuc-pos e = ground arith

module _ (active : ℤ) where
  active_mutant-IsPlaced :
      (n : ℕ) (ms : List Mutant) → All (IsPlaced n) ms → IsAllPlaced n (active_mutant active ms)
  active_mutant-IsPlaced n [] a = tt
  active_mutant-IsPlaced n (m ∷ ms) (h, a) = elim (Bool-cases (is_active active (id_of m))) [
    | inl b ↦ rw b h
    | inr b ↦ rw b (active_mutant-IsPlaced n ms a)
  ]

  SameTests-Follows :
      {S V B : Type 0} (ms : List Mutant) (k : ℤ → Run S (Option B)) (i : ℕ)
      (cs rs : List (Clause S V B))
      → Distinct (ids ms)
      → Distinct (dropped_clauses ms)
      → SameTests (drops_clause (active_mutant active ms)) i cs rs
      → ((j : ℕ) (s : S) → j < length rs → k (pos (i + j)) s ≡ value (body_nth rs j, s))
      → Follows active (drops_from ms []) k i cs rs
  SameTests-Follows ms k i [] [] d e t h = tt
  SameTests-Follows ms k i [] (r ∷ rs) d e t h = elim t [ ]
  SameTests-Follows ms k i (c ∷ cs) [] d e t h = elim t [ ]
  SameTests-Follows ms k i (c ∷ cs) (r ∷ rs) d e (a, t) h = (
    rw (fires-active active ms i d e) a,
    (λ s. ap (λ j. k (pos j) s) (plus_zero i) ∙ h 0 s (omega arith)),
    SameTests-Follows ms k (i + 1) cs rs d e t
        (λ j s l. ap (λ n. k (pos n) s) (plus_suc i j) ∙ h (suc j) s (omega arith)),
  )
    where
      plus_zero : (i : ℕ) → i ≡ i + 0
      plus_zero i = omega arith

      plus_suc : (i j : ℕ) → i + 1 + j ≡ i + suc j
      plus_suc i j = omega arith

  module _ {S V B : Type 0} (all : List (Clause S V B)) (ms : List Mutant) (d : Distinct (ids ms))
      (one : defaults all ≤ 1) (a : All (IsPlaced (length all)) ms) where
    -- What follows the closure: the swaps of its answer, and the switch over the indices.
    abbrev select : ℤ → Run S (Option B)
    select w s =
        then_run (value (swap_all active (swaps_of ms) w, s))
          (λ v s'. pick v (default_body (labelled 0 all)) (labelled 0 all) s')

    select-chosen :
        (w : ℤ) (s : S)
        → select w s
          ≡ value (chosen (moved (active_mutant active ms) w) (default_body all) 0 all, s)
    select-chosen w s =
        rw (swap_all-active active ms w d, labelled-default 0 all)
          (pick-labelled _ (default_body all) 0 all s)

    select-body_nth :
        (j : ℕ) (s : S)
        → j < length (mutate (active_mutant active ms) all)
        → select (pos j) s ≡ value (body_nth (mutate (active_mutant active ms) all) j, s)
    select-body_nth j s h =
        let (i, l, m, b) =
          moved-body_nth (active_mutant active ms) j all (active_mutant-IsPlaced (length all) ms a)
            (omega (arith, length-mutate (active_mutant active ms) all)) in
        select-chosen (pos j) s
        ∙ ap (λ o. value (o, s)) (chosen-body_nth _ 0 i all one l (m ∙ ap pos (omega arith)) ∙ b)

    select-missing : (s : S) → default_body all ≡ none → select (negsuc 0) s ≡ value (none, s)
    select-missing s n =
        select-chosen (negsuc 0) s
        ∙ ap (λ o. value (o, s))
            (ap (λ w. chosen w (default_body all) 0 all) (moved-missing (active_mutant active ms))
              ∙ (chosen-none 0 (default_body all) 0 all ∙ n))

    select-default :
        (s : S)
        → select (default_idx 0 (negsuc 0) all) s
          ≡ value (default_body (mutate (active_mutant active ms) all), s)
    select-default s =
        let rest = mutate (active_mutant active ms) all in
        let same = default_idx-mutate (active_mutant active ms) 0 (negsuc 0) all in
        elim (default_idx-body_nth 0 (negsuc 0) rest
          (omega (arith, defaults-mutate (active_mutant active ms) all))) [
            | inl (e, n) ↦ elim (default_idx-body_nth 0 (negsuc 0) all one) [
              | inl (e', n') ↦
                  ap (λ w. select w s) e' ∙ (select-missing s n' ∙ ap (λ o. value (o, s)) (sym n))
              | inr (j, l, e', b) ↦ absurd (negsuc-pos (sym e ∙ (same ∙ e')))
            ]
            | inr (j, l, e, b) ↦
                ap (λ w. select w s) (sym same ∙ (e ∙ ap pos (zero_plus j)))
                ∙ (select-body_nth j s l ∙ ap (λ o. value (o, s)) b)
          ]

    closure-pick :
        (v : V) (s : S)
        → Distinct (dropped_clauses ms)
        → then_run
            (exec active (body_from (drops_from ms []) 0 all) (default_idx 0 (negsuc 0) all) v s)
            select
          ≡ pick v
              (default_body (mutate (active_mutant active ms) all))
              (mutate (active_mutant active ms) all)
              s
    closure-pick v s e =
        let rest = mutate (active_mutant active ms) all in
        exec-pick active (drops_from ms []) select 0 all rest _ (default_body rest) v s
          (SameTests-Follows ms select 0 all rest d e
            (SameTests-mutate (active_mutant active ms) all)
            (λ j s l. ap (λ n. select (pos n) s) (zero_plus j) ∙ select-body_nth j s l))
          select-default

-- A switch whose clauses stand at distinct positions, at most one of them the default, is rewritten
-- with mutants of its clauses (a swap has a next clause) that have distinct IDs, at most one of them
-- dropping each clause. It then runs as the switch does that the active mutant describes: without
-- the expressions of the dropped clause, with the bodies of the two swapped clauses exchanged, or the
-- original switch where none of its mutants is active. This covers the state and the panics of
-- the tag and of the case expressions.
pub rewrite_group-run_switch :
    {S V B : Type 0} (active : ℤ) (sw : Switch S V B) (ms : List Mutant) (s : S)
    → Distinct (positions sw.clauses)
    → defaults sw.clauses ≤ 1
    → All (IsPlaced (length sw.clauses)) ms
    → Distinct (ids ms)
    → Distinct (dropped_clauses ms)
    → run_switch (rewrite_group active sw (candidates (positions sw.clauses) ms)) s
      ≡ run_switch
          (record { tag = sw.tag; clauses = mutate (active_mutant active ms) sw.clauses })
          s
unfolding rewrite_group run_switch
rewrite_group-run_switch {S = S} {V = V} {B = B} active sw ms s p one a d e =
    rw (collect-candidates sw.clauses p ms [] [] (rw (length-positions sw.clauses) a))
      (by_tag (sw.tag s))
  where
    answer : ℤ → Run S ℤ
    answer w s = value (swap_all active (swaps_of ms) w, s)

    jump : ℤ → Run S (Option B)
    jump v s = pick v (default_body (labelled 0 sw.clauses)) (labelled 0 sw.clauses) s

    by_tag :
        (o : Outcome (V × S))
        → then_run
            (then_run o (λ v s'.
              then_run
                (exec active
                  (body_from (drops_from ms []) 0 sw.clauses)
                  (default_idx 0 (negsuc 0) sw.clauses)
                  v
                  s')
                answer))
            jump
          ≡ then_run o (λ v s'.
            pick v
              (default_body (mutate (active_mutant active ms) sw.clauses))
              (mutate (active_mutant active ms) sw.clauses)
              s')
    by_tag (value (v, s')) =
        then_run_assoc _ answer jump ∙ closure-pick active sw.clauses ms d one a v s' e
    by_tag (panic msg) = refl
