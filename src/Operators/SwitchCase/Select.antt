-- ===== src/Operators/SwitchCase/Select.antt =====
-- internal/operators/switch_case.go: the clause that the rewritten switch selects by its index.
use kanly.Base.{
  ℕ, zero, suc, ◌+◌, ap₂, ◌<◌, ◌≤◌, ◌≡◌, refl, sym, ap, ◌∙◌, ◌⊎◌, true, false, List, [], ◌∷◌,
  Option, none, some, ◌==◌, nat_eq, arith, length, Bool-cases, inl, inr, if◌then◌else◌,
}
use kanly.Base.Int.{ℤ, pos, negsuc, int_eq, int_beq, int_beq_iff}
use kanly.Go.{value}
use kanly.Operators.SwitchCase.{
  Test, Clause, match_any, pick, default_body, labelled, as_label, default_idx, or_body, if_default,
}

-- At most one clause is the default.
abbrev pub defaults : {S V B : Type 0} → List (Clause S V B) → ℕ
defaults [] = 0
defaults (c ∷ cs) = elim c.tests [ none ↦ 1 | some ts ↦ 0 ] + defaults cs

here : (w : ℤ) (i : ℕ) → w ≡ pos (i + 0) → int_beq w (pos i) ≡ true
here w i e = (int_beq_iff w (pos i)).1 (e ∙ ap pos (omega arith))

there : (w : ℤ) (i j : ℕ) → w ≡ pos (i + suc j) → int_beq w (pos i) ≡ false
there w i j e = ground arith

past : (w : ℤ) (i j : ℕ) → w ≡ pos (i + suc j) → w ≡ pos (i + 1 + j)
past w i j e = e ∙ ap pos (omega arith)

module _ {S V B : Type 0} where
  -- The body of a clause, by its index.
  abbrev pub body_nth : List (Clause S V B) → ℕ → Option B
  body_nth [] j = none
  body_nth (c ∷ cs) zero = some c.body
  body_nth (c ∷ cs) (suc j) = body_nth cs j

  -- What the switch over the indices runs.
  abbrev pub chosen : ℤ → Option B → ℕ → List (Clause S V B) → Option B
  chosen w dflt i [] = dflt
  chosen w dflt i (c ∷ cs) = elim c.tests [
    | none ↦ chosen w dflt (i + 1) cs
    | some ts ↦ if w == pos i then some c.body else chosen w dflt (i + 1) cs
  ]

  pub pick-labelled :
      (w : ℤ) (dflt : Option B) (i : ℕ) (cs : List (Clause S V B)) (s : S)
      → pick w dflt (labelled i cs) s ≡ value (chosen w dflt i cs, s)
  unfolding pick labelled match_any
  pick-labelled w dflt i [] s = refl
  pick-labelled w dflt i (c ∷ cs) s = step c.tests refl (pick-labelled w dflt (i + 1) cs s)
    where
      step :
          (t : Option (List (Test S V)))
          → c.tests ≡ t
          → pick w dflt (labelled (i + 1) cs) s ≡ value (chosen w dflt (i + 1) cs, s)
          → pick w dflt (labelled i (c ∷ cs)) s ≡ value (chosen w dflt i (c ∷ cs), s)
      step none e ih = rw (e, labelled, pick) ih
      step (some ts) e ih = elim (Bool-cases (int_beq w (pos i))) [
        | inl b ↦ rw (e, labelled, pick, match_any, b) refl
        | inr b ↦ rw (e, labelled, pick, match_any, b) ih
      ]

  if_default-as_label :
      (i : ℕ) (t : Option (List (Test S V))) (b : B) → if_default (as_label i t) b ≡ if_default t b
  if_default-as_label i none b = refl
  if_default-as_label i (some ts) b = refl

  pub labelled-default :
      (i : ℕ) (cs : List (Clause S V B)) → default_body (labelled i cs) ≡ default_body cs
  unfolding default_body labelled
  labelled-default i [] = refl
  labelled-default i (c ∷ cs) =
      ap₂ or_body (labelled-default (i + 1) cs) (if_default-as_label i c.tests c.body)

  -- No clause from `i` on has an index below `i`.
  chosen-below :
      (k : ℕ) (dflt : Option B) (i : ℕ) (cs : List (Clause S V B))
      → k < i
      → chosen (pos k) dflt i cs ≡ dflt
  chosen-below k dflt i [] h = refl
  chosen-below k dflt i (c ∷ cs) h =
      step c.tests refl (chosen-below k dflt (i + 1) cs (omega arith))
    where
      step :
          (t : Option (List (Test S V)))
          → c.tests ≡ t
          → chosen (pos k) dflt (i + 1) cs ≡ dflt
          → chosen (pos k) dflt i (c ∷ cs) ≡ dflt
      step none e ih = rw e ih
      step (some ts) e ih = rw e (ground arith)

  pub chosen-none :
      (n : ℕ) (dflt : Option B) (i : ℕ) (cs : List (Clause S V B))
      → chosen (negsuc n) dflt i cs ≡ dflt
  chosen-none n dflt i [] = refl
  chosen-none n dflt i (c ∷ cs) = step c.tests refl (chosen-none n dflt (i + 1) cs)
    where
      step :
          (t : Option (List (Test S V)))
          → c.tests ≡ t
          → chosen (negsuc n) dflt (i + 1) cs ≡ dflt
          → chosen (negsuc n) dflt i (c ∷ cs) ≡ dflt
      step none e ih = rw e ih
      step (some ts) e ih = rw e ih

  tests-cases :
      (c : Clause S V B) → (c.tests ≡ none) ⊎ ((ts : List (Test S V)) × (c.tests ≡ some ts))
  tests-cases c = split c.tests refl
    where
      split :
          (t : Option (List (Test S V)))
          → c.tests ≡ t
          → (c.tests ≡ none) ⊎ ((ts : List (Test S V)) × (c.tests ≡ some ts))
      split none e = inl e
      split (some ts) e = inr (ts, e)

  -- The default's body and the number of defaults, by what the first clause is.
  default_first :
      (c : Clause S V B) (cs : List (Clause S V B))
      → c.tests ≡ none
      → default_body cs ≡ none
      → default_body (c ∷ cs) ≡ some c.body
  unfolding default_body
  default_first c cs e h = rw (default_body, h, e) refl

  case_first :
      (c : Clause S V B) (cs : List (Clause S V B)) (ts : List (Test S V))
      → c.tests ≡ some ts
      → default_body (c ∷ cs) ≡ default_body cs
  unfolding default_body
  case_first c cs ts e = rw (default_body, e) (or_body_none (default_body cs))
    where
      or_body_none : (o : Option B) → or_body o none ≡ o
      or_body_none none = refl
      or_body_none (some b) = refl

  one_default :
      (c : Clause S V B) (cs : List (Clause S V B))
      → c.tests ≡ none
      → defaults (c ∷ cs) ≡ 1 + defaults cs
  one_default c cs e = rw e refl

  no_more :
      (c : Clause S V B) (cs : List (Clause S V B)) (ts : List (Test S V))
      → c.tests ≡ some ts
      → defaults (c ∷ cs) ≡ defaults cs
  no_more c cs ts e = rw e (omega arith)

  no_default : (cs : List (Clause S V B)) → defaults cs ≡ 0 → default_body cs ≡ none
  unfolding default_body
  no_default [] h = refl
  no_default (c ∷ cs) h = elim (tests-cases c) [
    | inl e ↦ absurd (omega (arith, one_default c cs e))
    | inr (ts, e) ↦ case_first c cs ts e ∙ no_default cs (omega (arith, no_more c cs ts e))
  ]

  chosen-case :
      (dflt : Option B) (w : ℤ) (i j : ℕ) (cs : List (Clause S V B))
      → defaults cs ≡ 0
      → j < length cs
      → w ≡ pos (i + j)
      → chosen w dflt i cs ≡ body_nth cs j
  chosen-case dflt w i j [] d h e = absurd (omega arith)
  chosen-case dflt w i zero (c ∷ cs) d h e = elim (tests-cases c) [
    | inl t ↦ absurd (omega (arith, one_default c cs t))
    | inr (ts, t) ↦ rw (t, here w i e) refl
  ]
  chosen-case dflt w i (suc j) (c ∷ cs) d h e = elim (tests-cases c) [
    | inl t ↦ absurd (omega (arith, one_default c cs t))
    | inr (ts, t) ↦
        rw (t, there w i j e)
          (chosen-case dflt w (i + 1) j cs (omega (arith, no_more c cs ts t)) (omega arith)
            (past w i j e))
  ]

  -- An index of a clause, the default included, selects that clause.
  pub chosen-body_nth :
      (w : ℤ) (i j : ℕ) (cs : List (Clause S V B))
      → defaults cs ≤ 1
      → j < length cs
      → w ≡ pos (i + j)
      → chosen w (default_body cs) i cs ≡ body_nth cs j
  chosen-body_nth w i j [] d h e = absurd (omega arith)
  chosen-body_nth w i zero (c ∷ cs) d h e = elim (tests-cases c) [
    | inl t ↦
        let k : defaults cs ≡ 0 = omega (arith, one_default c cs t) in
        let dflt = default_body (c ∷ cs) in
        rw t (
          ap (λ x. chosen x dflt (i + 1) cs) (e ∙ ap pos (omega arith))
          ∙ (chosen-below i dflt (i + 1) cs (omega arith) ∙ default_first c cs t (no_default cs k)))
    | inr (ts, t) ↦ rw (t, here w i e) refl
  ]
  chosen-body_nth w i (suc j) (c ∷ cs) d h e = elim (tests-cases c) [
    | inl t ↦ rw t (
        chosen-case (default_body (c ∷ cs)) w (i + 1) j cs (omega (arith, one_default c cs t))
          (omega arith) (past w i j e))
    | inr (ts, t) ↦
        rw (t, there w i j e)
          (ap (λ o. chosen w o (i + 1) cs) (case_first c cs ts t)
            ∙ chosen-body_nth w (i + 1) j cs (omega (arith, no_more c cs ts t)) (omega arith)
                (past w i j e))
  ]

  default_idx-none :
      (i : ℕ) (d : ℤ) (cs : List (Clause S V B)) → defaults cs ≡ 0 → default_idx i d cs ≡ d
  unfolding default_idx
  default_idx-none i d [] h = refl
  default_idx-none i d (c ∷ cs) h = elim (tests-cases c) [
    | inl t ↦ absurd (omega (arith, one_default c cs t))
    | inr (ts, t) ↦
        rw (default_idx, t) (default_idx-none (i + 1) d cs (omega (arith, no_more c cs ts t)))
  ]

  -- The closure's last answer is the default's index, or `d` where there is none.
  pub default_idx-body_nth :
      (i : ℕ) (d : ℤ) (cs : List (Clause S V B))
      → defaults cs ≤ 1
      → ((default_idx i d cs ≡ d) × (default_body cs ≡ none))
        ⊎ ((j : ℕ) × (j < length cs)
            × (default_idx i d cs ≡ pos (i + j))
            × (body_nth cs j ≡ default_body cs))
  unfolding default_idx default_body
  default_idx-body_nth i d [] h = inl (refl, refl)
  default_idx-body_nth i d (c ∷ cs) h = elim (tests-cases c) [
    | inl t ↦
        let k : defaults cs ≡ 0 = omega (arith, one_default c cs t) in
        let e = default_idx-none (i + 1) (pos i) cs k in
        inr (
          0,
          omega arith,
          rw (default_idx, t) (e ∙ ap pos (omega arith)),
          sym (default_first c cs t (no_default cs k)),
        )
    | inr (ts, t) ↦ elim (default_idx-body_nth (i + 1) d cs (omega (arith, no_more c cs ts t))) [
      | inl (e, n) ↦ inl (rw (default_idx, t) e, case_first c cs ts t ∙ n)
      | inr (j, l, e, b) ↦ inr (
        suc j,
        omega arith,
        rw (default_idx, t) (e ∙ ap pos (omega arith)),
        b ∙ sym (case_first c cs ts t),
      )
    ]
  ]
