-- ===== src/Schema/Spans/Laws.antt =====
-- internal/schema/rewriter.go: which case expression `caseStmtLine` finds, and the names of
-- `funcDeclName`.
use kanly.Base.{
  ℕ, ◌<◌, ◌≤◌, ◌≡◌, refl, sym, ◌⊎◌, inl, inr, Bool, true, false, ◌&&◌, List, [], ◌∷◌, arith, All,
  Bool-cases, ltb, nat_eq, any, ◌==◌,
}
use native.Mathlib.Nat.{le_refl}
use mathlib.Core.Path.{subst}
use kanly.Schema.Spans.{CaseSpan, case_loop, case_stmt_line, within}

-- `line` is the statement line of a span around `pos` that starts last among such spans.
pub data Innermost (pos : ℕ) (spans : List CaseSpan) (line : ℕ) : Type 0 where
  outside : All (λ s. within s.start s.end pos ≡ false) spans → line ≡ 0 → Innermost pos spans line
  inside :
      (start : ℕ)
      → any (λ s. within s.start s.end pos && (s.start == start && s.stmt_line == line)) spans
        ≡ true
      → All (λ s. within s.start s.end pos ≡ true → s.start ≤ start) spans
      → Innermost pos spans line

abbrev at : ℕ → ℕ → ℕ → CaseSpan → Bool
at pos start line s = within s.start s.end pos && (s.start == start && s.stmt_line == line)

abbrev EndBy : ℕ → ℕ → List CaseSpan → Type 0
EndBy pos start = All (λ s. within s.start s.end pos ≡ true → s.start ≤ start)

-- Over the spans that are left the loop keeps what it had, or finds one that starts later.
abbrev Improves : ℕ → ℕ → ℕ → List CaseSpan → ℕ → Type 0
Improves pos line start spans r =
    (EndBy pos start spans × (r ≡ line))
    ⊎ ((later : ℕ) × (start < later) × (any (at pos later r) spans ≡ true) × EndBy pos later spans)

Improves-better :
    (pos line start r : ℕ) (s : CaseSpan) (spans : List CaseSpan)
    → (within s.start s.end pos && ltb start s.start) ≡ true
    → Improves pos s.stmt_line s.start spans r
    → Improves pos line start (s ∷ spans) r
Improves-better pos line start r s spans b (inl (all, e)) =
    inr (s.start, ground arith, ground arith, ((λ _. le_refl s.start), all))
Improves-better pos line start r s spans b (inr (later, lt, found, all)) =
    inr (later, ground arith, ground arith, ((λ _. omega arith), all))

Improves-worse :
    (pos line start r : ℕ) (s : CaseSpan) (spans : List CaseSpan)
    → (within s.start s.end pos && ltb start s.start) ≡ false
    → Improves pos line start spans r
    → Improves pos line start (s ∷ spans) r
Improves-worse pos line start r s spans b (inl (all, e)) = inl (((λ w. ground arith), all), e)
Improves-worse pos line start r s spans b (inr (later, lt, found, all)) =
    inr (later, lt, ground arith, ((λ w. ground arith), all))

module _ (pos line start : ℕ) (s : CaseSpan) (spans : List CaseSpan) where
  case_loop-better :
      (within s.start s.end pos && ltb start s.start) ≡ true
      → case_loop pos line start (s ∷ spans) ≡ case_loop pos s.stmt_line s.start spans
  unfolding case_loop
  case_loop-better b = rw b

  case_loop-worse :
      (within s.start s.end pos && ltb start s.start) ≡ false
      → case_loop pos line start (s ∷ spans) ≡ case_loop pos line start spans
  unfolding case_loop
  case_loop-worse b = rw b

case_loop-Improves :
    (pos line start : ℕ) (spans : List CaseSpan)
    → Improves pos line start spans (case_loop pos line start spans)
unfolding case_loop
case_loop-Improves pos line start [] = inl (tt, refl)
case_loop-Improves pos line start (s ∷ spans) =
    elim (Bool-cases (within s.start s.end pos && ltb start s.start)) [
      | inl b ↦
          subst (Improves pos line start (s ∷ spans))
            (sym (case_loop-better pos line start s spans b))
            (Improves-better pos line start _ s spans b
              (case_loop-Improves pos s.stmt_line s.start spans))
      | inr b ↦
          subst (Improves pos line start (s ∷ spans))
            (sym (case_loop-worse pos line start s spans b))
            (Improves-worse pos line start _ s spans b (case_loop-Improves pos line start spans))
    ]

none_within :
    (pos : ℕ) (spans : List CaseSpan)
    → All (λ s. 0 < s.start) spans
    → EndBy pos 0 spans
    → All (λ s. within s.start s.end pos ≡ false) spans
none_within pos [] p h = tt
none_within pos (s ∷ spans) p h = (grind arith, none_within pos spans p.1 h.1)

-- For spans at real positions, `caseStmtLine` finds the statement line of the span around the
-- position that starts last, and 0 exactly where no span is around it.
pub case_stmt_line_lem :
    (pos : ℕ) (spans : List CaseSpan)
    → All (λ s. 0 < s.start) spans
    → Innermost pos spans (case_stmt_line spans pos)
unfolding case_stmt_line
case_stmt_line_lem pos spans p = elim (case_loop-Improves pos 0 0 spans) [
  | inl (all, e) ↦ outside (none_within pos spans p all) e
  | inr (later, lt, found, all) ↦ inside later found all
]
