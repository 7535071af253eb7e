-- ===== src/Operators/SwitchCase/Active.antt =====
-- internal/operators/switch_case.go: what the active mutant of a switch changes.
use kanly.Base.{
  ℕ, ◌+◌, ◌≡◌, refl, sym, ap, ◌∙◌, Bool, true, false, List, [], ◌∷◌, Option, none, some, ◌==◌,
  nat_eq, nat_beq, contains, Distinct, arith, Bool-cases, inl, inr, if◌then◌else◌,
}
use kanly.Base.Int.{ℤ, pos, int_eq}
use kanly.Base.Map.{Map, lookup, insert, lookup-insert}
use kanly.Schema.Plain.{cmut_swap}
use kanly.Schema.Runtime.{is_active}
use kanly.Operators.SwitchCase.{swap_all}
use kanly.Operators.SwitchCase.Exec.{fires}
use kanly.Operators.SwitchCase.Collect.{
  Mutant, drop, swap, id_of, ids, dropped_clauses, active_mutant, swaps_of, drops_from,
}

abbrev or_else : Option ℕ → Option ℕ → Option ℕ
or_else none o = o
or_else (some id) o = some id

or_else-none : (o : Option ℕ) → or_else o none ≡ o
or_else-none none = refl
or_else-none (some id) = refl

-- The active mutant drops the clause.
abbrev pub drops_clause : Option Mutant → ℕ → Bool
drops_clause (some (drop k id)) i = k == i
drops_clause _ i = false

-- What the active mutant does to the index of the clause that matched.
abbrev pub moved : Option Mutant → ℤ → ℤ
moved (some (swap label k id)) w =
    if w == pos k then pos (k + 1) else if w == pos (k + 1) then pos k else w
moved _ w = w

module _ (active : ℤ) where
  one_active : (i j : ℕ) → is_active active i ≡ true → is_active active j ≡ true → i ≡ j
  one_active i j h k = ground arith

  fires-other :
      (ms : List Mutant) (drops : Map ℕ ℕ) (i : ℕ)
      → contains (dropped_clauses ms) i ≡ false
      → lookup i (drops_from ms drops) ≡ lookup i drops
  fires-other [] drops i h = refl
  fires-other (drop k id ∷ ms) drops i h =
      fires-other ms (insert k id drops) i (ground arith)
      ∙ rw (lookup-insert k i id drops) (ground arith)
  fires-other (swap label k id ∷ ms) drops i h = fires-other ms drops i h

  none_active :
      (ms : List Mutant) (i : ℕ)
      → is_active active i ≡ true
      → contains (ids ms) i ≡ false
      → active_mutant active ms ≡ none
  none_active [] i h c = refl
  none_active (m ∷ ms) i h c = elim (Bool-cases (is_active active (id_of m))) [
    | inl b ↦ ground (arith, one_active (id_of m) i b h)
    | inr b ↦ rw b (none_active ms i h (ground arith))
  ]

  drop_of : List Mutant → ℕ → Option ℕ
  drop_of [] i = none
  drop_of (drop k id ∷ ms) i = if k == i then some id else drop_of ms i
  drop_of (swap label k id ∷ ms) i = drop_of ms i

  lookup-drops_from :
      (ms : List Mutant) (drops : Map ℕ ℕ) (i : ℕ)
      → Distinct (dropped_clauses ms)
      → lookup i (drops_from ms drops) ≡ or_else (drop_of ms i) (lookup i drops)
  unfolding drop_of
  lookup-drops_from [] drops i d = refl
  lookup-drops_from (drop k id ∷ ms) drops i d = elim (Bool-cases (nat_beq k i)) [
    | inl b ↦ rw b (
        fires-other ms (insert k id drops) i (ground arith)
        ∙ rw (lookup-insert k i id drops, b) refl)
    | inr b ↦ rw b (
        lookup-drops_from ms (insert k id drops) i d.1
        ∙ ap (or_else (drop_of ms i)) (rw (lookup-insert k i id drops, b) refl))
  ]
  lookup-drops_from (swap label k id ∷ ms) drops i d = lookup-drops_from ms drops i d

  not_dropped :
      (ms : List Mutant) (i : ℕ)
      → contains (dropped_clauses ms) i ≡ false
      → drops_clause (active_mutant active ms) i ≡ false
  not_dropped [] i h = refl
  not_dropped (drop k id ∷ ms) i h = elim (Bool-cases (is_active active id)) [
    | inl b ↦ rw b (ground arith)
    | inr b ↦ rw b (not_dropped ms i (ground arith))
  ]
  not_dropped (swap label k id ∷ ms) i h = elim (Bool-cases (is_active active id)) [
    | inl b ↦ rw b refl
    | inr b ↦ rw b (not_dropped ms i h)
  ]

  abbrev fires_opt : Option ℕ → Bool
  fires_opt o = elim o [ none ↦ false | some id ↦ is_active active id ]

  fires-drop_of :
      (ms : List Mutant) (i : ℕ)
      → Distinct (ids ms)
      → Distinct (dropped_clauses ms)
      → fires_opt (drop_of ms i) ≡ drops_clause (active_mutant active ms) i
  unfolding drop_of
  fires-drop_of [] i d e = refl
  fires-drop_of (drop k id ∷ ms) i d e = elim (Bool-cases (is_active active id)) [
    | inl b ↦
        let n = none_active ms id b d.0 in
        elim (Bool-cases (nat_beq k i)) [
          | inl c ↦ rw (b, c) b
          | inr c ↦ rw (b, c) (fires-drop_of ms i d.1 e.1 ∙ ap (λ o. drops_clause o i) n)
        ]
    | inr b ↦ elim (Bool-cases (nat_beq k i)) [
      | inl c ↦ rw (b, c) (b ∙ sym (not_dropped ms i (ground arith)))
      | inr c ↦ rw (b, c) (fires-drop_of ms i d.1 e.1)
    ]
  ]
  fires-drop_of (swap label k id ∷ ms) i d e = elim (Bool-cases (is_active active id)) [
    | inl b ↦ rw b (fires-drop_of ms i d.1 e ∙ ap (λ o. drops_clause o i) (none_active ms id b d.0))
    | inr b ↦ rw b (fires-drop_of ms i d.1 e)
  ]

  -- The clause whose drop mutant is active is skipped, and no other.
  pub fires-active :
      (ms : List Mutant) (i : ℕ)
      → Distinct (ids ms)
      → Distinct (dropped_clauses ms)
      → fires active (drops_from ms []) i ≡ drops_clause (active_mutant active ms) i
  unfolding lookup
  fires-active ms i d e =
      ap fires_opt (lookup-drops_from ms [] i e ∙ or_else-none (drop_of ms i))
      ∙ fires-drop_of ms i d e

  pub swap_all-active :
      (ms : List Mutant) (w : ℤ)
      → Distinct (ids ms)
      → swap_all active (swaps_of ms) w ≡ moved (active_mutant active ms) w
  unfolding swap_all cmut_swap
  swap_all-active [] w d = refl
  swap_all-active (drop k id ∷ ms) w d = elim (Bool-cases (is_active active id)) [
    | inl b ↦ rw b (swap_all-active ms w d.1 ∙ ap (λ o. moved o w) (none_active ms id b d.0))
    | inr b ↦ rw (b, swap_all, cmut_swap) (swap_all-active ms w d.1)
  ]
  swap_all-active (swap label k id ∷ ms) w d = elim (Bool-cases (is_active active id)) [
    | inl b ↦
        let u = moved (some (swap label k id)) w in
        rw (b, swap_all, cmut_swap)
          (swap_all-active ms u d.1 ∙ ap (λ o. moved o u) (none_active ms id b d.0))
    | inr b ↦ rw (b, swap_all, cmut_swap) (swap_all-active ms w d.1)
  ]
