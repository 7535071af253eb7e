-- ===== src/Operators/Find/Switch/Placed.antt =====
-- internal/operators/switch_case.go: where the mutants that `Find` returns on a switch stand, and which
-- clauses they drop.
use kanly.Base.{
  ℕ, ◌+◌, ◌<◌, ◌≡◌, refl, ap, Bool, true, false, not, ◌&&◌, ◌||◌, List, [], ◌∷◌, ◌++◌, nat_eq,
  text_eq, ◌==◌, arith, length, text_beq, nat_beq, All, Distinct, contains, if◌then◌else◌,
  Bool-cases, inl, inr,
}
use kanly.Operators.Tree.{Nodes, nil, cons, node_text}
use kanly.Operators.SwitchCase.Collect.{dropped_clauses, IsPlaced}
use kanly.Operators.Find.Switch.{is_default, is_empty_body, is_nil, clause_label}
use kanly.Operators.Find.Switch.Mutants.{
  Shape, drops, swaps, fill, drop_shapes, swap_shapes, case_positions,
}

pub All-append :
    {A : Type 0} (P : A → Type 0) (xs ys : List A) → All P xs → All P ys → All P (xs ++ ys)
All-append P [] ys a b = b
All-append P (x ∷ xs) ys (p, a) b = (p, All-append P xs ys a b)

-- The clause of each shape, and of a swap the next one, has an index below `n`.
abbrev pub Placed : ℕ → Shape → Type 0
Placed n (drops k) = k < n
Placed n (swaps label k) = k + 1 < n

pub drop_shapes-Placed :
    (n i : ℕ) (b : Bool) (cs : Nodes)
    → i + length (case_positions cs) ≡ n
    → All (Placed n) (drop_shapes i b cs)
drop_shapes-Placed n i b nil h = tt
drop_shapes-Placed n i b (cons c cs) h =
    All-append (Placed n) _ (drop_shapes (i + 1) b cs)
      (one (is_default c || is_empty_body c && not b && is_nil cs))
      (drop_shapes-Placed n (i + 1) b cs (omega arith))
  where
    one : (skipped : Bool) → All (Placed n) (if skipped then [] else drops i ∷ [])
    one true = tt
    one false = (omega arith, tt)

pub swap_shapes-Placed :
    (n i : ℕ) (cs : Nodes) → i + length (case_positions cs) ≡ n → All (Placed n) (swap_shapes i cs)
swap_shapes-Placed n i nil h = tt
swap_shapes-Placed n i (cons c nil) h = tt
swap_shapes-Placed n i (cons c (cons d cs)) h =
    All-append (Placed n) _ (swap_shapes (i + 1) (cons d cs)) (one (node_text c == node_text d))
      (swap_shapes-Placed n (i + 1) (cons d cs) (omega arith))
  where
    one : (same : Bool) → All (Placed n) (if same then [] else swaps (clause_label d) i ∷ [])
    one true = tt
    one false = (omega arith, tt)

pub fill-IsPlaced :
    (n : ℕ) (ss : List Shape) (rest : List ℕ) → All (Placed n) ss → All (IsPlaced n) (fill ss rest)
fill-IsPlaced n [] rest a = tt
fill-IsPlaced n (s ∷ ss) [] a = tt
fill-IsPlaced n (drops k ∷ ss) (id ∷ rest) (h, a) = (h, fill-IsPlaced n ss rest a)
fill-IsPlaced n (swaps label k ∷ ss) (id ∷ rest) (h, a) = (h, fill-IsPlaced n ss rest a)

abbrev pub dropped : List Shape → List ℕ
dropped [] = []
dropped (drops k ∷ ss) = k ∷ dropped ss
dropped (swaps label k ∷ ss) = dropped ss

pub dropped-swap_shapes : (i : ℕ) (cs : Nodes) → dropped (swap_shapes i cs) ≡ []
dropped-swap_shapes i nil = refl
dropped-swap_shapes i (cons c nil) = refl
dropped-swap_shapes i (cons c (cons d cs)) =
    elim (Bool-cases (text_beq (node_text c) (node_text d))) [
      | inl b ↦ rw b (dropped-swap_shapes (i + 1) (cons d cs))
      | inr b ↦ rw b (dropped-swap_shapes (i + 1) (cons d cs))
    ]

pub dropped-append : (ss ts : List Shape) → dropped (ss ++ ts) ≡ dropped ss ++ dropped ts
dropped-append [] ts = refl
dropped-append (drops k ∷ ss) ts = ap (λ r. k ∷ r) (dropped-append ss ts)
dropped-append (swaps label k ∷ ss) ts = dropped-append ss ts

pub dropped_clauses-fill :
    (ss : List Shape) (rest : List ℕ)
    → length ss ≡ length rest
    → dropped_clauses (fill ss rest) ≡ dropped ss
dropped_clauses-fill [] rest h = refl
dropped_clauses-fill (s ∷ ss) [] h = ground arith
dropped_clauses-fill (drops k ∷ ss) (id ∷ rest) h =
    ap (λ r. k ∷ r) (dropped_clauses-fill ss rest (omega arith))
dropped_clauses-fill (swaps label k ∷ ss) (id ∷ rest) h = dropped_clauses-fill ss rest (omega arith)

nat_beq-below : (j i : ℕ) → j < i → nat_beq i j ≡ false
nat_beq-below j i h = ground arith

dropped-below :
    (i j : ℕ) (b : Bool) (cs : Nodes) → j < i → contains (dropped (drop_shapes i b cs)) j ≡ false
dropped-below i j b nil h = refl
dropped-below i j b (cons c cs) h =
    elim (Bool-cases (is_default c || is_empty_body c && not b && is_nil cs)) [
      | inl e ↦ rw e (dropped-below (i + 1) j b cs (omega arith))
      | inr e ↦ rw (e, nat_beq-below j i h) (dropped-below (i + 1) j b cs (omega arith))
    ]

pub dropped-Distinct : (i : ℕ) (b : Bool) (cs : Nodes) → Distinct (dropped (drop_shapes i b cs))
dropped-Distinct i b nil = tt
dropped-Distinct i b (cons c cs) =
    elim (Bool-cases (is_default c || is_empty_body c && not b && is_nil cs)) [
      | inl e ↦ rw e (dropped-Distinct (i + 1) b cs)
      | inr e ↦ rw e (dropped-below (i + 1) i b cs (omega arith), dropped-Distinct (i + 1) b cs)
    ]
