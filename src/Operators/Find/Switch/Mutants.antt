-- ===== src/Operators/Find/Switch/Mutants.antt =====
-- internal/operators/switch_case.go: from what `Find` returns on a switch to what `RewriteGroup` makes of
-- it.
use mathlib.Core.Path.{subst}
use mathlib.Core.List.{append_assoc}
use kanly.Base.{
  ℕ, suc, ◌+◌, ◌≡◌, refl, sym, ap, ap₂, ◌∙◌, Bool, true, false, not, ◌&&◌, ◌||◌, Text, List, [],
  ◌∷◌, ◌++◌, nat_eq, text_eq, ◌==◌, arith, length, length-append, if◌then◌else◌,
}
use kanly.Operators.Tree.{Nodes, nil, cons, node_text}
use kanly.Operators.SwitchCase
use kanly.Operators.SwitchCase.{switch_swap_mutant}
use kanly.Operators.SwitchCase.Collect.{Mutant, drop, swap, nth, candidate, candidates, ids}
use kanly.Operators.Find.{Candidate, new_candidate}
use kanly.Operators.Find.Switch.{
  is_default, is_empty_body, is_nil, case_pos, clause_label, drop_candidate, drop_candidates,
  swap_candidates,
}

abbrev pub case_positions : Nodes → List ℕ
case_positions nil = []
case_positions (cons c cs) = case_pos c ∷ case_positions cs

-- The candidates with their IDs, as `RewriteGroup` takes them.
abbrev pub numbered : List Candidate → List ℕ → List (kanly.Operators.SwitchCase.Candidate × ℕ)
numbered (c ∷ cs) (id ∷ rest) = (record { pos = c.pos; mutant = c.mutant }, id) ∷ numbered cs rest
numbered _ _ = []

-- A mutant before it has an ID.
pub data Shape : Type 0 where
  drops : ℕ → Shape
  swaps : Text → ℕ → Shape

abbrev with_id : Shape → ℕ → Mutant
with_id (drops k) id = drop k id
with_id (swaps label k) id = swap label k id

abbrev pub fill : List Shape → List ℕ → List Mutant
fill (s ∷ ss) (id ∷ rest) = with_id s id ∷ fill ss rest
fill _ _ = []

abbrev pos_of : List ℕ → Shape → ℕ
pos_of ps (drops k) = nth ps k
pos_of ps (swaps label k) = nth ps k

abbrev text_of : Shape → Text
text_of (drops k) = []
text_of (swaps label k) = switch_swap_mutant ++ label

abbrev pub Matches : List ℕ → List Candidate → List Shape → Type 0
Matches ps [] [] = Unit {0}
Matches ps (c ∷ cs) (s ∷ ss) = (c.pos ≡ pos_of ps s) × (c.mutant ≡ text_of s) × Matches ps cs ss
Matches ps _ _ = ⊥

pub Matches-append :
    (ps : List ℕ) (cs ds : List Candidate) (ss ts : List Shape)
    → Matches ps cs ss
    → Matches ps ds ts
    → Matches ps (cs ++ ds) (ss ++ ts)
Matches-append ps [] ds [] ts m n = n
Matches-append ps [] ds (s ∷ ss) ts m n = elim m [ ]
Matches-append ps (c ∷ cs) ds [] ts m n = elim m [ ]
Matches-append ps (c ∷ cs) ds (s ∷ ss) ts (p, t, m) n = (p, t, Matches-append ps cs ds ss ts m n)

with_id-candidate :
    (ps : List ℕ) (c : Candidate) (s : Shape) (id : ℕ)
    → c.pos ≡ pos_of ps s
    → c.mutant ≡ text_of s
    → (record { pos = c.pos; mutant = c.mutant }, id) ≡ candidate ps (with_id s id)
with_id-candidate ps c (drops k) id p t = rw (p, t) refl
with_id-candidate ps c (swaps label k) id p t = rw (p, t) refl

pub numbered-fill :
    (ps : List ℕ) (cs : List Candidate) (ss : List Shape) (rest : List ℕ)
    → Matches ps cs ss
    → numbered cs rest ≡ candidates ps (fill ss rest)
numbered-fill ps [] [] rest m = refl
numbered-fill ps [] (s ∷ ss) rest m = elim m [ ]
numbered-fill ps (c ∷ cs) [] rest m = elim m [ ]
numbered-fill ps (c ∷ cs) (s ∷ ss) [] m = refl
numbered-fill ps (c ∷ cs) (s ∷ ss) (id ∷ rest) (p, t, m) =
    ap₂ (λ x xs. x ∷ xs) (with_id-candidate ps c s id p t) (numbered-fill ps cs ss rest m)

pub length-Matches :
    (ps : List ℕ) (cs : List Candidate) (ss : List Shape) → Matches ps cs ss → length ss ≡ length cs
length-Matches ps [] [] m = refl
length-Matches ps [] (s ∷ ss) m = elim m [ ]
length-Matches ps (c ∷ cs) [] m = elim m [ ]
length-Matches ps (c ∷ cs) (s ∷ ss) (p, t, m) = ap suc (length-Matches ps cs ss m)

pub ids-fill :
    (ss : List Shape) (rest : List ℕ) → length ss ≡ length rest → ids (fill ss rest) ≡ rest
ids-fill [] [] h = refl
ids-fill [] (id ∷ rest) h = ground arith
ids-fill (s ∷ ss) [] h = refl
ids-fill (drops k ∷ ss) (id ∷ rest) h = ap (λ r. id ∷ r) (ids-fill ss rest (omega arith))
ids-fill (swaps label k ∷ ss) (id ∷ rest) h = ap (λ r. id ∷ r) (ids-fill ss rest (omega arith))

abbrev pub drop_shapes : ℕ → Bool → Nodes → List Shape
drop_shapes i with_default nil = []
drop_shapes i with_default (cons c cs) =
    (if is_default c || is_empty_body c && not with_default && is_nil cs then [] else drops i ∷ [])
    ++ drop_shapes (i + 1) with_default cs

abbrev pub swap_shapes : ℕ → Nodes → List Shape
swap_shapes i (cons c (cons d cs)) =
    (if node_text c == node_text d then [] else swaps (clause_label d) i ∷ [])
    ++ swap_shapes (i + 1) (cons d cs)
swap_shapes i _ = []

-- The clauses stand in the list of positions from an index on.
abbrev pub Stands : List ℕ → ℕ → Nodes → Type 0
Stands ps i nil = Unit {0}
Stands ps i (cons c cs) = (nth ps i ≡ case_pos c) × Stands ps (i + 1) cs

nth-append : (qs ps : List ℕ) (p : ℕ) → nth (qs ++ p ∷ ps) (length qs) ≡ p
nth-append [] ps p = refl
nth-append (q ∷ qs) ps p = nth-append qs ps p

pub all-Stands :
    (qs : List ℕ) (i : ℕ) (cs : Nodes) → i ≡ length qs → Stands (qs ++ case_positions cs) i cs
all-Stands qs i nil h = tt
all-Stands qs i (cons c cs) h = (
  ap (nth (qs ++ case_pos c ∷ case_positions cs)) h
      ∙ nth-append qs (case_positions cs) (case_pos c),
  subst (λ ps. Stands ps (i + 1) cs) (append_assoc qs (case_pos c ∷ []) (case_positions cs))
      (all-Stands (qs ++ case_pos c ∷ []) (i + 1) cs
        (omega (arith, h, length-append qs (case_pos c ∷ [])))),
)

module _ (ps : List ℕ) (s : ℕ) where
  pub drop-Matches :
      (i : ℕ) (b : Bool) (cs : Nodes)
      → Stands ps i cs
      → Matches ps (drop_candidates s b cs) (drop_shapes i b cs)
  unfolding drop_candidates
  drop-Matches i b nil h = tt
  drop-Matches i b (cons c cs) (p, h) =
      Matches-append ps (drop_candidate s b c cs) (drop_candidates s b cs) _
        (drop_shapes (i + 1) b cs) (one (is_default c || is_empty_body c && not b && is_nil cs))
        (drop-Matches (i + 1) b cs h)
    where
      one :
          (skipped : Bool)
          → Matches ps
              (if skipped then [] else new_candidate s (case_pos c) (clause_label c) [] ∷ [])
              (if skipped then [] else drops i ∷ [])
      one true = tt
      one false = (sym p, refl, tt)

  pub swap-Matches :
      (i : ℕ) (cs : Nodes) → Stands ps i cs → Matches ps (swap_candidates s cs) (swap_shapes i cs)
  unfolding swap_candidates
  swap-Matches i nil h = tt
  swap-Matches i (cons c nil) h = tt
  swap-Matches i (cons c (cons d cs)) (p, h) =
      Matches-append ps _ (swap_candidates s (cons d cs)) _ (swap_shapes (i + 1) (cons d cs))
        (one (node_text c == node_text d)) (swap-Matches (i + 1) (cons d cs) h)
    where
      one :
          (same : Bool)
          → Matches ps
              (if same
                then []
                else new_candidate s
                    (case_pos c)
                    (clause_label c)
                    (switch_swap_mutant ++ clause_label d)
                  ∷ [])
              (if same then [] else swaps (clause_label d) i ∷ [])
      one true = tt
      one false = (sym p, refl, tt)
