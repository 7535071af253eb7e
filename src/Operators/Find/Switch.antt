-- ===== src/Operators/Find/Switch.antt =====
-- internal/operators/switch_case.go: the mutants of an expression switch.
pub mod Mutants
pub mod Placed
pub mod Rewritten
pub mod Tests
use kanly.Base.{
  ℕ, ◌+◌, ◌/◌, Bool, true, false, not, ◌&&◌, ◌||◌, Text, codes, List, [], ◌∷◌, ◌++◌, leb, ◌==◌,
  nat_eq, text_eq, if◌then◌else◌, zero, suc,
}
use kanly.Base.Strings.{join}
use kanly.Operators.Tree.{
  Node, no_node, node, Nodes, nil, cons, node_text, switch_stmt, block_stmt, case_clause,
}
use kanly.Operators.Types.{Info}
use kanly.Operators.Check.{contains_recover}
use kanly.Operators.SwitchCase.{switch_swap_mutant}
use kanly.Operators.Find.{Candidate, new_candidate}

-- The bytes before the rune with the number; a byte 10xxxxxx continues a rune.
abbrev take_runes : ℕ → Text → Text
take_runes n [] = []
take_runes n (c ∷ s) = elim (c / 64 == 2) [
  | true ↦ c ∷ take_runes n s
  | false ↦ elim n [ zero ↦ [] | suc n' ↦ c ∷ take_runes n' s ]
]

abbrev rune_count : Text → ℕ
rune_count [] = 0
rune_count (c ∷ s) = (if c / 64 == 2 then 0 else 1) + rune_count s

abbrev node_texts : Nodes → List Text
node_texts nil = []
node_texts (cons n ns) = node_text n ∷ node_texts ns

-- The UTF-8 bytes of `…`.
abbrev ellipsis : Text
ellipsis = 226 ∷ 128 ∷ 166 ∷ []

abbrev shortened : Text → Text
shortened label = if leb (rune_count label) 40 then label else take_runes 39 label ++ ellipsis

-- `clauseLabel`.
unfoldable pub clause_label : Node → Text
unfolding join
clause_label (node m case_clause nil body) = codes "default"
clause_label (node m case_clause exprs body) =
    shortened (codes "case " ++ join (codes ", ") (node_texts exprs))
clause_label _ = []

abbrev pub is_default : Node → Bool
is_default (node m case_clause nil body) = true
is_default _ = false

abbrev pub has_default : Nodes → Bool
has_default nil = false
has_default (cons c cs) = is_default c || has_default cs

abbrev pub is_empty_body : Node → Bool
is_empty_body (node m case_clause exprs nil) = true
is_empty_body _ = false

abbrev pub is_nil : Nodes → Bool
is_nil nil = true
is_nil (cons n ns) = false

-- The position of a clause's keyword.
abbrev pub case_pos : Node → ℕ
case_pos no_node = 0
case_pos (node m k xs ys) = m.op_pos

abbrev pub drop_candidate : ℕ → Bool → Node → Nodes → List Candidate
drop_candidate s with_default c rest =
    if is_default c || is_empty_body c && not with_default && is_nil rest
    then []
    else new_candidate s (case_pos c) (clause_label c) [] ∷ []

-- A drop for each clause but the default, except an empty last one where no default would run.
unfoldable pub drop_candidates : ℕ → Bool → Nodes → List Candidate
unfolding clause_label
drop_candidates s with_default nil = []
drop_candidates s with_default (cons c cs) =
    drop_candidate s with_default c cs ++ drop_candidates s with_default cs

-- A swap for each two neighbours whose bodies print differently.
unfoldable pub swap_candidates : ℕ → Nodes → List Candidate
unfolding clause_label
swap_candidates s (cons c (cons d cs)) =
    (if node_text c == node_text d
      then []
      else new_candidate s (case_pos c) (clause_label c) (switch_swap_mutant ++ clause_label d)
        ∷ [])
    ++ swap_candidates s (cons d cs)
swap_candidates s _ = []

module _ (info : Info) where
  abbrev any_recover : Nodes → Bool
  any_recover nil = false
  any_recover (cons e es) = contains_recover info e || any_recover es

  abbrev clause_exprs : Node → Nodes
  clause_exprs (node m case_clause exprs body) = exprs
  clause_exprs _ = nil

  abbrev pub clauses_recover : Nodes → Bool
  clauses_recover nil = false
  clauses_recover (cons c cs) = any_recover (clause_exprs c) || clauses_recover cs

  unfoldable pub switch_case_at : Node → List Candidate
  unfolding drop_candidates swap_candidates
  switch_case_at
        (node m switch_stmt (cons init (cons tag nil)) (cons (node b block_stmt clauses nil) nil)) =
      if contains_recover info tag || clauses_recover clauses
      then []
      else drop_candidates m.id (has_default clauses) clauses ++ swap_candidates m.id clauses
  switch_case_at _ = []
