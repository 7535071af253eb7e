-- ===== src/Operators/Find/Conflicts/Shapes.antt =====
-- internal/operators: what the operators on statements, calls, literals and switches find, beside the
-- dispatcher of a node.
use kanly.Base.{
  ℕ, ◌≡◌, Bool, true, false, Text, codes, List, [], ◌∷◌, ◌++◌, Option, none, some, nat_eq, text_eq,
  map,
}
use kanly.Base.Int.{ℤ}
use kanly.Operators.IntLiteral.{Kind, int_lit_mutants}
use kanly.Operators.Tree.{
  Meta, Node, node, Nodes, nil, cons, node_id, node_text, ident, basic_lit, string_lit, int_lit,
  unary_expr, arrow, call_expr, index_expr, expr_stmt, send_stmt, inc_dec_stmt, assign_stmt,
  AssignToken, switch_stmt, block_stmt,
}
use kanly.Operators.Types.{GoType, Info}
use kanly.Operators.Find.{new_candidate}
use kanly.Operators.Find.Statements.{
  call_delete_at, callee_name, chan_op_at, inc_dec_at, int_compound_assign_at, reassigned,
  slice_index_at, compound_sibling,
}
use kanly.Operators.Find.Switch.{switch_case_at, drop_candidates, swap_candidates, has_default}
use kanly.Operators.Find.Literals.{
  string_literal_at, int_literal_at, int_lit_candidates, int_lit_candidate, of_kind, typed_kind,
  bool_literal_at, flipped, bool_lit_type,
}
use kanly.Operators.Find.Keys.{node_key, Called}
use kanly.Operators.Find.Conflicts.{
  Keyed, guarded-Keyed, unless-Keyed, empty-Keyed, one-Keyed, two-Keyed, append-Keyed,
}

module _ (info : Info) (key_at : ℕ → Text) where
  pub call_delete-Keyed :
      (n : Node)
      → Called (λ c. key_at (node_id c) ≡ node_key info c) n
      → Keyed key_at (codes "call_delete") (call_delete_at info n)
  unfolding call_delete_at
  call_delete-Keyed (node m expr_stmt (cons (node c call_expr (cons fun nil) args) nil) nil) q =
      unless-Keyed key_at _ _ (new_candidate c.id c.pos (callee_name fun ++ codes "(...)") [] ∷ [])
        (one-Keyed q)
  call_delete-Keyed _ q = empty-Keyed

  pub chan_op-Keyed :
      (skipped : List ℕ) (n : Node)
      → key_at (node_id n) ≡ node_key info n
      → Keyed key_at (codes "chan_op") (chan_op_at info skipped n)
  unfolding chan_op_at
  chan_op-Keyed skipped (node m (unary_expr arrow) (cons ch nil) nil) q =
      unless-Keyed key_at _ _ _ (
        guarded-Keyed key_at _ _
          (new_candidate m.id m.op_pos (codes "<-" ++ node_text ch) (codes "zero") ∷ [])
          (one-Keyed q))
  chan_op-Keyed skipped (node m send_stmt (cons ch nil) (cons x nil)) q =
      unless-Keyed key_at _ _
        (new_candidate m.id m.op_pos (node_text ch ++ codes " <- ...") [] ∷ []) (one-Keyed q)
  chan_op-Keyed skipped _ q = empty-Keyed

  pub inc_dec-Keyed :
      (n : Node)
      → key_at (node_id n) ≡ node_key info n
      → Keyed key_at (codes "stmt_swap") (inc_dec_at info n)
  unfolding inc_dec_at
  inc_dec-Keyed (node m (inc_dec_stmt tok) (cons x nil) nil) q =
      guarded-Keyed key_at _ _ _ (one-Keyed q)
  inc_dec-Keyed _ q = empty-Keyed

  reassigned-Keyed :
      (m : Meta) (tok : AssignToken) (o : Option AssignToken) (ok : Bool)
      → key_at m.id ≡ codes "stmt_swap"
      → Keyed key_at (codes "stmt_swap") (reassigned info m tok o ok)
  reassigned-Keyed m tok (some mut_tok) true q = (one-Keyed q)
  reassigned-Keyed m tok none ok q = empty-Keyed
  reassigned-Keyed m tok (some mut_tok) false q = empty-Keyed

  pub int_compound_assign-Keyed :
      (n : Node)
      → key_at (node_id n) ≡ node_key info n
      → Keyed key_at (codes "stmt_swap") (int_compound_assign_at info n)
  unfolding int_compound_assign_at
  int_compound_assign-Keyed (node m (assign_stmt tok) (cons x nil) (cons y nil)) q =
      reassigned-Keyed m tok (compound_sibling tok) _ q
  int_compound_assign-Keyed _ q = empty-Keyed

  pub slice_index-Keyed :
      (n : Node)
      → key_at (node_id n) ≡ node_key info n
      → Keyed key_at (codes "slice_index") (slice_index_at info n)
  unfolding slice_index_at
  slice_index-Keyed (node m index_expr (cons x nil) (cons index nil)) q =
      guarded-Keyed key_at _ _ _ (two-Keyed q q)
  slice_index-Keyed _ q = empty-Keyed

  pub string_literal-Keyed :
      (stack : List Node) (n : Node)
      → key_at (node_id n) ≡ node_key info n
      → Keyed key_at (codes "string_literal") (string_literal_at info stack n)
  unfolding string_literal_at
  string_literal-Keyed stack (node m (basic_lit string_lit v n) xs ys) q =
      guarded-Keyed key_at _ _ _ (one-Keyed q)
  string_literal-Keyed stack _ q = empty-Keyed

  mutants-Keyed :
      (m : Meta) (v : Text) (t : GoType) (mutants : List Text)
      → key_at m.id ≡ codes "int_literal"
      → Keyed key_at (codes "int_literal") (map (int_lit_candidate info m v t) mutants)
  mutants-Keyed m v t [] q = empty-Keyed
  mutants-Keyed m v t (u ∷ us) q = append-Keyed (one-Keyed q) (mutants-Keyed m v t us q)

  of_kind-Keyed :
      (m : Meta) (v : Text) (n : ℤ) (t : GoType) (o : Option Kind)
      → key_at m.id ≡ codes "int_literal"
      → Keyed key_at (codes "int_literal") (of_kind info m v n t o)
  of_kind-Keyed m v n t none q = empty-Keyed
  of_kind-Keyed m v n t (some k) q = mutants-Keyed m v t (int_lit_mutants n k) q

  int_lit-Keyed :
      (m : Meta) (v : Text) (n : Option ℤ) (t : Option GoType)
      → key_at m.id ≡ codes "int_literal"
      → Keyed key_at (codes "int_literal") (int_lit_candidates info m v n t)
  int_lit-Keyed m v (some n) (some t) q = of_kind-Keyed m v n t (typed_kind info t) q
  int_lit-Keyed m v none t q = empty-Keyed
  int_lit-Keyed m v (some n) none q = empty-Keyed

  pub int_literal-Keyed :
      (stack : List Node) (n : Node)
      → key_at (node_id n) ≡ node_key info n
      → Keyed key_at (codes "int_literal") (int_literal_at info stack n)
  unfolding int_literal_at
  int_literal-Keyed stack (node m (basic_lit int_lit v n) xs ys) q =
      guarded-Keyed key_at _ _ _ (int_lit-Keyed m v n _ q)
  int_literal-Keyed stack _ q = empty-Keyed

  flipped-Keyed :
      (m : Meta) (name : Text) (o : Option GoType)
      → key_at m.id ≡ codes "bool_literal"
      → Keyed key_at (codes "bool_literal") (flipped info m name o)
  flipped-Keyed m name none q = empty-Keyed
  flipped-Keyed m name (some t) q = (one-Keyed q)

  pub bool_literal-Keyed :
      (stack : List Node) (n : Node)
      → key_at (node_id n) ≡ node_key info n
      → Keyed key_at (codes "bool_literal") (bool_literal_at info stack n)
  unfolding bool_literal_at
  bool_literal-Keyed stack (node m (ident name) xs ys) q =
      guarded-Keyed key_at _ _ _ (flipped-Keyed m name (bool_lit_type info m.id) q)
  bool_literal-Keyed stack _ q = empty-Keyed

  drop_candidates-Keyed :
      (s : ℕ) (b : Bool) (cs : Nodes)
      → key_at s ≡ codes "switch_case"
      → Keyed key_at (codes "switch_case") (drop_candidates s b cs)
  unfolding drop_candidates
  drop_candidates-Keyed s b nil q = empty-Keyed
  drop_candidates-Keyed s b (cons c cs) q =
      append-Keyed (unless-Keyed key_at _ _ _ (one-Keyed q)) (drop_candidates-Keyed s b cs q)

  swap_candidates-Keyed :
      (s : ℕ) (cs : Nodes)
      → key_at s ≡ codes "switch_case"
      → Keyed key_at (codes "switch_case") (swap_candidates s cs)
  unfolding swap_candidates
  swap_candidates-Keyed s nil q = empty-Keyed
  swap_candidates-Keyed s (cons c nil) q = empty-Keyed
  swap_candidates-Keyed s (cons c (cons d cs)) q =
      append-Keyed (unless-Keyed key_at _ _ _ (one-Keyed q)) (swap_candidates-Keyed s (cons d cs) q)

  pub switch_case-Keyed :
      (n : Node)
      → key_at (node_id n) ≡ node_key info n
      → Keyed key_at (codes "switch_case") (switch_case_at info n)
  unfolding switch_case_at
  switch_case-Keyed
        (node m switch_stmt (cons init (cons tag nil)) (cons (node b block_stmt clauses nil) nil))
        q =
      unless-Keyed key_at _ _ _ (
        append-Keyed (drop_candidates-Keyed m.id (has_default clauses) clauses q)
          (swap_candidates-Keyed m.id clauses q))
  switch_case-Keyed _ q = empty-Keyed
