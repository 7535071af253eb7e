-- ===== src/Operators/Find/Statements.antt =====
-- internal/operators: the candidates on statements, calls and indices (call_delete.go, chan_op.go,
-- compound_assign.go, incdec.go, slice_index.go, slice_range.go).
use kanly.Base.{
  ℕ, Bool, true, false, Text, codes, List, [], ◌∷◌, ◌++◌, Option, none, some, nat_eq, text_eq,
  contains, if◌then◌else◌,
}
use kanly.Operators.Binary.{token_string, add, sub, mul, quo, rem, and, or, xor, shl, shr, and_not}
use kanly.Operators.Tree.{
  Meta, Node, no_node, node, nil, cons, node_id, node_text, inspect, unparen, ident, selector_expr,
  index_expr, index_list_expr, call_expr, unary_expr, arrow, slice_expr, expr_stmt, send_stmt,
  inc_dec_stmt, IncDecToken, inc, dec, assign_stmt, AssignToken, assign, define, op_assign,
  comm_clause, value_spec,
}
use kanly.Operators.Types.{chan, GoType, type_param, underlying, Info, type_of}
use kanly.Operators.Check.{int_operands, int_operand, is_builtin_named}
use kanly.Operators.Find.{Candidate, new_candidate}

abbrev inc_dec_text : IncDecToken → Text
inc_dec_text inc = codes "++"
inc_dec_text dec = codes "--"

unfoldable pub inc_dec_sibling : IncDecToken → IncDecToken
inc_dec_sibling inc = dec
inc_dec_sibling dec = inc

abbrev assign_text : AssignToken → Text
assign_text assign = codes "="
assign_text define = codes ":="
assign_text (op_assign op) = token_string op ++ codes "="

unfoldable pub compound_sibling : AssignToken → Option AssignToken
compound_sibling (op_assign add) = some (op_assign sub)
compound_sibling (op_assign sub) = some (op_assign add)
compound_sibling (op_assign mul) = some (op_assign quo)
compound_sibling (op_assign quo) = some (op_assign mul)
compound_sibling (op_assign rem) = some (op_assign mul)
compound_sibling (op_assign and) = some (op_assign or)
compound_sibling (op_assign or) = some (op_assign and)
compound_sibling (op_assign xor) = some (op_assign and)
compound_sibling (op_assign shl) = some (op_assign shr)
compound_sibling (op_assign shr) = some (op_assign shl)
compound_sibling (op_assign and_not) = some (op_assign and)
compound_sibling _ = none

abbrev ident_name : Node → Option Text
ident_name (node m (ident name) xs ys) = some name
ident_name _ = none

abbrev name_or_call : Option Text → Text
name_or_call (some name) = name
name_or_call none = codes "call"

abbrev name_of_ident : Node → Text
name_of_ident x = name_or_call (ident_name x)

abbrev dotted : Option Text → Text → Text
dotted (some x) sel = x ++ codes "." ++ sel
dotted none sel = sel

-- `calleeName`, of the function that the call names.
unfoldable pub callee_name : Node → Text
callee_name (node m (ident name) xs ys) = name
callee_name (node m selector_expr (cons x nil) (cons sel nil)) =
    dotted (ident_name x) (name_of_ident sel)
callee_name (node m index_expr (cons x nil) ys) = name_of_ident x
callee_name (node m index_list_expr (cons x nil) ys) = name_of_ident x
callee_name _ = codes "call"

-- `markCommOp`: the send or receive that a select case communicates with.
unfoldable pub mark_comm_op : Node → List ℕ
mark_comm_op (node m send_stmt xs ys) = m.id ∷ []
mark_comm_op (node m expr_stmt (cons x nil) ys) = node_id (unparen x) ∷ []
mark_comm_op (node m (assign_stmt tok) lhs (cons x nil)) = node_id (unparen x) ∷ []
mark_comm_op _ = []

-- What the first walk of `ChanOp.Find` marks.
unfoldable pub skipped_at : Node → List ℕ
unfolding mark_comm_op
skipped_at (node m comm_clause (cons comm nil) body) = mark_comm_op comm
skipped_at (node m (assign_stmt tok) (cons a (cons b nil)) (cons x nil)) = node_id (unparen x) ∷ []
skipped_at (node m value_spec (cons a (cons b nil)) (cons t (cons x nil))) =
    node_id (unparen x) ∷ []
skipped_at _ = []

unfoldable pub skip : Node → List ℕ
unfolding inspect skipped_at
skip file = inspect (λ stack n. skipped_at n) file

module _ (info : Info) where
  unfoldable pub call_delete_at : Node → List Candidate
  unfolding callee_name
  call_delete_at (node m expr_stmt (cons (node c call_expr (cons fun nil) args) nil) nil) =
      if is_builtin_named info
        (codes "panic" ∷ codes "print" ∷ codes "println" ∷ codes "recover" ∷ []) fun
      then []
      else new_candidate c.id c.pos (callee_name fun ++ codes "(...)") [] ∷ []
  call_delete_at _ = []

  -- `recvInferable`: the type is a channel type and no type parameter.
  abbrev is_chan : GoType → Bool
  is_chan (type_param n u) = false
  is_chan t = elim (underlying t) [ chan ↦ true | _ ↦ false ]

  unfoldable pub recv_inferable : Node → Bool
  recv_inferable ch = elim (type_of info ch) [ none ↦ false | some t ↦ is_chan t ]

  abbrev pub unless_skipped : List ℕ → ℕ → List Candidate → List Candidate
  unless_skipped skipped id cands = if contains skipped id then [] else cands

  unfoldable pub chan_op_at : List ℕ → Node → List Candidate
  chan_op_at skipped (node m (unary_expr arrow) (cons ch nil) nil) = unless_skipped skipped m.id (
      if recv_inferable ch
      then new_candidate m.id m.op_pos (codes "<-" ++ node_text ch) (codes "zero") ∷ []
      else [])
  chan_op_at skipped (node m send_stmt (cons ch nil) (cons x nil)) =
      unless_skipped skipped m.id
        (new_candidate m.id m.op_pos (node_text ch ++ codes " <- ...") [] ∷ [])
  chan_op_at skipped _ = []

  unfoldable pub inc_dec_at : Node → List Candidate
  unfolding inc_dec_sibling
  inc_dec_at (node m (inc_dec_stmt tok) (cons x nil) nil) =
      if int_operand info x
      then new_candidate m.id m.op_pos (inc_dec_text tok) (inc_dec_text (inc_dec_sibling tok)) ∷ []
      else []
  inc_dec_at _ = []

  abbrev pub reassigned : Meta → AssignToken → Option AssignToken → Bool → List Candidate
  reassigned m tok (some mut_tok) true =
      new_candidate m.id m.op_pos (assign_text tok) (assign_text mut_tok) ∷ []
  reassigned m tok _ _ = []

  unfoldable pub int_compound_assign_at : Node → List Candidate
  unfolding compound_sibling
  int_compound_assign_at (node m (assign_stmt tok) (cons x nil) (cons y nil)) =
      reassigned m tok (compound_sibling tok) (int_operands info x y)
  int_compound_assign_at _ = []

  unfoldable pub slice_index_at : Node → List Candidate
  slice_index_at (node m index_expr (cons x nil) (cons index nil)) =
      if int_operand info index
      then new_candidate m.id m.op_pos (codes "i") (codes "+1")
        ∷ new_candidate m.id m.op_pos (codes "i") (codes "-1")
        ∷ []
      else []
  slice_index_at _ = []

  abbrev bound : Text → Node → List Candidate
  bound which no_node = []
  bound which (node m k xs ys) =
      if int_operand info (node m k xs ys)
      then new_candidate m.id m.pos which (codes "+1")
        ∷ new_candidate m.id m.pos which (codes "-1")
        ∷ []
      else []

  unfoldable pub slice_range_at : Node → List Candidate
  slice_range_at (node m slice_expr (cons x nil) (cons low (cons high (cons max nil)))) =
      bound (codes "lo") low ++ (bound (codes "hi") high ++ bound (codes "max") max)
  slice_range_at _ = []
