-- ===== src/Operators/Tree.antt =====
-- internal/operators: the parts of go/ast that the operators read, and the walk of `ast.Inspect`. A node
-- has its dynamic type with the fields that are no nodes, and its child nodes in the order of
-- `ast.Walk`, in two lists: one where the source has one, `[X]` and `[Y]` of a binary expression, `Lhs`
-- and `Rhs` of an assignment, `[Fun]` and `Args` of a call.
use kanly.Base.{ℕ, ◌+◌, Bool, Text, List, [], ◌∷◌, ◌++◌, Option, nat_eq}
use kanly.Base.Int.{ℤ}
use kanly.Operators.Binary.{Token}

-- The pointer to a node, its `Pos`, and the position of its operator or keyword (`OpPos`, `TokPos`,
-- `Lbrack`, `Arrow`, `Case`). `text` is what `types.ExprString` prints of an expression, and
-- of a clause what go/printer prints of its body.
pub record Meta : Type 0 where
  pub id : ℕ
  pub pos : ℕ
  pub op_pos : ℕ
  pub text : Text

pub data LitKind : Type 0 where
  int_lit string_lit other_lit : LitKind

pub data UnaryToken : Type 0 where
  not_op arrow address other_unary : UnaryToken

pub data IncDecToken : Type 0 where
  inc dec : IncDecToken

-- `op_assign add` is `+=`.
pub data AssignToken : Type 0 where
  assign define : AssignToken
  op_assign : Token → AssignToken

pub data NodeKind : Type 0 where
  ident : Text → NodeKind
  -- With what `strconv.ParseInt` reads, where it reads a number.
  basic_lit : LitKind → Text → Option ℤ → NodeKind
  binary_expr : Token → NodeKind
  unary_expr : UnaryToken → NodeKind
  paren_expr selector_expr call_expr index_expr index_list_expr star_expr : NodeKind
  type_assert_expr slice_expr key_value_expr composite_lit func_lit array_type : NodeKind
  other_expr : NodeKind
  expr_stmt send_stmt return_stmt switch_stmt block_stmt case_clause comm_clause : NodeKind
  inc_dec_stmt : IncDecToken → NodeKind
  assign_stmt : AssignToken → NodeKind
  -- Whether `Tok` is `token.CONST`.
  gen_decl : Bool → NodeKind
  import_spec value_spec ast_field func_decl other_node : NodeKind

-- `no_node` is nil.
mutual
  pub data Node : Type 0 where
    no_node : Node
    node : Meta → NodeKind → Nodes → Nodes → Node

  pub data Nodes : Type 0 where
    nil : Nodes
    cons : Node → Nodes → Nodes

abbrev pub node_id : Node → ℕ
node_id no_node = 0
node_id (node m k xs ys) = m.id

abbrev pub node_pos : Node → ℕ
node_pos no_node = 0
node_pos (node m k xs ys) = m.pos

abbrev pub node_text : Node → Text
node_text no_node = []
node_text (node m k xs ys) = m.text

-- The nodes on which `ast.Inspect` calls its function, each behind its ancestors, the innermost first.
unfoldable mutual
  pub walk : List Node → Node → List (List Node × Node)
  walk stack no_node = []
  walk stack (node m k xs ys) =
      let stack' = node m k xs ys ∷ stack in
      (stack, node m k xs ys) ∷ walk_all stack' xs ++ walk_all stack' ys

  pub walk_all : List Node → Nodes → List (List Node × Node)
  walk_all stack nil = []
  walk_all stack (cons n ns) = walk stack n ++ walk_all stack ns

abbrev pub concat_map : {A B : Type 0} → (A → List B) → List A → List B
concat_map f [] = []
concat_map f (x ∷ xs) = f x ++ concat_map f xs

-- The candidates that a function given to `ast.Inspect` appends.
unfoldable pub inspect : {B : Type 0} → (List Node → Node → List B) → Node → List B
unfolding walk
inspect f file = concat_map (λ (stack, n). f stack n) (walk [] file)

-- `ast.Unparen`.
abbrev pub unparen : Node → Node
unparen (node m paren_expr (cons x nil) nil) = unparen x
unparen n = n

abbrev pub count : Nodes → ℕ
count nil = 0
count (cons n ns) = 1 + count ns
