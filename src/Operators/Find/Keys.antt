-- ===== src/Operators/Find/Keys.antt =====
-- internal/operators: which dispatcher a node has by its shape and the type of its operand.
use kanly.Base.{
  ℕ, ◌≡◌, Bool, false, Text, codes, List, [], ◌∷◌, ◌++◌, ◌==◌, nat_eq, map, All, Distinct, contains,
  arith, if◌then◌else◌,
}
use kanly.Operators.Binary.{Token, add, sub, mul, quo, rem, lss, leq, gtr, geq, eql, neq, land, lor}
use kanly.Operators.Tree.{
  Meta, NodeKind, Node, no_node, node, Nodes, nil, cons, node_id, walk, walk_all, concat_map, ident,
  basic_lit, string_lit, int_lit, binary_expr, unary_expr, not_op, arrow, call_expr, index_expr,
  expr_stmt, send_stmt, inc_dec_stmt, assign_stmt, switch_stmt,
}
use kanly.Operators.Types.{Info, type_and_value}
use kanly.Operators.Check.{is_float_type}

abbrev pub binary_key : Token → Bool → Text
binary_key add float = if float then codes "float_arith" else codes "int_arith"
binary_key sub float = if float then codes "float_arith" else codes "int_arith"
binary_key mul float = if float then codes "float_arith" else codes "int_arith"
binary_key quo float = if float then codes "float_arith" else codes "int_arith"
binary_key rem float = codes "int_arith"
binary_key land float = codes "bool_logic"
binary_key lor float = codes "bool_logic"
binary_key lss float = if float then codes "float_cmp" else codes "int_cmp"
binary_key leq float = if float then codes "float_cmp" else codes "int_cmp"
binary_key gtr float = if float then codes "float_cmp" else codes "int_cmp"
binary_key geq float = if float then codes "float_cmp" else codes "int_cmp"
binary_key eql float = if float then codes "float_cmp" else codes "int_cmp"
binary_key neq float = if float then codes "float_cmp" else codes "int_cmp"
binary_key _ float = codes "int_bitwise"

abbrev pub nodes_of : List (List Node × Node) → List Node
nodes_of = map (λ (stack, n). n)

-- The nodes of a file, as `ast.Inspect` visits them.
unfoldable pub nodes : Node → List Node
unfolding walk
nodes file = nodes_of (walk [] file)

module _ (info : Info) where
  abbrev pub is_float_operand : Node → Bool
  is_float_operand x = is_float_type (type_and_value (info.types (node_id x))).go_type

  -- The one dispatcher whose operators rewrite the node by its shape, empty where none does.
  abbrev pub node_key : Node → Text
  node_key (node m (binary_expr op) (cons x nil) ys) = binary_key op (is_float_operand x)
  node_key (node m (unary_expr not_op) xs ys) = codes "bool_not"
  node_key (node m (unary_expr arrow) xs ys) = codes "chan_op"
  node_key (node m send_stmt xs ys) = codes "chan_op"
  node_key (node m call_expr xs ys) = codes "call_delete"
  node_key (node m (basic_lit string_lit v n) xs ys) = codes "string_literal"
  node_key (node m (basic_lit int_lit v n) xs ys) = codes "int_literal"
  node_key (node m (ident name) xs ys) = codes "bool_literal"
  node_key (node m index_expr xs ys) = codes "slice_index"
  node_key (node m (inc_dec_stmt tok) xs ys) = codes "stmt_swap"
  node_key (node m (assign_stmt tok) xs ys) = codes "stmt_swap"
  node_key (node m switch_stmt xs ys) = codes "switch_case"
  node_key _ = []

  -- The dispatcher of the node that a pointer points to.
  unfoldable pub key_in : List Node → ℕ → Text
  key_in [] id = []
  key_in (n ∷ ns) id = if node_id n == id then node_key n else key_in ns id

  past_first :
      (n : Node) (all ns : List Node)
      → contains (map node_id ns) (node_id n) ≡ false
      → All (λ x. key_in all (node_id x) ≡ node_key x) ns
      → All (λ x. key_in (n ∷ all) (node_id x) ≡ node_key x) ns
  unfolding key_in
  past_first n all [] h a = tt
  past_first n all (x ∷ ns) h (e, a) = (ground arith, past_first n all ns (ground arith) a)

  pub key_in-node_key :
      (ns : List Node)
      → Distinct (map node_id ns)
      → All (λ n. key_in ns (node_id n) ≡ node_key n) ns
  unfolding key_in
  key_in-node_key [] d = tt
  key_in-node_key (n ∷ ns) (f, d) = (ground arith, past_first n ns ns f (key_in-node_key ns d))

module _ {A : Type 0} (P : A → Type 0) where
  pub All-append : (xs ys : List A) → All P xs → All P ys → All P (xs ++ ys)
  All-append [] ys a b = b
  All-append (x ∷ xs) ys (p, a) b = (p, All-append xs ys a b)

  All-left : (xs ys : List A) → All P (xs ++ ys) → All P xs
  All-left [] ys a = tt
  All-left (x ∷ xs) ys (p, a) = (p, All-left xs ys a)

  All-right : (xs ys : List A) → All P (xs ++ ys) → All P ys
  All-right [] ys a = a
  All-right (x ∷ xs) ys (p, a) = All-right xs ys a

pub All-nodes_of :
    (Q : Node → Type 0) (vs : List (List Node × Node))
    → All Q (nodes_of vs)
    → All (λ (v : List Node × Node). Q v.1) vs
All-nodes_of Q [] a = tt
All-nodes_of Q (v ∷ vs) (p, a) = (p, All-nodes_of Q vs a)

pub All-concat_map :
    {A B : Type 0} (P : A → Type 0) (R : B → Type 0) (f : A → List B) (xs : List A)
    → ((x : A) → P x → All R (f x))
    → All P xs
    → All R (concat_map f xs)
All-concat_map P R f [] h a = tt
All-concat_map P R f (x ∷ xs) h (p, a) =
    All-append R (f x) (concat_map f xs) (h x p) (All-concat_map P R f xs h a)

-- The call of an expression statement has the property.
abbrev pub Called : (Node → Type 0) → Node → Type 0
Called Q (node m expr_stmt (cons (node c call_expr fun args) nil) nil) =
    Q (node c call_expr fun args)
Called Q _ = Unit {0}

abbrev pub Seen : (Node → Type 0) → List Node × Node → Type 0
Seen Q (stack, n) = Q n × Called Q n

-- With every visited node, its call is visited too.
module _ (Q : Node → Type 0) where
  called :
      (m : Meta) (k : NodeKind) (xs ys : Nodes) (stack : List Node)
      → All (λ (v : List Node × Node). Q v.1) (walk_all stack xs)
      → Called Q (node m k xs ys)
  unfolding walk
  called m expr_stmt (cons (node c call_expr fun args) nil) nil stack (q, a) = q
  called m k xs ys stack a = tt

  mutual
    unfolding walk

    pub walk-Called :
        (stack : List Node) (n : Node)
        → All (λ (v : List Node × Node). Q v.1) (walk stack n)
        → All (Seen Q) (walk stack n)
    walk-Called stack no_node a = tt
    walk-Called stack (node m k xs ys) (q, a) =
        let stack' = node m k xs ys ∷ stack in
        let left = All-left _ (walk_all stack' xs) (walk_all stack' ys) a in
        let right = All-right _ (walk_all stack' xs) (walk_all stack' ys) a in
        (
          (q, called m k xs ys stack' left),
          All-append (Seen Q) (walk_all stack' xs) (walk_all stack' ys)
              (walk_all-Called stack' xs left) (walk_all-Called stack' ys right),
        )

    walk_all-Called :
        (stack : List Node) (ns : Nodes)
        → All (λ (v : List Node × Node). Q v.1) (walk_all stack ns)
        → All (Seen Q) (walk_all stack ns)
    walk_all-Called stack nil a = tt
    walk_all-Called stack (cons n ns) a =
        All-append (Seen Q) (walk stack n) (walk_all stack ns)
          (walk-Called stack n (All-left _ (walk stack n) (walk_all stack ns) a))
          (walk_all-Called stack ns (All-right _ (walk stack n) (walk_all stack ns) a))
