-- ===== src/Operators/Find/Conflicts.antt =====
-- internal/operators: what the shape-specific operators find, beside the dispatcher of a node.
pub mod Shapes
pub mod Registered
use kanly.Base.{
  ℕ, ◌≡◌, refl, sym, ap, ◌∙◌, Bool, true, false, not, ◌&&◌, ◌||◌, Text, codes, List, [], ◌∷◌, ◌++◌,
  Option, none, some, ◌==◌, nat_eq, text_eq, nat_beq, map, All, Distinct, contains, arith,
  if◌then◌else◌, Bool-cases, inl, inr,
}
use kanly.Base.Int.{ℤ}
use kanly.Operators.Binary.{
  Token, add, sub, mul, quo, rem, and, or, xor, shl, shr, and_not, lss, leq, gtr, geq, eql, neq,
  land, lor, sibling, bitwise_sibling, boundary_sibling, negate_map, bool_sibling,
}
use kanly.Operators.Tree.{
  Meta, Node, no_node, node, Nodes, nil, cons, node_id, walk, inspect, ident, basic_lit, string_lit,
  int_lit, binary_expr, unary_expr, not_op, arrow, call_expr, index_expr, expr_stmt, send_stmt,
  inc_dec_stmt, assign_stmt, switch_stmt,
}
use kanly.Operators.Types.{
  is_integer, is_float, integer, basic, underlying, Info, type_and_value, TypeAndValue, GoType,
  Basic, Underlying, basic_type, named, type_param, literal,
}
use kanly.Operators.Check.{
  is_float_type, is_integer_type, basic_with, int_values, int_operands, float_operands,
}
use kanly.Operators.Find.{
  Candidate, new_candidate, replaced, float_sibling, int_arith_at, int_bitwise_at,
  int_cmp_boundary_at, int_cmp_negate_at, float_arith_at, find_float_cmp, bool_logic_at,
  bool_not_at,
}
use kanly.Operators.Find.Keys.{binary_key, is_float_operand, node_key, key_in, Called, All-append}

abbrev pub is_found : {A : Type 0} → Option A → Bool
is_found none = false
is_found (some a) = true

-- Each candidate stands on a node of the dispatcher.
pub record Keyed (key_at : ℕ → Text) (key : Text) (cs : List Candidate) : Type 0 where
  pub keyed : All (λ c. key_at c.node_id ≡ key) cs

module _ {key_at : ℕ → Text} {key : Text} where
  pub empty-Keyed : Keyed key_at key []
  empty-Keyed = record { keyed = tt }

  pub one-Keyed : {c : Candidate} → key_at c.node_id ≡ key → Keyed key_at key (c ∷ [])
  one-Keyed q = record { keyed = (q, tt) }

  pub two-Keyed :
      {c d : Candidate}
      → key_at c.node_id ≡ key
      → key_at d.node_id ≡ key
      → Keyed key_at key (c ∷ d ∷ [])
  two-Keyed q r = record { keyed = (q, (r, tt)) }

  pub append-Keyed :
      {cs ds : List Candidate}
      → Keyed key_at key cs
      → Keyed key_at key ds
      → Keyed key_at key (cs ++ ds)
  append-Keyed {cs = cs} {ds = ds} k l = record { keyed = All-append _ cs ds k.keyed l.keyed }

pub replaced-Keyed :
    (key_at : ℕ → Text) (key : Text) (m : Meta) (op : Token) (o : Option Token) (ok : Bool)
    → (is_found o ≡ true → ok ≡ true → key_at m.id ≡ key)
    → Keyed key_at key (replaced m op o ok)
replaced-Keyed key_at key m op (some mut_op) true h = one-Keyed (h refl refl)
replaced-Keyed key_at key m op none ok h = empty-Keyed
replaced-Keyed key_at key m op (some mut_op) false h = empty-Keyed

arith_key : (op : Token) → is_found (sibling op) ≡ true → binary_key op false ≡ codes "int_arith"
unfolding sibling
arith_key add h = refl
arith_key _ h = ground arith

bitwise_key :
    (op : Token) (float : Bool)
    → is_found (bitwise_sibling op) ≡ true
    → binary_key op float ≡ codes "int_bitwise"
unfolding bitwise_sibling
bitwise_key and float h = refl
bitwise_key _ float h = ground arith

cmp_key :
    (op : Token) (float : Bool)
    → is_found (negate_map op) ≡ true
    → binary_key op float ≡ (if float then codes "float_cmp" else codes "int_cmp")
unfolding negate_map
cmp_key lss float h = refl
cmp_key leq float h = refl
cmp_key gtr float h = refl
cmp_key geq float h = refl
cmp_key eql float h = refl
cmp_key neq float h = refl
cmp_key _ float h = ground arith

pub boundary_negates :
    (op : Token) → is_found (boundary_sibling op) ≡ true → is_found (negate_map op) ≡ true
unfolding boundary_sibling negate_map
boundary_negates lss h = refl
boundary_negates _ h = ground arith

float_key :
    (op : Token) → is_found (float_sibling op) ≡ true → binary_key op true ≡ codes "float_arith"
unfolding float_sibling
float_key add h = refl
float_key _ h = ground arith

bool_key :
    (op : Token) (float : Bool)
    → is_found (bool_sibling op) ≡ true
    → binary_key op float ≡ codes "bool_logic"
unfolding bool_sibling
bool_key land float h = refl
bool_key _ float h = ground arith

integer_not_float : (b : Basic) → is_integer b ≡ true → is_float b ≡ false
integer_not_float (integer k) h = refl
integer_not_float _ h = ground arith

underlying_float : (u : Underlying) → basic_with is_integer u ≡ true → basic_with is_float u ≡ false
underlying_float (basic b) h = integer_not_float b h
underlying_float _ h = refl

int_type_float : (t : Option GoType) → is_integer_type t ≡ true → is_float_type t ≡ false
int_type_float none h = refl
int_type_float (some t) h = underlying_float (underlying t) h

and_left : (a b : Bool) → (a && b) ≡ true → a ≡ true
and_left a b h = ground arith

and_middle : (a b c : Bool) → (a && b && c) ≡ true → b ≡ true
and_middle a b c h = ground arith

second : (a b c d e : Bool) → (a && b && c && d && e) ≡ true → b ≡ true
second a b c d e h = ground arith

pub unless-Keyed :
    (key_at : ℕ → Text) (key : Text) (b : Bool) (cs : List Candidate)
    → Keyed key_at key cs
    → Keyed key_at key (if b then [] else cs)
unless-Keyed key_at key true cs k = empty-Keyed
unless-Keyed key_at key false cs k = k

pub guarded-Keyed :
    (key_at : ℕ → Text) (key : Text) (b : Bool) (cs : List Candidate)
    → Keyed key_at key cs
    → Keyed key_at key (if b then cs else [])
guarded-Keyed key_at key true cs k = k
guarded-Keyed key_at key false cs k = empty-Keyed

module _ (info : Info) (key_at : ℕ → Text) where
  int_operands-float : (x y : Node) → int_operands info x y ≡ true → is_float_operand info x ≡ false
  unfolding int_operands
  int_operands-float x y h = by_values (info.types (node_id x)) (info.types (node_id y)) h
    where
      by_values :
          (o p : Option TypeAndValue)
          → int_values info x y o p ≡ true
          → is_float_type (type_and_value o).go_type ≡ false
      by_values (some lv) (some rv) h =
          int_type_float lv.go_type
            (second (not (lv.has_value && rv.has_value)) (is_integer_type lv.go_type) _ _ _ h)
      by_values _ _ h = ground arith

  float_operands-float :
      (x y : Node) → float_operands info x y ≡ true → is_float_operand info x ≡ true
  unfolding float_operands
  float_operands-float x y h = and_middle _ (is_float_operand info x) _ h

  pub int_arith-Keyed :
      (n : Node)
      → key_at (node_id n) ≡ node_key info n
      → Keyed key_at (codes "int_arith") (int_arith_at info n)
  unfolding int_arith_at
  int_arith-Keyed (node m (binary_expr op) (cons x nil) (cons y nil)) q =
      replaced-Keyed key_at _ m op (sibling op) (int_operands info x y)
        (λ h ok. q ∙ (ap (binary_key op) (int_operands-float x y ok) ∙ arith_key op h))
  int_arith-Keyed _ q = empty-Keyed

  pub int_bitwise-Keyed :
      (n : Node)
      → key_at (node_id n) ≡ node_key info n
      → Keyed key_at (codes "int_bitwise") (int_bitwise_at info n)
  unfolding int_bitwise_at
  int_bitwise-Keyed (node m (binary_expr op) (cons x nil) (cons y nil)) q =
      replaced-Keyed key_at _ m op (bitwise_sibling op) (int_operands info x y)
        (λ h ok. q ∙ bitwise_key op (is_float_operand info x) h)
  int_bitwise-Keyed _ q = empty-Keyed

  int_cmp_key :
      (op : Token) (x y : Node) (b : Bool)
      → is_found (negate_map op) ≡ true
      → (int_operands info x y && b) ≡ true
      → binary_key op (is_float_operand info x) ≡ codes "int_cmp"
  int_cmp_key op x y b h ok =
      ap (binary_key op) (int_operands-float x y (and_left (int_operands info x y) b ok))
      ∙ cmp_key op false h

  pub int_cmp_boundary-Keyed :
      (n : Node)
      → key_at (node_id n) ≡ node_key info n
      → Keyed key_at (codes "int_cmp") (int_cmp_boundary_at info n)
  unfolding int_cmp_boundary_at
  int_cmp_boundary-Keyed (node m (binary_expr op) (cons x nil) (cons y nil)) q =
      replaced-Keyed key_at _ m op (boundary_sibling op) _
        (λ h ok. q ∙ int_cmp_key op x y _ (boundary_negates op h) ok)
  int_cmp_boundary-Keyed _ q = empty-Keyed

  pub int_cmp_negate-Keyed :
      (n : Node)
      → key_at (node_id n) ≡ node_key info n
      → Keyed key_at (codes "int_cmp") (int_cmp_negate_at info n)
  unfolding int_cmp_negate_at
  int_cmp_negate-Keyed (node m (binary_expr op) (cons x nil) (cons y nil)) q =
      replaced-Keyed key_at _ m op (negate_map op) _ (λ h ok. q ∙ int_cmp_key op x y _ h ok)
  int_cmp_negate-Keyed _ q = empty-Keyed

  pub float_arith-Keyed :
      (n : Node)
      → key_at (node_id n) ≡ node_key info n
      → Keyed key_at (codes "float_arith") (float_arith_at info n)
  unfolding float_arith_at
  float_arith-Keyed (node m (binary_expr op) (cons x nil) (cons y nil)) q =
      replaced-Keyed key_at _ m op (float_sibling op) _
        (λ h ok. q ∙ (ap (binary_key op) (float_operands-float x y ok) ∙ float_key op h))
  float_arith-Keyed _ q = empty-Keyed

  pub float_cmp-Keyed :
      (mutants : Token → Option Token)
      → ((op : Token) → is_found (mutants op) ≡ true → is_found (negate_map op) ≡ true)
      → (n : Node) → key_at (node_id n) ≡ node_key info n
      → Keyed key_at (codes "float_cmp") (find_float_cmp info mutants n)
  unfolding find_float_cmp
  float_cmp-Keyed mutants t (node m (binary_expr op) (cons x nil) (cons y nil)) q =
      replaced-Keyed key_at _ m op (mutants op) _ (λ h ok.
        q
        ∙ (ap (binary_key op) (float_operands-float x y (and_left (float_operands info x y) _ ok))
            ∙ cmp_key op true (t op h)))
  float_cmp-Keyed mutants t _ q = empty-Keyed

  pub bool_logic-Keyed :
      (n : Node)
      → key_at (node_id n) ≡ node_key info n
      → Keyed key_at (codes "bool_logic") (bool_logic_at info n)
  unfolding bool_logic_at
  bool_logic-Keyed (node m (binary_expr op) (cons x nil) (cons y nil)) q =
      replaced-Keyed key_at _ m op (bool_sibling op) _
        (λ h ok. q ∙ bool_key op (is_float_operand info x) h)
  bool_logic-Keyed _ q = empty-Keyed

  pub bool_not-Keyed :
      (n : Node)
      → key_at (node_id n) ≡ node_key info n
      → Keyed key_at (codes "bool_not") (bool_not_at info n)
  unfolding bool_not_at
  bool_not-Keyed (node m (unary_expr not_op) (cons x nil) nil) q =
      guarded-Keyed key_at _ _ (new_candidate m.id m.op_pos (codes "!") [] ∷ []) (one-Keyed q)
  bool_not-Keyed _ q = empty-Keyed
