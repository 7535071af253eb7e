-- ===== src/Operators/Check.antt =====
-- internal/operators/typecheck.go: what the types of expressions let an operator do.
use kanly.Base.{
  Bool, true, false, not, ◌&&◌, ◌||◌, Text, codes, List, [], ◌∷◌, Option, none, some, ◌==◌, nat_eq,
  text_eq, any, if◌then◌else◌,
}
use kanly.Operators.Binary.{Token, shl, shr, lss, leq, gtr, geq, eql, neq}
use kanly.Operators.IntLiteral.{int}
use kanly.Operators.Tree.{
  Node, node, nil, cons, node_id, walk, ident, binary_expr, unary_expr, address, paren_expr,
  selector_expr, call_expr, index_expr, index_list_expr, star_expr, type_assert_expr, array_type,
  key_value_expr, composite_lit,
}
use kanly.Operators.Types.{
  Basic, bool_basic, integer, untyped_bool, Underlying, basic, pointer, slice, map, chan, signature,
  interface, array, GoType, basic_type, identical, underlying, error_type, TypeAndValue, is_integer,
  is_float, is_boolean, is_untyped, is_one_of, Object, builtin, object_type, Info, type_and_value,
  type_of,
}

abbrev pub basic_with : (Basic → Bool) → Underlying → Bool
basic_with p (basic b) = p b
basic_with p _ = false

abbrev pub has_basic : (Basic → Bool) → Option GoType → Bool
has_basic p none = false
has_basic p (some t) = basic_with p (underlying t)

abbrev pub is_integer_type : Option GoType → Bool
is_integer_type = has_basic is_integer

abbrev pub is_float_type : Option GoType → Bool
is_float_type = has_basic is_float

abbrev pub is_bool_type : Option GoType → Bool
is_bool_type = has_basic is_boolean

-- `types.Identical` of two types that are not nil.
abbrev both_identical : Option GoType → Option GoType → Bool
both_identical (some t) (some u) = identical t u
both_identical _ _ = false

abbrev pub obj_has_own_type : Option Object → Bool
obj_has_own_type none = false
obj_has_own_type (some obj) = elim (object_type obj) [
  | basic_type b ↦ not (is_untyped b)
  | _ ↦ true
]

abbrev pub is_comparison : Token → Bool
is_comparison lss = true
is_comparison leq = true
is_comparison gtr = true
is_comparison geq = true
is_comparison eql = true
is_comparison neq = true
is_comparison _ = false

abbrev pub is_shift : Token → Bool
is_shift shl = true
is_shift shr = true
is_shift _ = false

unfoldable pub has_own_type : Info → Node → Bool
has_own_type info (node m paren_expr (cons x nil) nil) = has_own_type info x
has_own_type info (node m (ident name) xs ys) = obj_has_own_type (info.object_of m.id)
has_own_type info (node m selector_expr (cons x nil) (cons sel nil)) =
    obj_has_own_type (info.object_of (node_id sel))
has_own_type info (node m call_expr xs ys) = true
has_own_type info (node m index_expr xs ys) = true
has_own_type info (node m index_list_expr xs ys) = true
has_own_type info (node m star_expr xs ys) = true
has_own_type info (node m type_assert_expr xs ys) = true
has_own_type info (node m (unary_expr address) (cons x nil) nil) = true
has_own_type info (node m (unary_expr op) (cons x nil) nil) = has_own_type info x
has_own_type info (node m (binary_expr op) (cons x nil) (cons y nil)) =
    let left = has_own_type info x in
    let right = has_own_type info y in
    if is_comparison op then false else if is_shift op then left else left || right
has_own_type info _ = false

module _ (info : Info) where
  unfoldable pub operands_inferable : Node → Node → GoType → GoType → Bool
  unfolding has_own_type
  operands_inferable x y t def = has_own_type info x || has_own_type info y || identical t def

  abbrev inferable_int : Node → Node → Option GoType → Bool
  inferable_int x y none = false
  inferable_int x y (some t) = operands_inferable x y t (basic_type (integer int))

  abbrev pub int_values : Node → Node → Option TypeAndValue → Option TypeAndValue → Bool
  int_values x y (some lv) (some rv) =
      not (lv.has_value && rv.has_value)
      && is_integer_type lv.go_type
      && is_integer_type rv.go_type
      && both_identical lv.go_type rv.go_type
      && inferable_int x y lv.go_type
  int_values x y _ _ = false

  unfoldable pub int_operands : Node → Node → Bool
  unfolding operands_inferable
  int_operands x y = int_values x y (info.types (node_id x)) (info.types (node_id y))

  unfoldable pub float_operands : Node → Node → Bool
  float_operands x y =
      let lv = type_and_value (info.types (node_id x)) in
      let rv = type_and_value (info.types (node_id y)) in
      not (lv.has_value && rv.has_value)
      && is_float_type lv.go_type
      && both_identical lv.go_type rv.go_type

  abbrev bool_values : Option TypeAndValue → Option TypeAndValue → Bool
  bool_values (some lv) (some rv) =
      not (lv.has_value && rv.has_value)
      && is_bool_type lv.go_type
      && is_bool_type rv.go_type
      && both_identical lv.go_type rv.go_type
  bool_values _ _ = false

  unfoldable pub bool_operands : Node → Node → Bool
  bool_operands x y = bool_values (info.types (node_id x)) (info.types (node_id y))

  unfoldable pub bool_operand : Node → Bool
  bool_operand x = elim (info.types (node_id x)) [
    | none ↦ false
    | some lv ↦ not lv.has_value && is_bool_type lv.go_type
  ]

  unfoldable pub int_operand : Node → Bool
  int_operand x = elim (info.types (node_id x)) [
    | none ↦ false
    | some lv ↦ not (lv.has_value || lv.is_type) && is_integer_type lv.go_type
  ]

  unfoldable pub is_error_type : Node → Bool
  is_error_type x =
      both_identical (type_and_value (info.types (node_id x))).go_type (some error_type)

  unfoldable pub is_plain_bool_result : Node → Bool
  is_plain_bool_result e =
      is_one_of bool_basic untyped_bool (type_and_value (info.types (node_id e))).go_type

  unfoldable pub bool_result_inferable : Node → Node → Bool
  unfolding is_plain_bool_result has_own_type
  bool_result_inferable e operand = is_plain_bool_result e || has_own_type info operand

  abbrev is_array_or_slice : Option GoType → Bool
  is_array_or_slice none = false
  is_array_or_slice (some t) = elim (underlying t) [ array ↦ true | slice ↦ true | _ ↦ false ]

  abbrev parent_is_array : List Node → Bool
  parent_is_array (node m composite_lit xs ys ∷ stack) =
      is_array_or_slice (type_of info (node m composite_lit xs ys))
  parent_is_array _ = false

  -- The length of an array type, or the key of an element of an array or slice.
  abbrev is_constant_slot : Node → Node → List Node → Bool
  is_constant_slot child (node m array_type (cons len nil) ys) stack = node_id len == node_id child
  is_constant_slot child (node m key_value_expr (cons key nil) ys) stack =
      node_id key == node_id child && parent_is_array stack
  is_constant_slot child _ stack = false

  unfoldable pub in_constant_position : List Node → Node → Bool
  in_constant_position [] child = false
  in_constant_position (p ∷ stack) child =
      is_constant_slot child p stack || in_constant_position stack p

  -- An identifier for a builtin function with one of the names.
  abbrev pub is_builtin_named : List Text → Node → Bool
  is_builtin_named names (node m (ident name) xs ys) = elim (info.object_of m.id) [
    | some (builtin b) ↦ any (λ n. n == b) names
    | _ ↦ false
  ]
  is_builtin_named names _ = false

  abbrev is_recover_call : Node → Bool
  is_recover_call (node m call_expr (cons fun nil) args) =
      is_builtin_named (codes "recover" ∷ []) fun
  is_recover_call _ = false

  unfoldable pub contains_recover : Node → Bool
  unfolding walk
  contains_recover e = any (λ (_, n). is_recover_call n) (walk [] e)

unfoldable pub is_nilable_type : GoType → Bool
is_nilable_type t = elim (underlying t) [
  | pointer ↦ true
  | slice ↦ true
  | map ↦ true
  | chan ↦ true
  | signature ↦ true
  | interface ↦ not (identical t error_type)
  | _ ↦ false
]
