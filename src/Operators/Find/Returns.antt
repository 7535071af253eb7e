-- ===== src/Operators/Find/Returns.antt =====
-- internal/operators: the expressions that a wrapper replaces by a zero value (err_return.go,
-- return_zero.go, struct_field_zero.go).
use kanly.Base.{
  ℕ, ◌+◌, Bool, true, false, not, ◌&&◌, ◌||◌, Text, codes, List, [], ◌∷◌, ◌++◌, Option, none, some,
  ◌==◌, nat_eq, text_eq, length, get_elem?, ltb, contains, if◌then◌else◌,
}
use kanly.Operators.IntLiteral.{int}
use kanly.Operators.Tree.{
  Node, node, Nodes, nil, cons, node_id, node_pos, count, ident, binary_expr, unary_expr, basic_lit,
  func_lit, call_expr, return_stmt, func_decl, composite_lit, key_value_expr,
}
use kanly.Operators.Types.{
  bool_basic, string_basic, integer, struct, tuple, GoType, basic_type, identical, underlying,
  Object, object_type, Info, type_of,
}
use kanly.Operators.Check.{is_error_type, is_nilable_type}
use kanly.Operators.Find.{Candidate, new_candidate}

abbrev is_ident_of : List Text → Node → Bool
is_ident_of names (node m (ident name) xs ys) = contains names name
is_ident_of names _ = false

-- `returnZeroMutant`, empty for a type that is not supported.
unfoldable pub return_zero_mutant : GoType → Text
return_zero_mutant (basic_type (integer int)) = codes "0"
return_zero_mutant (basic_type string_basic) = codes "\"\""
return_zero_mutant (basic_type bool_basic) = codes "false"
return_zero_mutant t = if is_nilable_type t then codes "nil" else []

-- The shapes that another operator targets.
abbrev is_other_target : Node → Bool
is_other_target (node m (binary_expr op) xs ys) = true
is_other_target (node m (unary_expr op) xs ys) = true
is_other_target (node m (basic_lit k v n) xs ys) = true
is_other_target (node m func_lit xs ys) = true
is_other_target _ = false

abbrev differs : GoType → Option GoType → Bool
differs t none = false
differs t (some slot) = not (identical t slot)

module _ (info : Info) where
  abbrev err_results : Nodes → List Candidate
  err_results nil = []
  err_results (cons e es) =
      (if is_ident_of (codes "nil" ∷ []) e || not (is_error_type info e)
        then []
        else new_candidate (node_id e) (node_pos e) (codes "err") (codes "nil") ∷ [])
      ++ err_results es

  unfoldable pub err_return_at : Node → List Candidate
  err_return_at (node m return_stmt nil results) = err_results results
  err_return_at _ = []

  abbrev zeroed : Node → Text → Bool → List Candidate
  zeroed e mutant typed_nil =
      if mutant == [] || mutant == codes "nil" && typed_nil
      then []
      else new_candidate (node_id e) (node_pos e) (codes "value") mutant ∷ []

  abbrev zero_of_type : Node → Option GoType → Option GoType → List Candidate
  zero_of_type e none slot = []
  zero_of_type e (some t) slot = zeroed e (return_zero_mutant t) (differs t slot)

  -- `returnZeroCandidate`, with the type of the slot where it is known.
  unfoldable pub return_zero_candidate : Node → Option GoType → List Candidate
  unfolding return_zero_mutant
  return_zero_candidate e slot =
      if is_other_target e
        || is_ident_of (codes "nil" ∷ codes "false" ∷ codes "true" ∷ []) e
        || is_error_type info e
      then []
      else zero_of_type e (type_of info e) slot

  -- `enclosingResults`: the result types of the innermost function around a node.
  unfoldable pub enclosing_results : List Node → Option (List GoType)
  enclosing_results [] = none
  enclosing_results (node m func_lit xs ys ∷ stack) = info.results m.id
  enclosing_results (node m func_decl (cons recv (cons name nil)) ys ∷ stack) =
      info.results (node_id name)
  enclosing_results (n ∷ stack) = enclosing_results stack

  -- The type of a result of the function, if it has as many results as the statement.
  abbrev slot_of : Option (List GoType) → ℕ → ℕ → Option GoType
  slot_of none n i = none
  slot_of (some ts) n i = if length ts == n then get_elem? ts i else none

  abbrev is_many : Option GoType → Bool
  is_many none = false
  is_many (some t) = elim (underlying t) [ tuple n ↦ ltb 1 n | _ ↦ false ]

  -- The one result is a call with several values.
  abbrev is_passthrough : Nodes → Bool
  is_passthrough (cons (node m call_expr xs ys) nil) =
      is_many (type_of info (node m call_expr xs ys))
  is_passthrough _ = false

  abbrev zero_results : Option (List GoType) → ℕ → ℕ → Nodes → List Candidate
  zero_results results n i nil = []
  zero_results results n i (cons e es) =
      return_zero_candidate e (slot_of results n i) ++ zero_results results n (i + 1) es

  unfoldable pub return_zero_at : List Node → Node → List Candidate
  unfolding return_zero_candidate enclosing_results
  return_zero_at stack (node m return_stmt nil results) =
      if is_passthrough results
      then []
      else zero_results (enclosing_results stack) (count results) 0 results
  return_zero_at stack _ = []

  abbrev of_object : Option Object → Option GoType
  of_object none = none
  of_object (some obj) = some (object_type obj)

  -- The type of the field that the key names.
  abbrev field_slot : Node → Option GoType
  field_slot (node m (ident name) xs ys) = of_object (info.object_of m.id)
  field_slot _ = none

  abbrev zero_fields : Nodes → List Candidate
  zero_fields nil = []
  zero_fields (cons (node m key_value_expr (cons key nil) (cons v nil)) es) =
      return_zero_candidate v (field_slot key) ++ zero_fields es
  zero_fields (cons e es) = zero_fields es

  abbrev is_struct : Option GoType → Bool
  is_struct none = false
  is_struct (some t) = elim (underlying t) [ struct ↦ true | _ ↦ false ]

  unfoldable pub struct_field_zero_at : Node → List Candidate
  unfolding return_zero_candidate
  struct_field_zero_at (node m composite_lit (cons t nil) elts) =
      if is_struct (type_of info (node m composite_lit (cons t nil) elts))
      then zero_fields elts
      else []
  struct_field_zero_at _ = []
