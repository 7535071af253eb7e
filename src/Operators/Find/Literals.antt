-- ===== src/Operators/Find/Literals.antt =====
-- internal/operators: the literals and predeclared identifiers that an operator may replace by a call
-- (string_literal.go, int_literal.go, bool_literal.go).
use kanly.Base.{
  ℕ, Bool, true, false, not, ◌&&◌, ◌||◌, Text, codes, List, [], ◌∷◌, Option, none, some, ◌==◌,
  nat_eq, text_eq, map, if◌then◌else◌,
}
use kanly.Base.Int.{ℤ}
use kanly.Operators.IntLiteral.{Kind, int_lit_mutants}
use kanly.Operators.Binary.{Token, quo, rem, shr}
use kanly.Operators.Tree.{
  Meta, Node, node, Nodes, nil, cons, node_id, basic_lit, string_lit, int_lit, ident, binary_expr,
  unary_expr, paren_expr, selector_expr, call_expr, index_expr, index_list_expr, star_expr,
  type_assert_expr, slice_expr, key_value_expr, composite_lit, func_lit, array_type, other_expr,
  import_spec, ast_field, gen_decl,
}
use kanly.Operators.Types.{
  string_basic, integer, untyped_bool, untyped_string, basic, is_one_of, GoType, underlying, Object,
  true_object, false_object, Info, type_and_value,
}
use kanly.Operators.Check.{is_bool_type, is_comparison, in_constant_position}
use kanly.Operators.Find.{Candidate, new_candidate}

-- `litMutable`.
unfoldable pub lit_mutable : List Node → Bool
lit_mutable [] = true
lit_mutable (node m import_spec xs ys ∷ stack) = false
lit_mutable (node m array_type xs ys ∷ stack) = false
lit_mutable (node m (gen_decl true) xs ys ∷ stack) = false
lit_mutable (p ∷ stack) = lit_mutable stack

unfoldable pub string_lit_mutable : List Node → Node → Bool
string_lit_mutable [] lit = true
string_lit_mutable (node m import_spec xs ys ∷ stack) lit = false
string_lit_mutable (node m ast_field names (cons t (cons tag nil)) ∷ stack) lit =
    not (node_id tag == node_id lit) && string_lit_mutable stack lit
string_lit_mutable (node m (gen_decl true) xs ys ∷ stack) lit = false
string_lit_mutable (p ∷ stack) lit = string_lit_mutable stack lit

-- The parameter for which the literal is passed is named `usage`.
abbrev usage_param : ℕ → Nodes → List Text → Bool
usage_param lit (cons arg args) (p ∷ params) =
    if node_id arg == lit then p == codes "usage" else usage_param lit args params
usage_param lit _ _ = false

abbrev is_expr : Node → Bool
is_expr (node m (ident name) xs ys) = true
is_expr (node m (basic_lit k v n) xs ys) = true
is_expr (node m (binary_expr op) xs ys) = true
is_expr (node m (unary_expr op) xs ys) = true
is_expr (node m paren_expr xs ys) = true
is_expr (node m selector_expr xs ys) = true
is_expr (node m call_expr xs ys) = true
is_expr (node m index_expr xs ys) = true
is_expr (node m index_list_expr xs ys) = true
is_expr (node m star_expr xs ys) = true
is_expr (node m type_assert_expr xs ys) = true
is_expr (node m slice_expr xs ys) = true
is_expr (node m key_value_expr xs ys) = true
is_expr (node m composite_lit xs ys) = true
is_expr (node m func_lit xs ys) = true
is_expr (node m array_type xs ys) = true
is_expr (node m other_expr xs ys) = true
is_expr _ = false

abbrev wraps_result : Token → Bool
wraps_result quo = true
wraps_result rem = true
wraps_result shr = true
wraps_result op = is_comparison op

abbrev is_wrap_sensitive : Node → Bool
is_wrap_sensitive (node m (binary_expr op) xs ys) = wraps_result op
is_wrap_sensitive _ = false

module _ (info : Info) where
  unfoldable pub is_flag_usage : List Node → Node → Bool
  is_flag_usage (node m call_expr fun args ∷ stack) lit = elim (info.callee m.id) [
    | none ↦ false
    | some fn ↦ fn.path == codes "flag" && usage_param (node_id lit) args fn.params
  ]
  is_flag_usage _ lit = false

  unfoldable pub is_plain_string_lit : Node → Bool
  is_plain_string_lit lit =
      is_one_of string_basic untyped_string (type_and_value (info.types (node_id lit))).go_type

  unfoldable pub string_literal_at : List Node → Node → List Candidate
  string_literal_at stack (node m (basic_lit string_lit v n) xs ys) =
      let lit = node m (basic_lit string_lit v n) xs ys in
      if not (v == codes "\"\"")
        && not (v == codes "``")
        && string_lit_mutable stack lit
        && not (in_constant_position info stack lit)
        && is_plain_string_lit lit
        && not (is_flag_usage stack lit)
      then new_candidate m.id m.pos v (codes "\"\"") ∷ []
      else []
  string_literal_at stack _ = []

  -- Whether the walk up the constant expression meets an operator whose result wraps_result.
  unfoldable pub in_wrap_sensitive_constant : List Node → Bool
  in_wrap_sensitive_constant [] = false
  in_wrap_sensitive_constant (e ∷ stack) =
      is_expr e
      && (type_and_value (info.types (node_id e))).has_value
      && (is_wrap_sensitive e || in_wrap_sensitive_constant stack)

  -- The kind of a typed integer type.
  abbrev pub typed_kind : GoType → Option Kind
  typed_kind t = elim (underlying t) [
    | basic b ↦ elim b [ integer k ↦ some k | _ ↦ none ]
    | _ ↦ none
  ]

  abbrev pub int_lit_candidate : Meta → Text → GoType → Text → Candidate
  int_lit_candidate m v t mutant = record {
    node_id = m.id;
    pos = m.pos;
    original = v;
    mutant = mutant;
    go_type = some t;
  }

  abbrev pub of_kind : Meta → Text → ℤ → GoType → Option Kind → List Candidate
  of_kind m v n t none = []
  of_kind m v n t (some k) = map (int_lit_candidate m v t) (int_lit_mutants n k)

  abbrev pub int_lit_candidates : Meta → Text → Option ℤ → Option GoType → List Candidate
  int_lit_candidates m v (some n) (some t) = of_kind m v n t (typed_kind t)
  int_lit_candidates m v _ _ = []

  unfoldable pub int_literal_at : List Node → Node → List Candidate
  int_literal_at stack (node m (basic_lit int_lit v n) xs ys) =
      let lit = node m (basic_lit int_lit v n) xs ys in
      if lit_mutable stack
        && not (in_constant_position info stack lit)
        && not (in_wrap_sensitive_constant stack)
      then int_lit_candidates m v n (type_and_value (info.types m.id)).go_type
      else []
  int_literal_at stack _ = []

  -- The type of a predeclared `true` or `false`, unless it stays untyped.
  abbrev pub bool_lit_type : ℕ → Option GoType
  bool_lit_type id =
      let t = (type_and_value (info.types id)).go_type in
      if is_bool_type t && not (is_one_of untyped_bool untyped_bool t) then t else none

  abbrev is_predeclared : Option Object → Bool
  is_predeclared (some true_object) = true
  is_predeclared (some false_object) = true
  is_predeclared _ = false

  abbrev pub flipped : Meta → Text → Option GoType → List Candidate
  flipped m name none = []
  flipped m name (some t) =
      record {
        node_id = m.id;
        pos = m.pos;
        original = name;
        mutant = if name == codes "true" then codes "false" else codes "true";
        go_type = some t;
      }
      ∷ []

  unfoldable pub bool_literal_at : List Node → Node → List Candidate
  bool_literal_at stack (node m (ident name) xs ys) =
      if (name == codes "true" || name == codes "false")
        && is_predeclared (info.object_of m.id)
        && lit_mutable stack
      then flipped m name (bool_lit_type m.id)
      else []
  bool_literal_at stack _ = []
