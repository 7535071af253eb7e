-- ===== src/Operators/Find/Register.antt =====
-- internal/operators/register.go: the operators in the order in which they are registered.
use kanly.Base.{ℕ, Bool, true, false, Text, codes, List, [], ◌∷◌, map}
use kanly.Schema.Rewrite
use kanly.Schema.Rewrite.{SourceFile, Operator}
use kanly.Operators.Binary.{boundary_sibling, negate_map}
use kanly.Operators.Tree.{Node, inspect}
use kanly.Operators.Types.{Info}
use kanly.Operators.Find.{
  Candidate, int_arith_at, int_bitwise_at, int_cmp_boundary_at, int_cmp_negate_at, float_arith_at,
  find_float_cmp, bool_logic_at, bool_not_at,
}
use kanly.Operators.Find.Statements.{
  skip, call_delete_at, chan_op_at, inc_dec_at, int_compound_assign_at, slice_index_at,
  slice_range_at,
}
use kanly.Operators.Find.Switch.{switch_case_at}
use kanly.Operators.Find.Literals.{string_literal_at, int_literal_at, bool_literal_at}
use kanly.Operators.Find.Returns.{err_return_at, return_zero_at, struct_field_zero_at}

-- An operator's `Name` and `DispatcherKey`, whether it has the method `WrapsExpr`, and its `Find`.
pub record Finder : Type 0 where
  pub name : Text
  pub dispatcher_key : Text
  pub wraps : Bool
  pub find : Info → Node → List Candidate

abbrev shaped : Text → Text → (Info → List Node → Node → List Candidate) → Finder
shaped name key at = record {
  name = name;
  dispatcher_key = key;
  wraps = false;
  find = λ info file. inspect (at info) file;
}

abbrev wrapping : Text → Text → (Info → List Node → Node → List Candidate) → Finder
wrapping name key at = record {
  name = name;
  dispatcher_key = key;
  wraps = true;
  find = λ info file. inspect (at info) file;
}

abbrev chan_op : Finder
chan_op = record {
  name = codes "chan_op";
  dispatcher_key = codes "chan_op";
  wraps = false;
  find = λ info file. inspect (λ stack n. chan_op_at info (skip file) n) file;
}

abbrev pub registered : List Finder
registered =
    shaped (codes "int_arith") (codes "int_arith") (λ info stack n. int_arith_at info n)
    ∷ shaped (codes "int_cmp_boundary") (codes "int_cmp")
        (λ info stack n. int_cmp_boundary_at info n)
    ∷ shaped (codes "int_cmp_negate") (codes "int_cmp") (λ info stack n. int_cmp_negate_at info n)
    ∷ shaped (codes "bool_logic") (codes "bool_logic") (λ info stack n. bool_logic_at info n)
    ∷ shaped (codes "bool_not") (codes "bool_not") (λ info stack n. bool_not_at info n)
    ∷ wrapping (codes "err_return_nil") (codes "err_return") (λ info stack n. err_return_at info n)
    ∷ shaped (codes "call_delete") (codes "call_delete") (λ info stack n. call_delete_at info n)
    ∷ shaped (codes "string_literal") (codes "string_literal") string_literal_at
    ∷ shaped (codes "slice_index") (codes "slice_index") (λ info stack n. slice_index_at info n)
    ∷ wrapping (codes "slice_range") (codes "slice_range") (λ info stack n. slice_range_at info n)
    ∷ shaped (codes "inc_dec") (codes "stmt_swap") (λ info stack n. inc_dec_at info n)
    ∷ shaped (codes "int_compound_assign") (codes "stmt_swap")
        (λ info stack n. int_compound_assign_at info n)
    ∷ shaped (codes "int_bitwise") (codes "int_bitwise") (λ info stack n. int_bitwise_at info n)
    ∷ shaped (codes "int_literal") (codes "int_literal") int_literal_at
    ∷ wrapping (codes "return_zero") (codes "return_zero") return_zero_at
    ∷ shaped (codes "bool_literal") (codes "bool_literal") bool_literal_at
    ∷ wrapping (codes "struct_field_zero") (codes "return_zero")
        (λ info stack n. struct_field_zero_at info n)
    ∷ shaped (codes "float_arith") (codes "float_arith") (λ info stack n. float_arith_at info n)
    ∷ shaped (codes "float_cmp_boundary") (codes "float_cmp")
        (λ info stack n. find_float_cmp info boundary_sibling n)
    ∷ shaped (codes "float_cmp_negate") (codes "float_cmp")
        (λ info stack n. find_float_cmp info negate_map n)
    ∷ chan_op
    ∷ shaped (codes "switch_case") (codes "switch_case") (λ info stack n. switch_case_at info n)
    ∷ []

-- Where a position stands in its file, with and without `//line` directives.
pub record Position : Type 0 where
  pub line : ℕ
  pub column : ℕ
  pub raw_line : ℕ
  pub raw_column : ℕ

abbrev pub located : (ℕ → Position) → Candidate → kanly.Schema.Rewrite.Candidate
located position c =
    let at = position c.pos in
    record {
      node = c.node_id;
      pos = c.pos;
      original = c.original;
      mutant = c.mutant;
      line = at.line;
      column = at.column;
      raw_line = at.raw_line;
      raw_column = at.raw_column;
    }

-- The operator as the rewriter calls it, on the syntax trees of the package's files.
abbrev pub as_operator :
    (SourceFile → ℕ → Position) → Info → (SourceFile → Node) → Finder → Operator
as_operator position info tree f = record {
  name = f.name;
  dispatcher_key = f.dispatcher_key;
  wraps = f.wraps;
  find = λ file. map (located (position file)) (f.find info (tree file));
}
