-- ===== src/Operators/Binary/Laws.antt =====
-- internal/operators and the dispatchers of internal/schema: what a rewritten binary expression
-- computes.
use kanly.Base.{
  ◌≡◌, Bool, true, Text, codes, List, [], ◌∷◌, none, some, arith, contains, if◌then◌else◌, text_eq,
  text_beq, text_beq_iff,
}
use kanly.Base.Int.{ℤ}
use kanly.Mutation.{Mutation}
use kanly.Go.{value, Run, Arith, Compared}
use kanly.Schema.Dispatcher.{
  by_operator, find_case, mutant_expr, int_bit_expr, int_cmp_expr, bool_logic_expr,
}
use kanly.Schema.Runtime.{
  is_active, active_case, run_arith, run_bit, run_cmp, run_bool, cmut_int, cmut_int_cmp,
  cmut_int_bit, cmut_bool,
}
use kanly.Schema.Cases.{active_case_one, active_case_two}
use kanly.Operators.Binary.{
  Token, add, and, lss, land, eql, token_string, sibling, opcode_const, bitwise_sibling,
  bitwise_opcode_const, boundary_sibling, negate_map, cmp_opcode_const, bool_sibling, go_arith,
  go_cmp, go_bool, rewrite_int_arith, rewrite_int_bitwise, emit_int_cmp_call, rewrite_bool_logic,
}

-- The schema was generated with `m`, which proposes `tok` for an operator of this name.
pub record Proposed (muts : List Mutation) (m : Mutation) (operator : Text) (tok : Token)
    : Type 0 where
  pub listed : find_case muts m.id ≡ some m
  pub of_operator : m.operator_name ≡ operator
  pub proposes : m.mutant ≡ token_string tok

contains-one : (s t : Text) → t ≡ s → contains (s ∷ []) t ≡ true
contains-one s t h = ground (arith, text_beq_iff s t)

module _ {T : Type 0} where
  run_arith-mutant_expr :
      (g : Arith T) (m : Mutation) (tok tok' : Token) (a b : T)
      → sibling tok ≡ some tok'
      → m.mutant ≡ token_string tok'
      → some (run_arith g (mutant_expr m) a b) ≡ go_arith g tok' a b
  unfolding mutant_expr token_string sibling go_arith text_beq
  run_arith-mutant_expr g m add tok' a b h e = ground arith
  run_arith-mutant_expr g m _ tok' a b h e = ground arith

  run_bit-int_bit_expr :
      (g : Arith T) (m : Mutation) (tok tok' : Token) (a b : T)
      → bitwise_sibling tok ≡ some tok'
      → m.mutant ≡ token_string tok'
      → some (run_bit g (int_bit_expr m) a b) ≡ go_arith g tok' a b
  unfolding int_bit_expr token_string bitwise_sibling go_arith text_beq
  run_bit-int_bit_expr g m and tok' a b h e = ground arith
  run_bit-int_bit_expr g m _ tok' a b h e = ground arith

  run_cmp-boundary :
      (g : Compared T) (m : Mutation) (tok tok' : Token) (a b : T)
      → boundary_sibling tok ≡ some tok'
      → m.mutant ≡ token_string tok'
      → some (value (run_cmp g (int_cmp_expr m) a b)) ≡ go_cmp g tok' a b
  unfolding int_cmp_expr token_string boundary_sibling go_cmp text_beq
  run_cmp-boundary g m lss tok' a b h e = ground arith
  run_cmp-boundary g m _ tok' a b h e = ground arith

  run_cmp-negate :
      (g : Compared T) (m : Mutation) (tok tok' : Token) (a b : T)
      → negate_map tok ≡ some tok'
      → m.mutant ≡ token_string tok'
      → some (value (run_cmp g (int_cmp_expr m) a b)) ≡ go_cmp g tok' a b
  unfolding int_cmp_expr token_string negate_map go_cmp text_beq
  run_cmp-negate g m lss tok' a b h e = ground arith
  run_cmp-negate g m _ tok' a b h e = ground arith

single :
    (active : ℤ) (muts : List Mutation) (m : Mutation) (name : Text)
    → find_case muts m.id ≡ some m
    → m.operator_name ≡ name
    → active_case active (by_operator muts (name ∷ [])) (m.id ∷ [])
      ≡ (if is_active active m.id then some m else none)
single active muts m name h k =
    active_case_one active muts (name ∷ []) m h (contains-one name m.operator_name k)

abbrev comparisons : List Text
comparisons = codes "int_cmp_boundary" ∷ codes "int_cmp_negate" ∷ []

contains-boundary : (t : Text) → t ≡ codes "int_cmp_boundary" → contains comparisons t ≡ true
contains-boundary t h = ground (arith, text_beq_iff (codes "int_cmp_boundary") t)

contains-negate : (t : Text) → t ≡ codes "int_cmp_negate" → contains comparisons t ≡ true
contains-negate t h = ground (arith, text_beq_iff (codes "int_cmp_negate") t)

negate_case :
    (active : ℤ) (muts : List Mutation) (n : Mutation)
    → find_case muts n.id ≡ some n
    → n.operator_name ≡ codes "int_cmp_negate"
    → active_case active (by_operator muts comparisons) (n.id ∷ [])
      ≡ (if is_active active n.id then some n else none)
negate_case active muts n h k =
    active_case_one active muts comparisons n h (contains-negate n.operator_name k)

cmp_case :
    (active : ℤ) (muts : List Mutation) (m n : Mutation)
    → find_case muts m.id ≡ some m
    → m.operator_name ≡ codes "int_cmp_boundary"
    → find_case muts n.id ≡ some n
    → n.operator_name ≡ codes "int_cmp_negate"
    → active_case active (by_operator muts comparisons) (m.id ∷ n.id ∷ [])
      ≡ (if is_active active m.id then some m else if is_active active n.id then some n else none)
cmp_case active muts m n h k h' k' =
    active_case_two active muts comparisons m n h (contains-boundary m.operator_name k) h'
      (contains-negate n.operator_name k')

module _ (active : ℤ) (muts : List Mutation) {T : Type 0} where
  -- A rewritten integer operation computes the operator that the report names while its mutant is
  -- active, and what the source computes otherwise.
  pub rewrite_int_arith_lem :
      (g : Arith T) (m : Mutation) (tok tok' : Token) (a b : T)
      → sibling tok ≡ some tok'
      → Proposed muts m (codes "int_arith") tok'
      → rewrite_int_arith active muts g tok a b (m.id ∷ [])
        ≡ go_arith g (if is_active active m.id then tok' else tok) a b
  unfolding rewrite_int_arith cmut_int go_arith sibling opcode_const
  rewrite_int_arith_lem g m add tok' a b h p = ground (
    arith,
    single active muts m (codes "int_arith") p.listed p.of_operator,
    run_arith-mutant_expr g m add tok' a b h,
  )
  rewrite_int_arith_lem g m tok tok' a b h p = ground (
    arith,
    single active muts m (codes "int_arith") p.listed p.of_operator,
    run_arith-mutant_expr g m tok tok' a b h,
  )

  -- The same of a rewritten bitwise operation or shift.
  pub rewrite_int_bitwise_lem :
      (g : Arith T) (m : Mutation) (tok tok' : Token) (a b : T)
      → bitwise_sibling tok ≡ some tok'
      → Proposed muts m (codes "int_bitwise") tok'
      → rewrite_int_bitwise active muts g tok a b (m.id ∷ [])
        ≡ go_arith g (if is_active active m.id then tok' else tok) a b
  unfolding rewrite_int_bitwise cmut_int_bit go_arith bitwise_sibling bitwise_opcode_const
  rewrite_int_bitwise_lem g m and tok' a b h p = ground (
    arith,
    single active muts m (codes "int_bitwise") p.listed p.of_operator,
    run_bit-int_bit_expr g m and tok' a b h,
  )
  rewrite_int_bitwise_lem g m tok tok' a b h p = ground (
    arith,
    single active muts m (codes "int_bitwise") p.listed p.of_operator,
    run_bit-int_bit_expr g m tok tok' a b h,
  )

  -- An ordered comparison carries two mutants at one call site: its boundary neighbour and its
  -- negation. The call computes the one whose mutant is active, and the source's otherwise.
  pub emit_int_cmp_call_ordered :
      (g : Compared T) (m n : Mutation) (tok near negated : Token) (a b : T)
      → boundary_sibling tok ≡ some near
      → negate_map tok ≡ some negated
      → Proposed muts m (codes "int_cmp_boundary") near
      → Proposed muts n (codes "int_cmp_negate") negated
      → some (emit_int_cmp_call active muts g tok a b (m.id ∷ n.id ∷ []))
        ≡ go_cmp g
            (if is_active active m.id then near else if is_active active n.id then negated else tok)
            a
            b
  unfolding emit_int_cmp_call cmut_int_cmp go_cmp boundary_sibling negate_map cmp_opcode_const
  emit_int_cmp_call_ordered g m n lss near negated a b h k p q = ground (
    arith,
    cmp_case active muts m n p.listed p.of_operator q.listed q.of_operator,
    run_cmp-boundary g m lss near a b h,
    run_cmp-negate g n lss negated a b k,
  )
  emit_int_cmp_call_ordered g m n tok near negated a b h k p q = ground (
    arith,
    cmp_case active muts m n p.listed p.of_operator q.listed q.of_operator,
    run_cmp-boundary g m tok near a b h,
    run_cmp-negate g n tok negated a b k,
  )

  -- `==` and `!=` have no boundary neighbour, and carry the negation alone.
  pub emit_int_cmp_call_equality :
      (g : Compared T) (n : Mutation) (tok negated : Token) (a b : T)
      → boundary_sibling tok ≡ none
      → negate_map tok ≡ some negated
      → Proposed muts n (codes "int_cmp_negate") negated
      → some (emit_int_cmp_call active muts g tok a b (n.id ∷ []))
        ≡ go_cmp g (if is_active active n.id then negated else tok) a b
  unfolding emit_int_cmp_call cmut_int_cmp go_cmp boundary_sibling negate_map cmp_opcode_const
  emit_int_cmp_call_equality g n eql negated a b h k q = ground (
    arith,
    negate_case active muts n q.listed q.of_operator,
    run_cmp-negate g n eql negated a b k,
  )
  emit_int_cmp_call_equality g n tok negated a b h k q = ground (
    arith,
    negate_case active muts n q.listed q.of_operator,
    run_cmp-negate g n tok negated a b k,
  )

run_bool-bool_logic_expr :
    {S : Type 0} (m : Mutation) (tok tok' : Token) (a : Bool) (b : Run S Bool)
    → bool_sibling tok ≡ some tok'
    → m.mutant ≡ token_string tok'
    → some (run_bool (bool_logic_expr m) a b) ≡ go_bool tok' a b
unfolding bool_logic_expr token_string bool_sibling go_bool text_beq
run_bool-bool_logic_expr m land tok' a b h e = ground arith
run_bool-bool_logic_expr m _ tok' a b h e = ground arith

-- The same of `&&` and `||`, whose right operand is a closure: its effects happen exactly when Go
-- evaluates it.
pub rewrite_bool_logic_lem :
    (active : ℤ) (muts : List Mutation) {S : Type 0} (m : Mutation) (tok tok' : Token) (a : Bool)
    (b : Run S Bool)
    → bool_sibling tok ≡ some tok'
    → Proposed muts m (codes "bool_logic") tok'
    → some (rewrite_bool_logic active muts tok a b (m.id ∷ []))
      ≡ go_bool (if is_active active m.id then tok' else tok) a b
unfolding rewrite_bool_logic cmut_bool go_bool bool_sibling
rewrite_bool_logic_lem active muts m land tok' a b h p = ground (
  arith,
  single active muts m (codes "bool_logic") p.listed p.of_operator,
  run_bool-bool_logic_expr m land tok' a b h,
)
rewrite_bool_logic_lem active muts m tok tok' a b h p = ground (
  arith,
  single active muts m (codes "bool_logic") p.listed p.of_operator,
  run_bool-bool_logic_expr m tok tok' a b h,
)
