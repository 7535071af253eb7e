-- ===== src/Operators/Binary.antt =====
-- The operator tables and rewrites of internal/operators/arithmetic.go, bitwise.go, comparison.go
-- and boolean.go, for a binary expression with evaluated operands.
pub mod Laws
use kanly.Base.{ℕ, Bool, Text, codes, List, [], ◌∷◌, Option, none, some}
use kanly.Base.Int.{ℤ}
use kanly.Mutation.{Mutation}
use kanly.Go.{Outcome, value, Run, Arith, Compared}
use kanly.Schema.Dispatcher.{a_and_then_b, a_or_else_b}
use kanly.Schema.Runtime.{
  c_add, c_sub, c_mul, c_quo, c_rem, c_lt, c_le, c_gt, c_ge, c_eq, c_ne, c_and, c_or, c_and2, c_or2,
  c_xor, c_shl, c_shr, c_and_not, cmut_int, cmut_int_bit, cmut_int_cmp, cmut_bool, run_bool,
}

-- The operators of go/token that the tables name.
pub data Token : Type 0 where
  add sub mul quo rem : Token
  and or xor shl shr and_not : Token
  lss leq gtr geq eql neq : Token
  land lor : Token

unfoldable pub token_string : Token → Text
token_string add = codes "+"
token_string sub = codes "-"
token_string mul = codes "*"
token_string quo = codes "/"
token_string rem = codes "%"
token_string and = codes "&"
token_string or = codes "|"
token_string xor = codes "^"
token_string shl = codes "<<"
token_string shr = codes ">>"
token_string and_not = codes "&^"
token_string lss = codes "<"
token_string leq = codes "<="
token_string gtr = codes ">"
token_string geq = codes ">="
token_string eql = codes "=="
token_string neq = codes "!="
token_string land = codes "&&"
token_string lor = codes "||"

unfoldable pub sibling : Token → Option Token
sibling add = some sub
sibling sub = some add
sibling mul = some quo
sibling quo = some mul
sibling rem = some mul
sibling _ = none

pub opcode_const : Token → Option ℕ
opcode_const add = some c_add
opcode_const sub = some c_sub
opcode_const mul = some c_mul
opcode_const quo = some c_quo
opcode_const rem = some c_rem
opcode_const _ = none

unfoldable pub bitwise_sibling : Token → Option Token
bitwise_sibling and = some or
bitwise_sibling or = some and
bitwise_sibling xor = some and
bitwise_sibling shl = some shr
bitwise_sibling shr = some shl
bitwise_sibling and_not = some and
bitwise_sibling _ = none

pub bitwise_opcode_const : Token → Option ℕ
bitwise_opcode_const and = some c_and2
bitwise_opcode_const or = some c_or2
bitwise_opcode_const xor = some c_xor
bitwise_opcode_const shl = some c_shl
bitwise_opcode_const shr = some c_shr
bitwise_opcode_const and_not = some c_and_not
bitwise_opcode_const _ = none

unfoldable pub boundary_sibling : Token → Option Token
boundary_sibling lss = some leq
boundary_sibling leq = some lss
boundary_sibling gtr = some geq
boundary_sibling geq = some gtr
boundary_sibling _ = none

unfoldable pub negate_map : Token → Option Token
negate_map lss = some geq
negate_map gtr = some leq
negate_map leq = some gtr
negate_map geq = some lss
negate_map eql = some neq
negate_map neq = some eql
negate_map _ = none

-- Any other operator falls back to `__cLT`, as in `emitIntCmpCall`.
pub cmp_opcode_const : Token → ℕ
cmp_opcode_const lss = c_lt
cmp_opcode_const leq = c_le
cmp_opcode_const gtr = c_gt
cmp_opcode_const geq = c_ge
cmp_opcode_const eql = c_eq
cmp_opcode_const neq = c_ne
cmp_opcode_const _ = c_lt

-- The token that `BoolLogic.Find` proposes: `lor` for `land`, and otherwise `land`.
unfoldable pub bool_sibling : Token → Option Token
bool_sibling land = some lor
bool_sibling lor = some land
bool_sibling _ = none

-- What Go computes for `a op b`; `none` where the operator is of another kind.
unfoldable pub go_arith : {T : Type 0} → Arith T → Token → T → T → Option (Outcome T)
go_arith g add a b = some (g.add a b)
go_arith g sub a b = some (g.sub a b)
go_arith g mul a b = some (g.mul a b)
go_arith g quo a b = some (g.quo a b)
go_arith g rem a b = some (g.rem a b)
go_arith g and a b = some (g.bit_and a b)
go_arith g or a b = some (g.bit_or a b)
go_arith g xor a b = some (g.bit_xor a b)
go_arith g shl a b = some (g.shl a b)
go_arith g shr a b = some (g.shr a b)
go_arith g and_not a b = some (g.and_not a b)
go_arith g _ a b = none

unfoldable pub go_cmp : {T : Type 0} → Compared T → Token → T → T → Option (Outcome Bool)
go_cmp g lss a b = some (value (g.lt a b))
go_cmp g leq a b = some (value (g.le a b))
go_cmp g gtr a b = some (value (g.gt a b))
go_cmp g geq a b = some (value (g.ge a b))
go_cmp g eql a b = some (value (g.eq a b))
go_cmp g neq a b = some (value (g.ne a b))
go_cmp g _ a b = none

unfoldable pub go_bool : {S : Type 0} → Token → Bool → Run S Bool → Option (Run S Bool)
go_bool land a b = some (run_bool a_and_then_b a b)
go_bool lor a b = some (run_bool a_or_else_b a b)
go_bool _ a b = none

module _ (active : ℤ) (muts : List Mutation) where
  -- The run of the call that each `Rewrite` returns. An operator outside the table has no opcode,
  -- and the call does not compile.
  pub rewrite_int_arith : {T : Type 0} → Arith T → Token → T → T → List ℕ → Option (Outcome T)
  rewrite_int_arith g op a b ids = elim (opcode_const op) [
    | none ↦ none
    | some code ↦ some (cmut_int active muts g a b code ids)
  ]

  pub rewrite_int_bitwise : {T : Type 0} → Arith T → Token → T → T → List ℕ → Option (Outcome T)
  rewrite_int_bitwise g op a b ids = elim (bitwise_opcode_const op) [
    | none ↦ none
    | some code ↦ some (cmut_int_bit active muts g a b code ids)
  ]

  pub emit_int_cmp_call : {T : Type 0} → Compared T → Token → T → T → List ℕ → Outcome Bool
  emit_int_cmp_call g op a b ids = cmut_int_cmp active muts g a b (cmp_opcode_const op) ids

  -- `BoolLogic.Rewrite` reads every operator but `&&` as `||`.
  abbrev bool_opcode : Token → ℕ
  bool_opcode land = c_and
  bool_opcode _ = c_or

  pub rewrite_bool_logic : {S : Type 0} → Token → Bool → Run S Bool → List ℕ → Run S Bool
  rewrite_bool_logic op a b ids = cmut_bool active muts a b (bool_opcode op) ids
