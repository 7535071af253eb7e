-- ===== src/Schema/Dispatcher.antt =====
-- internal/schema/dispatcher.go: the expression that each case of a generated switch returns, and
-- the mutations that each dispatcher has cases for.
use kanly.Base.{
  ℕ, Text, codes, List, [], ◌∷◌, Option, none, some, ◌==◌, text_eq, nat_eq, contains, keep,
  if◌then◌else◌, ◌≡◌, true, arith,
}
use kanly.Mutation.{Mutation}

-- "a + b", "a - b", and so on.
pub data ArithExpr : Type 0 where
  a_plus_b a_minus_b a_times_b a_over_b a_rem_b : ArithExpr

pub data BitExpr : Type 0 where
  a_and_b a_or_b a_xor_b a_shl_b a_shr_b a_and_not_b : BitExpr

pub data CmpExpr : Type 0 where
  a_lt_b a_le_b a_gt_b a_ge_b a_eq_b a_ne_b : CmpExpr

pub data BoolExpr : Type 0 where
  a_and_then_b a_or_else_b : BoolExpr

pub data IdxExpr : Type 0 where
  i_plus_1 i_minus_1 just_i : IdxExpr

unfoldable pub bool_logic_expr : Mutation → BoolExpr
bool_logic_expr m = if m.mutant == codes "&&" then a_and_then_b else a_or_else_b

unfoldable pub mutant_expr : Mutation → ArithExpr
mutant_expr m =
    if m.mutant == codes "+"
    then a_plus_b
    else if m.mutant == codes "-"
    then a_minus_b
    else if m.mutant == codes "*"
    then a_times_b
    else if m.mutant == codes "/"
    then a_over_b
    else if m.mutant == codes "%"
    then a_rem_b
    else a_plus_b

unfoldable pub slice_idx_expr : Mutation → IdxExpr
slice_idx_expr m =
    if m.mutant == codes "+1"
    then i_plus_1
    else if m.mutant == codes "-1"
    then i_minus_1
    else just_i

unfoldable pub int_bit_expr : Mutation → BitExpr
int_bit_expr m =
    if m.mutant == codes "&"
    then a_and_b
    else if m.mutant == codes "|"
    then a_or_b
    else if m.mutant == codes "^"
    then a_xor_b
    else if m.mutant == codes "<<"
    then a_shl_b
    else if m.mutant == codes ">>"
    then a_shr_b
    else if m.mutant == codes "&^"
    then a_and_not_b
    else a_and_b

unfoldable pub int_cmp_expr : Mutation → CmpExpr
int_cmp_expr m =
    if m.mutant == codes "<"
    then a_lt_b
    else if m.mutant == codes "<="
    then a_le_b
    else if m.mutant == codes ">"
    then a_gt_b
    else if m.mutant == codes ">="
    then a_ge_b
    else if m.mutant == codes "=="
    then a_eq_b
    else if m.mutant == codes "!="
    then a_ne_b
    else a_lt_b

unfoldable pub by_operator : List Mutation → List Text → List Mutation
by_operator muts names = keep (λ m. contains names m.operator_name) muts

-- The case for an ID in a generated switch.
unfoldable pub find_case : List Mutation → ℕ → Option Mutation
find_case [] i = none
find_case (m ∷ muts) i = if m.id == i then some m else find_case muts i

pub find_case-by_operator :
    (muts : List Mutation) (names : List Text) (i : ℕ) (m : Mutation)
    → find_case muts i ≡ some m
    → contains names m.operator_name ≡ true
    → find_case (by_operator muts names) i ≡ some m
unfolding find_case by_operator
find_case-by_operator [] names i m h k = cc
find_case-by_operator (n ∷ muts) names i m h k =
    ground (arith, find_case-by_operator muts names i m)
