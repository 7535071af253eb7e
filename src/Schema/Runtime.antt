-- ===== src/Schema/Runtime.antt =====
-- internal/schema/template.go: the generated dispatchers. Each takes the mutations that its switch
-- was generated from; `active` is the variable `__kanlyActiveMutant`.
use kanly.Base.{
  ℕ, Bool, true, false, not, Text, codes, List, [], ◌∷◌, Option, none, some, ◌==◌, nat_eq,
  if◌then◌else◌, any,
}
use kanly.Base.Int.{ℤ, pos, negsuc, int_eq, leb_ℤ}
use kanly.Base.Decimal.{atoi}
use kanly.Mutation.{Mutation}
use kanly.Go.{Outcome, value, panic, Run, return, Arith, Compared}
use kanly.Schema.Dispatcher.{
  ArithExpr, a_plus_b, a_minus_b, a_times_b, a_over_b, a_rem_b, BitExpr, a_and_b, a_or_b, a_xor_b,
  a_shl_b, a_shr_b, a_and_not_b, CmpExpr, a_lt_b, a_le_b, a_gt_b, a_ge_b, a_eq_b, a_ne_b, BoolExpr,
  a_and_then_b, a_or_else_b, i_plus_1, i_minus_1, just_i, bool_logic_expr, mutant_expr,
  slice_idx_expr, int_bit_expr, int_cmp_expr, by_operator, find_case,
}

-- The opcode constants of the generated file.
abbrev pub c_add : ℕ
c_add = 1

abbrev pub c_sub : ℕ
c_sub = 2

abbrev pub c_mul : ℕ
c_mul = 3

abbrev pub c_quo : ℕ
c_quo = 4

abbrev pub c_rem : ℕ
c_rem = 5

abbrev pub c_lt : ℕ
c_lt = 11

abbrev pub c_le : ℕ
c_le = 12

abbrev pub c_gt : ℕ
c_gt = 13

abbrev pub c_ge : ℕ
c_ge = 14

abbrev pub c_eq : ℕ
c_eq = 15

abbrev pub c_ne : ℕ
c_ne = 16

abbrev pub c_and : ℕ
c_and = 21

abbrev pub c_or : ℕ
c_or = 22

abbrev pub c_and2 : ℕ
c_and2 = 31

abbrev pub c_or2 : ℕ
c_or2 = 32

abbrev pub c_xor : ℕ
c_xor = 33

abbrev pub c_shl : ℕ
c_shl = 34

abbrev pub c_shr : ℕ
c_shr = 35

abbrev pub c_and_not : ℕ
c_and_not = 36

-- The value of `KANLY_MUTANT`, or -1 where it holds no positive number.
unfoldable pub read_active_mutant : Text → ℤ
read_active_mutant env = elim (atoi env) [
  | none ↦ negsuc 0
  | some v ↦ if leb_ℤ v (pos 0) then negsuc 0 else v
]

abbrev pub is_active : ℤ → ℕ → Bool
is_active active i = pos i == active

-- for _, id := range mutIDs { if id == __kanlyActiveMutant { return … } }
abbrev pub any_active : ℤ → List ℕ → Bool
any_active active ids = any (is_active active) ids

-- for _, id := range mutIDs { if id == __kanlyActiveMutant { switch id { case …: return … } } }
unfoldable pub active_case : ℤ → List Mutation → List ℕ → Option Mutation
unfolding find_case
active_case active muts [] = none
active_case active muts (i ∷ ids) =
    let rest = active_case active muts ids in
    if is_active active i then elim (find_case muts i) [ none ↦ rest | some m ↦ some m ] else rest

abbrev pub run_arith : {T : Type 0} → Arith T → ArithExpr → T → T → Outcome T
run_arith g a_plus_b a b = g.add a b
run_arith g a_minus_b a b = g.sub a b
run_arith g a_times_b a b = g.mul a b
run_arith g a_over_b a b = g.quo a b
run_arith g a_rem_b a b = g.rem a b

abbrev pub run_bit : {T : Type 0} → Arith T → BitExpr → T → T → Outcome T
run_bit g a_and_b a b = g.bit_and a b
run_bit g a_or_b a b = g.bit_or a b
run_bit g a_xor_b a b = g.bit_xor a b
run_bit g a_shl_b a b = g.shl a b
run_bit g a_shr_b a b = g.shr a b
run_bit g a_and_not_b a b = g.and_not a b

abbrev pub run_cmp : {T : Type 0} → Compared T → CmpExpr → T → T → Bool
run_cmp g a_lt_b a b = g.lt a b
run_cmp g a_le_b a b = g.le a b
run_cmp g a_gt_b a b = g.gt a b
run_cmp g a_ge_b a b = g.ge a b
run_cmp g a_eq_b a b = g.eq a b
run_cmp g a_ne_b a b = g.ne a b

-- The right operand of `&&` and `||` is a closure, called only where Go evaluates it.
abbrev pub run_bool : {S : Type 0} → BoolExpr → Bool → Run S Bool → Run S Bool
run_bool a_and_then_b true b = b
run_bool a_and_then_b false b = return false
run_bool a_or_else_b true b = return true
run_bool a_or_else_b false b = b

module _ (active : ℤ) (muts : List Mutation) where
  unfoldable pub cmut_int : {T : Type 0} → Arith T → T → T → ℕ → List ℕ → Outcome T
  cmut_int g a b op ids =
      elim (active_case active (by_operator muts (codes "int_arith" ∷ [])) ids) [
        | some m ↦ run_arith g (mutant_expr m) a b
        | none ↦
            if op == c_add
            then g.add a b
            else if op == c_sub
            then g.sub a b
            else if op == c_mul
            then g.mul a b
            else if op == c_quo
            then g.quo a b
            else if op == c_rem
            then g.rem a b
            else panic (codes "__cMutInt: unknown op")
      ]

  unfoldable pub cmut_float : {T : Type 0} → Arith T → T → T → ℕ → List ℕ → Outcome T
  cmut_float g a b op ids =
      elim (active_case active (by_operator muts (codes "float_arith" ∷ [])) ids) [
        | some m ↦ run_arith g (mutant_expr m) a b
        | none ↦
            if op == c_add
            then g.add a b
            else if op == c_sub
            then g.sub a b
            else if op == c_mul
            then g.mul a b
            else if op == c_quo
            then g.quo a b
            else panic (codes "__cMutFloat: unknown op")
      ]

  unfoldable pub cmut_float_cmp : {T : Type 0} → Compared T → T → T → ℕ → List ℕ → Outcome Bool
  cmut_float_cmp g a b op ids =
      elim (active_case active
        (by_operator muts (codes "float_cmp_boundary" ∷ codes "float_cmp_negate" ∷ [])) ids) [
          | some m ↦ value (run_cmp g (int_cmp_expr m) a b)
          | none ↦
              if op == c_lt
              then value (g.lt a b)
              else if op == c_le
              then value (g.le a b)
              else if op == c_gt
              then value (g.gt a b)
              else if op == c_ge
              then value (g.ge a b)
              else if op == c_eq
              then value (g.eq a b)
              else if op == c_ne
              then value (g.ne a b)
              else panic (codes "__cMutFloatCmp: unknown op")
        ]

  unfoldable pub cmut_int_cmp : {T : Type 0} → Compared T → T → T → ℕ → List ℕ → Outcome Bool
  cmut_int_cmp g a b op ids =
      elim (active_case active
        (by_operator muts (codes "int_cmp_boundary" ∷ codes "int_cmp_negate" ∷ [])) ids) [
          | some m ↦ value (run_cmp g (int_cmp_expr m) a b)
          | none ↦
              if op == c_lt
              then value (g.lt a b)
              else if op == c_le
              then value (g.le a b)
              else if op == c_gt
              then value (g.gt a b)
              else if op == c_ge
              then value (g.ge a b)
              else if op == c_eq
              then value (g.eq a b)
              else if op == c_ne
              then value (g.ne a b)
              else panic (codes "__cMutIntCmp: unknown op")
        ]

  unfoldable pub cmut_bool : {S : Type 0} → Bool → Run S Bool → ℕ → List ℕ → Run S Bool
  cmut_bool a b op ids =
      elim (active_case active (by_operator muts (codes "bool_logic" ∷ [])) ids) [
        | some m ↦ run_bool (bool_logic_expr m) a b
        | none ↦
            if op == c_and
            then run_bool a_and_then_b a b
            else if op == c_or
            then run_bool a_or_else_b a b
            else λ s. panic (codes "__cMutBool: unknown op")
      ]

  unfoldable pub cmut_not : Bool → List ℕ → Bool
  cmut_not x ids = elim (active_case active (by_operator muts (codes "bool_not" ∷ [])) ids) [
    | some m ↦ x
    | none ↦ not x
  ]

  -- `none` is the nil error.
  unfoldable pub cmut_err : {E : Type 0} → Option E → List ℕ → Option E
  cmut_err x ids = elim (active_case active (by_operator muts (codes "err_return_nil" ∷ [])) ids) [
    | some m ↦ none
    | none ↦ x
  ]

  unfoldable pub cmut_idx : {T : Type 0} → Arith T → T → List ℕ → Outcome T
  cmut_idx g i ids =
      elim (active_case active (by_operator muts (codes "slice_index" ∷ codes "slice_range" ∷ []))
        ids) [
          | some m ↦ elim (slice_idx_expr m) [
            | i_plus_1 ↦ g.add i g.one
            | i_minus_1 ↦ g.sub i g.one
            | just_i ↦ value i
          ]
          | none ↦ value i
        ]

  unfoldable pub cmut_int_bit : {T : Type 0} → Arith T → T → T → ℕ → List ℕ → Outcome T
  cmut_int_bit g a b op ids =
      elim (active_case active (by_operator muts (codes "int_bitwise" ∷ [])) ids) [
        | some m ↦ run_bit g (int_bit_expr m) a b
        | none ↦
            if op == c_and2
            then g.bit_and a b
            else if op == c_or2
            then g.bit_or a b
            else if op == c_xor
            then g.bit_xor a b
            else if op == c_shl
            then g.shl a b
            else if op == c_shr
            then g.shr a b
            else if op == c_and_not
            then g.and_not a b
            else panic (codes "__cMutIntBit: unknown op")
      ]

  -- `none` is a case that is no numeral, which does not compile.
  unfoldable pub cmut_int_lit : ℤ → List ℕ → Option ℤ
  cmut_int_lit orig ids =
      elim (active_case active (by_operator muts (codes "int_literal" ∷ [])) ids) [
        | some m ↦ atoi m.mutant
        | none ↦ some orig
      ]
