-- ===== src/Operators/Tests.antt =====
-- Example schemas for internal/operators: concrete mutants, types and call sites.
use kanly.Base.{
  ◌==◌, ℕ, zero, suc, ◌||◌, ◌+◌, ◌-◌, ◌*◌, ◌/◌, ◌%◌, ◌^◌, ◌≡◌, refl, Bool, true, false, not, Text,
  codes, List, [], ◌∷◌, some, ltb, leb, nat_beq, nat_eq, text_eq, contains, if◌then◌else◌, Distinct,
  ◌&&◌,
}
use kanly.Base.Int.{ℤ, pos, int_eq, leb_ℤ}
use kanly.Mutation.{Mutation}
use kanly.Go.{value, panic, Run, Arith, Compared}
use kanly.Schema.Dispatcher.{find_case}
use kanly.Operators.Binary.{
  add, sub, or, lss, leq, geq, neq, land, lor, token_string, sibling, boundary_sibling, negate_map,
  bool_sibling, go_arith, go_cmp, go_bool, rewrite_int_arith, emit_int_cmp_call, rewrite_bool_logic,
}
use kanly.Operators.Binary.Laws.{
  Proposed, rewrite_int_arith_lem, emit_int_cmp_call_ordered, rewrite_bool_logic_lem,
}
use kanly.Operators.IntLiteral.{uint8, int_lit_values, ids_of, rewrite_group}
use kanly.Operators.IntLiteral.Ranges.{is_alternate}
use kanly.Operators.IntLiteral.Laws.{int_lit_values_lem, rewrite_group_lem}

-- The lowest `k` bits of a bitwise operation.
abbrev bits : (Bool → Bool → Bool) → ℕ → ℕ → ℕ → ℕ
bits f zero a b = 0
bits f (suc k) a b =
    2 * bits f k (a / 2) (b / 2) + (if f (nat_beq (a % 2) 1) (nat_beq (b % 2) 1) then 1 else 0)

-- Go's uint8.
abbrev uint8_arith : Arith ℕ
uint8_arith = record {
  one = 1;
  add = λ a b. value ((a + b) % 256);
  sub = λ a b. value ((a + (256 - b)) % 256);
  mul = λ a b. value ((a * b) % 256);
  quo = λ a b. if nat_beq b 0 then panic (codes "integer divide by zero") else value (a / b);
  rem = λ a b. if nat_beq b 0 then panic (codes "integer divide by zero") else value (a % b);
  bit_and = λ a b. value (bits (λ p q. p && q) 8 a b);
  bit_or = λ a b. value (bits (λ p q. p || q) 8 a b);
  bit_xor = λ a b. value (bits (λ p q. not (p && q) && (p || q)) 8 a b);
  shl = λ a b. value ((a * 2 ^ b) % 256);
  shr = λ a b. value (a / 2 ^ b);
  and_not = λ a b. value (bits (λ p q. p && not q) 8 a b);
}

abbrev uint8_order : Compared ℕ
uint8_order = record {
  lt = ltb;
  le = leb;
  gt = λ a b. ltb b a;
  ge = λ a b. leb b a;
  eq = nat_beq;
  ne = λ a b. not (nat_beq a b);
}

abbrev mutation : ℕ → Text → Text → Text → Mutation
mutation id operator_name original mutant = record {
  id = id;
  pkg = codes "example.com/m";
  file = codes "/m/a.go";
  line = 3;
  column = 9;
  function = codes "F";
  operator_name = operator_name;
  original = original;
  mutant = mutant;
  fingerprint = codes "0123456789ab";
  package_init = false;
  cover_line = 0;
}

abbrev plus_to_minus : Mutation
plus_to_minus = mutation 1 (codes "int_arith") (codes "+") (codes "-")

abbrev and_to_or : Mutation
and_to_or = mutation 2 (codes "int_bitwise") (codes "&") (codes "|")

abbrev less_to_leq : Mutation
less_to_leq = mutation 3 (codes "int_cmp_boundary") (codes "<") (codes "<=")

abbrev less_to_geq : Mutation
less_to_geq = mutation 4 (codes "int_cmp_negate") (codes "<") (codes ">=")

abbrev eql_to_neq : Mutation
eql_to_neq = mutation 5 (codes "int_cmp_negate") (codes "==") (codes "!=")

abbrev land_to_lor : Mutation
land_to_lor = mutation 6 (codes "bool_logic") (codes "&&") (codes "||")

abbrev schema : List Mutation
schema = plus_to_minus ∷ and_to_or ∷ less_to_leq ∷ less_to_geq ∷ eql_to_neq ∷ land_to_lor ∷ []

plus_to_minus-Proposed : Proposed schema plus_to_minus (codes "int_arith") sub
unfolding find_case token_string
plus_to_minus-Proposed = record { listed = refl; of_operator = refl; proposes = refl }

and_to_or-Proposed : Proposed schema and_to_or (codes "int_bitwise") or
unfolding find_case token_string
and_to_or-Proposed = record { listed = refl; of_operator = refl; proposes = refl }

less_to_leq-Proposed : Proposed schema less_to_leq (codes "int_cmp_boundary") leq
unfolding find_case token_string
less_to_leq-Proposed = record { listed = refl; of_operator = refl; proposes = refl }

less_to_geq-Proposed : Proposed schema less_to_geq (codes "int_cmp_negate") geq
unfolding find_case token_string
less_to_geq-Proposed = record { listed = refl; of_operator = refl; proposes = refl }

eql_to_neq-Proposed : Proposed schema eql_to_neq (codes "int_cmp_negate") neq
unfolding find_case token_string
eql_to_neq-Proposed = record { listed = refl; of_operator = refl; proposes = refl }

land_to_lor-Proposed : Proposed schema land_to_lor (codes "bool_logic") lor
unfolding find_case token_string
land_to_lor-Proposed = record { listed = refl; of_operator = refl; proposes = refl }

-- With mutant 1 active, `200 + 100` is `200 - 100`.
rewrite_int_arith_lem_example :
    rewrite_int_arith (pos 1) schema uint8_arith add 200 100 (1 ∷ []) ≡ some (value 100)
unfolding sibling go_arith
rewrite_int_arith_lem_example =
    rewrite_int_arith_lem (pos 1) schema uint8_arith plus_to_minus add sub 200 100 refl
      plus_to_minus-Proposed

-- With mutant 3 active, `7 < 7` is `7 <= 7`.
emit_int_cmp_call_ordered_example :
    some (emit_int_cmp_call (pos 3) schema uint8_order lss 7 7 (3 ∷ 4 ∷ [])) ≡ some (value true)
unfolding boundary_sibling negate_map go_cmp
emit_int_cmp_call_ordered_example =
    emit_int_cmp_call_ordered (pos 3) schema uint8_order less_to_leq less_to_geq lss leq geq 7 7
      refl refl less_to_leq-Proposed less_to_geq-Proposed

-- A right operand that counts its evaluations.
abbrev counting : Run ℕ Bool
counting n = value (false, n + 1)

-- With mutant 6 active, `true && f()` is `true || f()`, which does not call `f`.
rewrite_bool_logic_lem_example :
    some (rewrite_bool_logic (pos 6) schema land true counting (6 ∷ [])) ≡ go_bool lor true counting
unfolding bool_sibling
rewrite_bool_logic_lem_example =
    rewrite_bool_logic_lem (pos 6) schema land_to_lor land lor true counting refl
      land_to_lor-Proposed

abbrev literal_mutants : List (ℤ × ℕ)
literal_mutants = (pos 0, 11) ∷ (pos 1, 12) ∷ (pos 6, 13) ∷ []

literal_mutants-Distinct : Distinct (ids_of literal_mutants)
unfolding ids_of
literal_mutants-Distinct = (refl, (refl, (refl, tt)))

-- The literal 5 with its mutant 6 active.
rewrite_group_lem_example : rewrite_group (pos 13) (pos 5) literal_mutants ≡ pos 6
rewrite_group_lem_example =
    rewrite_group_lem (pos 13) (pos 5) literal_mutants literal_mutants-Distinct

-- The byte 255 has the mutants 0, 1 and 254, and neither -255 nor 256.
int_lit_values_lem_example :
    Distinct (int_lit_values (pos 255) uint8)
    × ((v : ℤ)
        → contains (int_lit_values (pos 255) uint8) v ≡ (
            is_alternate (pos 255) v
            && ((leb_ℤ (pos 0) v && leb_ℤ v (pos 255)) && not (pos 255 == v))))
int_lit_values_lem_example = int_lit_values_lem (pos 255) uint8
