-- ===== src/Operators/IntLiteral.antt =====
-- internal/operators/int_literal.go: the mutants of an integer literal and its rewrite.
pub mod Ranges
pub mod Laws
use kanly.Base.{
  ℕ, ◌+◌, ◌-◌, ◌*◌, ◌/◌, ◌^◌, ◌≤◌, Bool, true, false, not, ◌&&◌, ◌||◌, List, [], ◌∷◌, ◌++◌, map,
  contains, ◌==◌, nat_eq, Text, if◌then◌else◌, codes, text_eq,
}
use kanly.Base.Int.{ℤ, pos, negsuc, ◌+ℤ◌, ◌*ℤ◌, neg, leb_ℤ, ltb_ℤ, int_eq, wrap_64}
use kanly.Base.Decimal.{format_int}
use kanly.Schema.Plain.{cmut_lit_off, cmut_lit_on}

-- The kinds of an integer type that `intRange` tells apart.
pub data Kind : Type 0 where
  int int8 int16 int32 int64 uint uint8 uint16 uint32 uint64 uintptr : Kind

is_unsigned : Kind → Bool
is_unsigned uint = true
is_unsigned uint8 = true
is_unsigned uint16 = true
is_unsigned uint32 = true
is_unsigned uint64 = true
is_unsigned uintptr = true
is_unsigned _ = false

abbrev max_int32 : ℤ
max_int32 = pos (2 ^ 31 - 1)

abbrev min_int32 : ℤ
min_int32 = negsuc (2 ^ 31 - 1)

abbrev max_uint32 : ℤ
max_uint32 = pos (2 ^ 32 - 1)

pub bits_for : Kind → ℤ → ℕ
bits_for int8 n = 8
bits_for uint8 n = 8
bits_for int16 n = 16
bits_for uint16 n = 16
bits_for int32 n = 32
bits_for uint32 n = 32
bits_for int n = if leb_ℤ min_int32 n && leb_ℤ n max_int32 then 32 else 64
bits_for uint n = if leb_ℤ (pos 0) n && leb_ℤ n max_uint32 then 32 else 64
bits_for uintptr n = if leb_ℤ (pos 0) n && leb_ℤ n max_uint32 then 32 else 64
bits_for _ n = 64

pub record Range : Type 0 where
  pub lo : ℤ
  pub hi : ℤ

unfoldable pub int_range : Kind → ℤ → Range
unfolding is_unsigned bits_for
int_range t n =
    let bits = bits_for t n in
    if is_unsigned t
    then record { lo = pos 0; hi = pos ((if bits == 64 then 2 ^ 63 else 2 ^ bits) - 1) }
    else record { lo = negsuc (2 ^ (bits - 1) - 1); hi = pos (2 ^ (bits - 1) - 1) }

-- The closure `consider`; `out` holds the mutant values found so far, and `seen` those and `n`.
abbrev pub consider : ℤ → Range → List ℤ → ℤ → List ℤ
consider n r out v =
    if (n == v || contains out v) || (ltb_ℤ v r.lo || ltb_ℤ r.hi v) then out else out ++ v ∷ []

abbrev pub considered : ℤ → Range → List ℤ → List ℤ → List ℤ
considered n r out [] = out
considered n r out (v ∷ vs) = considered n r (consider n r out v) vs

abbrev pub alternates : ℤ → List ℤ
alternates n = pos 0 ∷ pos 1 ∷ wrap_64 (neg n) ∷ wrap_64 (n +ℤ pos 1) ∷ wrap_64 (n +ℤ negsuc 0) ∷ []

-- The values behind `intLitMutants`, for a literal that `strconv.ParseInt` reads as `n`.
unfoldable pub int_lit_values : ℤ → Kind → List ℤ
int_lit_values n t =
    let r = int_range t n in if ltb_ℤ r.hi n then [] else considered n r [] (alternates n)

unfoldable pub int_lit_mutants : ℤ → Kind → List Text
int_lit_mutants n t = map format_int (int_lit_values n t)

-- 1 >> k
abbrev one_shr : ℕ → ℕ
one_shr k = 1 / 2 ^ k

-- `RewriteGroup` for a type other than plain int: the value of the sum at a call site, with a term
-- `v*(1>>__cMutLitOn(id))` for each mutant but zero.
unfoldable pub terms : ℤ → ℤ → List (ℤ × ℕ) → ℤ
terms active sum [] = sum
terms active sum ((v, i) ∷ cands) =
    terms active (if v == pos 0 then sum else sum +ℤ v *ℤ pos (one_shr (cmut_lit_on active i)))
      cands

unfoldable pub ids_of : List (ℤ × ℕ) → List ℕ
ids_of [] = []
ids_of ((v, i) ∷ cands) = i ∷ ids_of cands

unfoldable pub rewrite_group : ℤ → ℤ → List (ℤ × ℕ) → ℤ
rewrite_group active n cands =
    terms active (n *ℤ pos (one_shr (cmut_lit_off active (ids_of cands)))) cands
