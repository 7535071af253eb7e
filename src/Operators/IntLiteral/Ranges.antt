-- ===== src/Operators/IntLiteral/Ranges.antt =====
-- internal/operators/int_literal.go: the bounds of the integer types, and the values that may replace a
-- literal.
use kanly.Base.{◌≡◌, refl, Bool, ◌&&◌, ◌||◌, ◌==◌, Bool-cases, inl, inr, if◌then◌else◌}
use kanly.Base.Int.{ℤ, pos, negsuc, ◌+ℤ◌, neg, leb_ℤ, int_eq, wrap_64}
use kanly.Operators.IntLiteral.{
  Kind, int, int8, int16, int32, int64, uint, uint8, uint16, uint32, uint64, uintptr, int_range,
}

-- One of 0, 1, -n, n+1 and n-1, in 64-bit arithmetic.
abbrev pub is_alternate : ℤ → ℤ → Bool
is_alternate n v =
    pos 0 == v
    || (pos 1 == v
        || (wrap_64 (neg n) == v || (wrap_64 (n +ℤ pos 1) == v || wrap_64 (n +ℤ negsuc 0) == v)))

-- The type with a fixed width that a type counts as beside the literal `n`.
abbrev pub sized : Kind → ℤ → Kind
sized int n = if leb_ℤ (negsuc 2147483647) n && leb_ℤ n (pos 2147483647) then int32 else int64
sized uint n = if leb_ℤ (pos 0) n && leb_ℤ n (pos 4294967295) then uint32 else uint64
sized uintptr n = if leb_ℤ (pos 0) n && leb_ℤ n (pos 4294967295) then uint32 else uint64
sized t n = t

abbrev pub smallest : Kind → ℤ
smallest int8 = negsuc 127
smallest int16 = negsuc 32767
smallest int32 = negsuc 2147483647
smallest int64 = negsuc 9223372036854775807
smallest int = negsuc 9223372036854775807
smallest _ = pos 0

-- That of uint64 is beyond int64.
abbrev pub largest : Kind → ℤ
largest int8 = pos 127
largest int16 = pos 32767
largest int32 = pos 2147483647
largest uint8 = pos 255
largest uint16 = pos 65535
largest uint32 = pos 4294967295
largest _ = pos 9223372036854775807

pub int_range-sized :
    (t : Kind) (n : ℤ)
    → int_range t n ≡ record { lo = smallest (sized t n); hi = largest (sized t n) }
unfolding int_range
int_range-sized int n =
    elim (Bool-cases (leb_ℤ (negsuc 2147483647) n && leb_ℤ n (pos 2147483647))) [
      | inl b ↦ rw b refl
      | inr b ↦ rw b refl
    ]
int_range-sized uint n = elim (Bool-cases (leb_ℤ (pos 0) n && leb_ℤ n (pos 4294967295))) [
  | inl b ↦ rw b refl
  | inr b ↦ rw b refl
]
int_range-sized uintptr n = elim (Bool-cases (leb_ℤ (pos 0) n && leb_ℤ n (pos 4294967295))) [
  | inl b ↦ rw b refl
  | inr b ↦ rw b refl
]
int_range-sized int8 n = refl
int_range-sized int16 n = refl
int_range-sized int32 n = refl
int_range-sized int64 n = refl
int_range-sized uint8 n = refl
int_range-sized uint16 n = refl
int_range-sized uint32 n = refl
int_range-sized uint64 n = refl
