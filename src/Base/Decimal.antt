-- ===== src/Base/Decimal.antt =====
-- `strconv.Atoi` and `strconv.Itoa` at 64 bits, and what one reads of the other.
use kanly.Base.{
  ℕ, zero, suc, ◌+◌, ◌-◌, ◌*◌, ◌/◌, ◌%◌, ◌^◌, ◌<◌, ◌≡◌, refl, Bool, true, false, ◌&&◌, Option, none,
  some, [], ◌∷◌, arith, ltb, leb, nat_beq, Text, any, if◌then◌else◌,
}
use kanly.Base.Int.{ℤ, pos, negsuc, neg}

abbrev pub is_digit : ℕ → Bool
is_digit c = leb b'0' c && leb c b'9'

-- The value of a text of digits, after `acc`; `none` at any other byte.
unfoldable pub digits_value : ℕ → Text → Option ℕ
digits_value acc [] = some acc
digits_value acc (c ∷ s) =
    let rest = digits_value (acc * 10 + (c - b'0')) s in if is_digit c then rest else none

-- No digit at all is an error too.
unfoldable pub unsigned : Text → Option ℕ
unfolding digits_value
unsigned [] = none
unsigned (c ∷ s) = digits_value 0 (c ∷ s)

abbrev in_range_pos : ℕ → Option ℤ
in_range_pos n = if ltb n (2 ^ 63) then some (pos n) else none

abbrev in_range_neg : ℕ → Option ℤ
in_range_neg n = if leb n (2 ^ 63) then some (neg (pos n)) else none

abbrev signed : Bool → Text → Option ℤ
signed minus s = elim (unsigned s) [
  | none ↦ none
  | some n ↦ if minus then in_range_neg n else in_range_pos n
]

-- `strconv.Atoi`: decimal digits behind at most one sign, within 64 bits.
unfoldable pub atoi : Text → Option ℤ
unfolding unsigned neg
atoi [] = none
atoi (c ∷ s) =
    if nat_beq c b'-'
    then signed true s
    else if nat_beq c b'+'
    then signed false s
    else signed false (c ∷ s)

itoa_loop : ℕ → ℕ → Text → Text
itoa_loop zero n acc = acc
itoa_loop (suc f) n acc =
    let rest = itoa_loop f (n / 10) ((b'0' + n % 10) ∷ acc) in
    if ltb n 10 then (b'0' + n) ∷ acc else rest

-- A number has fewer digits than its successor counts.
unfoldable pub itoa : ℕ → Text
unfolding itoa_loop
itoa n = itoa_loop (n + 1) n []

-- `strconv.FormatInt(v, 10)`.
unfoldable pub format_int : ℤ → Text
unfolding itoa
format_int (pos n) = itoa n
format_int (negsuc n) = b'-' ∷ itoa (n + 1)

digits_value-itoa_loop :
    (f n : ℕ) (acc : Text) → n < f → digits_value 0 (itoa_loop f n acc) ≡ digits_value n acc
unfolding digits_value itoa_loop
digits_value-itoa_loop zero n acc h = elim h [ ]
digits_value-itoa_loop (suc f) n acc h =
    ground (arith, digits_value-itoa_loop f (n / 10) ((b'0' + n % 10) ∷ acc))

-- The first byte of a number in decimal is a digit.
starts_digit : Text → Bool
starts_digit [] = false
starts_digit (c ∷ s) = is_digit c

itoa_loop-starts_digit : (f n : ℕ) (acc : Text) → n < f → starts_digit (itoa_loop f n acc) ≡ true
unfolding itoa_loop starts_digit
itoa_loop-starts_digit zero n acc h = elim h [ ]
itoa_loop-starts_digit (suc f) n acc h =
    ground (arith, itoa_loop-starts_digit f (n / 10) ((b'0' + n % 10) ∷ acc))

atoi_of_digits :
    (s : Text) (n : ℕ)
    → starts_digit s ≡ true
    → digits_value 0 s ≡ some n
    → n < 2 ^ 63
    → atoi s ≡ some (pos n)
unfolding atoi starts_digit
atoi_of_digits [] n d h lt = cc
atoi_of_digits (c ∷ s) n d h lt = ground arith

pub atoi-itoa : (n : ℕ) → n < 2 ^ 63 → atoi (itoa n) ≡ some (pos n)
unfolding itoa digits_value
atoi-itoa n h =
    atoi_of_digits (itoa n) n (itoa_loop-starts_digit (n + 1) n [] (omega arith))
      (digits_value-itoa_loop (n + 1) n [] (omega arith)) h

pub digits_value-itoa : (n : ℕ) → digits_value 0 (itoa n) ≡ some n
unfolding itoa digits_value
digits_value-itoa n = digits_value-itoa_loop (n + 1) n [] (omega arith)

abbrev pub all_digits : Text → Bool
all_digits [] = true
all_digits (c ∷ s) = is_digit c && all_digits s

itoa_loop-all_digits :
    (f n : ℕ) (acc : Text) → n < f → all_digits acc ≡ true → all_digits (itoa_loop f n acc) ≡ true
unfolding itoa_loop
itoa_loop-all_digits zero n acc h d = elim h [ ]
itoa_loop-all_digits (suc f) n acc h d =
    ground (arith, itoa_loop-all_digits f (n / 10) ((b'0' + n % 10) ∷ acc))

-- A number in decimal is digits only, and not empty.
pub itoa-digits : (n : ℕ) → (all_digits (itoa n) ≡ true) × ((c : ℕ) × (s : Text) × (itoa n ≡ c ∷ s))
unfolding itoa starts_digit
itoa-digits n = (
  itoa_loop-all_digits (n + 1) n [] (omega arith) refl,
  head (itoa_loop (n + 1) n []) (itoa_loop-starts_digit (n + 1) n [] (omega arith)),
)
  where
    head : (t : Text) → starts_digit t ≡ true → (c : ℕ) × (s : Text) × (t ≡ c ∷ s)
    head [] h = absurd (ground arith)
    head (c ∷ s) h = (c, s, refl)

digits-any :
    (t : ℕ → Bool)
    → ((c : ℕ) → is_digit c ≡ true → t c ≡ false)
    → (s : Text) → all_digits s ≡ true
    → any t s ≡ false
digits-any t f [] h = refl
digits-any t f (c ∷ s) h = rw (f c (ground arith), digits-any t f s (ground arith)) refl

-- A test that fails on digits fails on a number in decimal.
pub itoa-any :
    (t : ℕ → Bool) → ((c : ℕ) → is_digit c ≡ true → t c ≡ false) → (n : ℕ) → any t (itoa n) ≡ false
itoa-any t f n = digits-any t f (itoa n) (itoa-digits n).0
