-- ===== src/Schema/Fingerprint.antt =====
-- internal/schema/ignorefile.go: fingerprints. `digest` is the hexadecimal SHA-256 of a text.
use kanly.Base.{
  ℕ, ◌-◌, Text, List, [], ◌∷◌, ◌++◌, length, take, Bool, true, ◌&&◌, ◌||◌, leb, nat_beq,
  if◌then◌else◌,
}
use kanly.Base.Int.{sub_ℕ}
use kanly.Base.Decimal.{itoa, format_int}
use kanly.Base.Strings.{trim_space}

abbrev pub fingerprint_len : ℕ
fingerprint_len = 12

-- `strings.TrimLeft(line, " \t")`.
unfoldable pub trim_indent : Text → Text
trim_indent [] = []
trim_indent (c ∷ s) = if nat_beq c 32 || nat_beq c 9 then trim_indent s else c ∷ s

-- What the hash reads: each part with a zero byte behind it.
unfoldable pub hashed : List Text → Text
hashed [] = []
hashed (s ∷ parts) = s ++ (0 ∷ hashed parts)

unfoldable pub fingerprint : (Text → Text) → Text → Text → Text → Text → Text → ℕ → ℕ → Text
unfolding trim_indent hashed trim_space format_int itoa
fingerprint digest scope op original mutant line col n =
    let trimmed = trim_indent line in
    let within_line = sub_ℕ col (length line - length trimmed) in
    take fingerprint_len (
      digest (
        hashed (
          scope
          ∷ op
          ∷ original
          ∷ mutant
          ∷ trim_space trimmed
          ∷ format_int within_line
          ∷ itoa n
          ∷ [])))

abbrev is_hex : ℕ → Bool
is_hex c = (leb b'0' c && leb c b'9') || (leb b'a' c && leb c b'f')

all_hex : Text → Bool
all_hex [] = true
all_hex (c ∷ s) = is_hex c && all_hex s

unfoldable pub is_fingerprint : Text → Bool
unfolding all_hex
is_fingerprint s = nat_beq (length s) fingerprint_len && all_hex s
