-- ===== src/Schema/IgnoreFile.antt =====
-- internal/schema/ignorefile.go: `ReadIgnoreFile`, on the lines of the package's `.kanlyignore`.
pub mod Laws
use kanly.Base.{
  ℕ, ◌+◌, Bool, true, false, not, ◌&&◌, ◌||◌, Text, List, [], ◌∷◌, Option, none, some, leb, nat_beq,
  text_eq, if◌then◌else◌,
}
use kanly.Base.Attempt.{Attempt, done, failed, ◌>>=◌}
use kanly.Base.Decimal.{is_digit}
use kanly.Base.Map.{Map, lookup, insert}
use kanly.Base.Strings.{trim_space, is_text}
use kanly.Schema.Fingerprint.{is_fingerprint}

pub data BadLine : Type 0 where
  looks_like_id not_fingerprint no_reason listed_twice : BadLine

-- The number of the line that is refused, and why.
abbrev pub Refusal : Type 0
Refusal = ℕ × BadLine

pub data Line : Type 0 where
  blank mutant_id : Line
  entry : Text → Text → Line

-- The text before the first space or tab, and the text from there on.
first_field : Text → Text × Text
first_field [] = ([], [])
first_field (c ∷ s) =
    let (field, rest) = first_field s in
    if nat_beq c 32 || nat_beq c 9 then ([], c ∷ s) else (c ∷ field, rest)

abbrev comment_or_id : Text → Line
comment_or_id [] = blank
comment_or_id (d ∷ s) = if is_digit d then mutant_id else blank

abbrev trimmed_line : Text → Line
trimmed_line [] = blank
trimmed_line (c ∷ s) =
    if nat_beq c b'#'
    then comment_or_id s
    else (let (fp, rest) = first_field (c ∷ s) in entry fp (trim_space rest))

unfoldable pub parse_line : Text → Line
unfolding first_field
parse_line line = trimmed_line (trim_space line)

-- `accepted[fp] != ""`: a missing key reads as the empty reason.
abbrev pub has_reason : Option Text → Bool
has_reason none = false
has_reason (some reason) = is_text reason

unfoldable pub accept : ℕ → Text → Text → Map Text Text → Attempt Refusal (Map Text Text)
accept n fp reason accepted =
    if not (is_fingerprint fp)
    then failed (n, not_fingerprint)
    else if not (is_text reason)
    then failed (n, no_reason)
    else if has_reason (lookup fp accepted)
    then failed (n, listed_twice)
    else done (insert fp reason accepted)

-- The loop over the lines; `n` is the number of the next one.
unfoldable pub read_lines : ℕ → Map Text Text → List Text → Attempt Refusal (Map Text Text)
read_lines n accepted [] = done accepted
read_lines n accepted (line ∷ lines) = elim (parse_line line) [
  | blank ↦ read_lines (n + 1) accepted lines
  | mutant_id ↦ failed (n, looks_like_id)
  | entry fp reason ↦ do more ← accept n fp reason accepted; read_lines (n + 1) more lines
]

-- `none` is a missing file.
unfoldable pub read_ignore_file : Option (List Text) → Attempt Refusal (Map Text Text)
read_ignore_file none = done []
read_ignore_file (some lines) = read_lines 1 [] lines
