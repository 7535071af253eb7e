-- ===== src/Runner/CoverProfile.antt =====
-- internal/runner/runner.go: `parseCoverProfile`, on the lines of a coverage profile.
pub mod Laws
use kanly.Base.{Text, codes, List, [], ◌∷◌, Option, none, some, true, false, ◌==◌, if◌then◌else◌}
use kanly.Base.Attempt.{Attempt, done, failed, ◌>>=◌, or_fail}
use kanly.Base.Decimal.{atoi}
use kanly.Base.Int.{ℤ, pos, int_eq}
use kanly.Base.Strings.{has_prefix, cut_byte, cut_last, fields}

pub record CoverBlock : Type 0 where
  pub file : Text
  pub start_line : ℤ
  pub end_line : ℤ
  pub count : ℤ

-- The errors of a profile, each with its line.
pub data ProfileError : Type 0 where
  missing_mode missing_colon bad_fields bad_count missing_comma : Text → ProfileError
  missing_start_dot bad_start missing_end_dot bad_end : Text → ProfileError

-- The three fields after the file.
abbrev three_fields : Text → List Text → Attempt ProfileError (Text × Text)
three_fields line (range ∷ stmts ∷ count ∷ []) = done (range, count)
three_fields line _ = failed (bad_fields line)

unfoldable pub parse_block : Text → Text → Text → ℤ → Attempt ProfileError CoverBlock
parse_block line file range count = do
  (start_part, end_part) ← or_fail (missing_comma line) (cut_byte b',' range)
  (start, _) ← or_fail (missing_start_dot line) (cut_byte b'.' start_part)
  start_line ← or_fail (bad_start line) (atoi start)
  (end, _) ← or_fail (missing_end_dot line) (cut_byte b'.' end_part)
  end_line ← or_fail (bad_end line) (atoi end)
  done (record { file = file; start_line = start_line; end_line = end_line; count = count })

-- One line that is not empty; `none` where the block was not run.
unfoldable pub parse_cover_line : Text → Attempt ProfileError (Option CoverBlock)
unfolding parse_block
parse_cover_line line = do
  (file, rest) ← or_fail (missing_colon line) (cut_last b':' line)
  (range, count) ← three_fields line (fields rest)
  n ← or_fail (bad_count line) (atoi count)
  elim (n == pos 0) [
    | true ↦ done none
    | false ↦ do block ← parse_block line file range n; done (some block)
  ]

abbrev pub add_block : Option CoverBlock → List CoverBlock → List CoverBlock
add_block none blocks = blocks
add_block (some block) blocks = block ∷ blocks

unfoldable pub parse_blocks : List Text → Attempt ProfileError (List CoverBlock)
parse_blocks [] = done []
parse_blocks ([] ∷ lines) = parse_blocks lines
parse_blocks ((c ∷ line) ∷ lines) = do
  block ← parse_cover_line (c ∷ line)
  blocks ← parse_blocks lines
  done (add_block block blocks)

unfoldable pub parse_cover_profile : List Text → Attempt ProfileError (List CoverBlock)
parse_cover_profile [] = done []
parse_cover_profile (first ∷ lines) =
    if has_prefix first (codes "mode:") then parse_blocks lines else failed (missing_mode first)
