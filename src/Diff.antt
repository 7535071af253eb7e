-- ===== src/Diff.antt =====
-- internal/diff/diff.go: the changed lines of a `git diff --unified=0`, read from its lines.
pub mod Hunks
pub mod Laws
mod Tests
use kanly.Base.{
  ℕ, ◌+◌, Bool, true, false, not, ◌&&◌, ◌||◌, Text, codes, List, [], ◌∷◌, ◌++◌, Option, none, some,
  ◌==◌, text_eq, nat_beq, any, map, if◌then◌else◌,
}
use kanly.Base.Decimal.{atoi, is_digit}
use kanly.Base.Int.{ℤ, pos, negsuc, ◌+ℤ◌, leb_ℤ, int_eq, wrap_64}
use kanly.Base.Map.{Map, lookup, update}
use kanly.Base.Sort.{sort}
use kanly.Base.Strings.{cut_prefix, has_prefix, split_byte, text_le}

infixl 5 ◌>>=◌
abbrev pub ◌>>=◌ : {A B : Type 0} → Option A → (A → Option B) → Option B
none >>= f = none
some a >>= f = f a

-- The first and the last line of an interval.
pub record LineRange : Type 0 where
  pub start : ℤ
  pub end : ℤ

abbrev pub Diff : Type 0
Diff = Map Text (List LineRange)

-- The longest run of digits in front, and the rest.
unfoldable pub span_digits : Text → Text × Text
span_digits [] = ([], [])
span_digits (c ∷ s) =
    let (digits, rest) = span_digits s in if is_digit c then (c ∷ digits, rest) else ([], c ∷ s)

abbrev pub some_digits : Text × Text → Option (Text × Text)
some_digits ([], rest) = none
some_digits (c ∷ digits, rest) = some (c ∷ digits, rest)

-- `(\d+)`
unfoldable pub number : Text → Option (Text × Text)
number s = some_digits (span_digits s)

-- `(?:,(\d+))?`
unfoldable pub opt_count : Text → Option Text × Text
opt_count s = elim (cut_prefix s (codes ",")) [
  | none ↦ (none, s)
  | some rest ↦ elim (number rest) [ none ↦ (none, s) | some (d, rest) ↦ (some d, rest) ]
]

-- The regular expression `hunkRe`: the new side's start and its count, if it has one.
unfoldable pub match_hunk : Text → Option (Text × Option Text)
match_hunk line = do
  s ← cut_prefix line (codes "@@ -")
  (a, s) ← number s
  s ← cut_prefix (opt_count s).1 (codes " +")
  (start, s) ← number s
  rest ← cut_prefix (opt_count s).1 (codes " @@")
  some (start, (opt_count s).0)

abbrev pub count_of : Option Text → Option ℤ
count_of none = some (pos 1)
count_of (some d) = atoi d

-- `start + count - 1`, on int64; no range where nothing was added.
abbrev pub range_from : ℤ → ℤ → Option LineRange
range_from start count =
    if count == pos 0
    then none
    else some (record { start = start; end = wrap_64 (wrap_64 (start +ℤ count) +ℤ negsuc 0) })

unfoldable pub hunk_range : Text → Option LineRange
hunk_range line = do
  (start, count) ← match_hunk line
  a ← atoi start
  n ← count_of count
  range_from a n

-- `filepath.Join(root, rel)`.
abbrev pub JoinPath : Type 0
JoinPath = Text → Text → Text

pub record State : Type 0 where
  -- empty outside a file
  pub current_file : Text
  pub by_file : Diff

abbrev pub or_no_ranges : Option (List LineRange) → List LineRange
or_no_ranges none = []
or_no_ranges (some ranges) = ranges

abbrev pub before_tab : Text → Text
before_tab [] = []
before_tab (c ∷ s) = let rest = before_tab s in if nat_beq c 9 then [] else c ∷ rest

abbrev pub trim_prefix : Text → Text → Text
trim_prefix s pre = elim (cut_prefix s pre) [ none ↦ s | some rest ↦ rest ]

-- The lines that the loop tells apart.
pub data Line : Type 0 where
  new_file other : Line
  header : Text → Line
  hunk : Option LineRange → Line

unfoldable pub line_of : Text → Line
line_of line =
    if has_prefix line (codes "diff --git")
    then new_file
    else elim (cut_prefix line (codes "+++ ")) [
      | some rest ↦ header (before_tab rest)
      | none ↦ if has_prefix line (codes "@@") then hunk (hunk_range line) else other
    ]

module _ (join_path : JoinPath) (root : Text) where
  abbrev pub header_file : Text → Text
  header_file rest =
      if rest == codes "/dev/null" then [] else join_path root (trim_prefix rest (codes "b/"))

  abbrev pub add_range : LineRange → Text → Diff → Diff
  add_range r [] d = d
  add_range r (c ∷ file) d = update (c ∷ file) (λ old. or_no_ranges old ++ r ∷ []) d

  abbrev pub read_line : Line → State → State
  read_line new_file st = record st { current_file = [] }
  read_line (header rest) st = record st { current_file = header_file rest }
  read_line (hunk none) st = st
  read_line (hunk (some r)) st = record st { by_file = add_range r st.current_file st.by_file }
  read_line other st = st

  unfoldable pub read_lines : State → List Text → State
  read_lines st [] = st
  read_lines st (line ∷ lines) = read_lines (read_line (line_of line) st) lines

  unfoldable pub parse_diff : List Text → Diff
  parse_diff lines = (read_lines (record { current_file = []; by_file = [] }) lines).by_file

abbrev pub covers_line : ℤ → LineRange → Bool
covers_line line r = leb_ℤ r.start line && leb_ℤ line r.end

unfoldable pub includes : Diff → Text → ℤ → Bool
includes d file line = any (covers_line line) (or_no_ranges (lookup file d))

-- `Diff.Files`.
unfoldable pub files : Diff → List Text
files d = sort text_le (map (λ (f, _). f) d)

-- The go command's `./...` skips the relative directory, which is separated by slashes.
unfoldable pub ignored_by_go_tool : Text → Bool
ignored_by_go_tool rel =
    if rel == codes "."
    then false
    else any
        (λ elem.
          elem == codes "testdata" || (has_prefix elem (codes ".") || has_prefix elem (codes "_")))
        (split_byte b'/' rel)
