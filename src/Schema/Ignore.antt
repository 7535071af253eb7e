-- ===== src/Schema/Ignore.antt =====
-- internal/schema/ignore.go: the `//kanly:ignore` directives of a file.
pub mod Laws
use kanly.Base.{
  ℕ, ◌+◌, Bool, true, false, ◌&&◌, ◌||◌, Text, codes, List, [], ◌∷◌, ◌++◌, Option, none, some, ◌==◌,
  nat_eq, text_eq, ltb, leb, nat_beq, contains, if◌then◌else◌, any,
}
use kanly.Base.Map.{Map, lookup, update}
use kanly.Base.Strings.{cut_prefix, has_prefix}
use kanly.Schema.Spans.{within}

-- A set of operator names; `none` (a nil map) is every operator.
abbrev pub IgnoreSet : Type 0
IgnoreSet = Option (List Text)

unfoldable pub set_covers : IgnoreSet → Text → Bool
set_covers none op = true
set_covers (some names) op = contains names op

pub record IgnoredFunc : Type 0 where
  pub start : ℕ
  pub end : ℕ
  pub ops : IgnoreSet

pub record Ignores : Type 0 where
  pub lines : Map ℕ IgnoreSet
  pub funcs : List IgnoredFunc

unfoldable pub covers : Ignores → Text → ℕ → ℕ → Bool
covers ig op pos line =
    elim (lookup line ig.lines) [ none ↦ false | some set ↦ set_covers set op ]
    || any (λ f. within f.start f.end pos && set_covers f.ops op) ig.funcs

abbrev ignore_directive : Text
ignore_directive = codes "//kanly:ignore"

-- The text before the first "--".
before_reason : Text → Text
before_reason [] = []
before_reason (c ∷ s) =
    let rest = before_reason s in if has_prefix (c ∷ s) (codes "--") then [] else c ∷ rest

abbrev is_separator : ℕ → Bool
is_separator c = nat_beq c b',' || (nat_beq c 32 || nat_beq c 9)

abbrev push_field : Text → List Text → List Text
push_field [] fields = fields
push_field (c ∷ s) fields = (c ∷ s) ∷ fields

-- `strings.FieldsFunc`: `field` is the field being read.
fields_func : Text → Text → List Text
fields_func field [] = push_field field []
fields_func field (c ∷ s) =
    let rest = fields_func (if is_separator c then [] else field ++ c ∷ []) s in
    if is_separator c then push_field field rest else rest

pub data Directive : Type 0 where
  not_directive : Directive
  ignore : IgnoreSet → Directive
  unknown_operator : Text → Directive

abbrev ends_word : Text → Bool
ends_word [] = true
ends_word (c ∷ _) = nat_beq c 32 || nat_beq c 9

-- The first name that is no operator's.
first_unknown : List Text → List Text → Option Text
first_unknown known [] = none
first_unknown known (n ∷ names) = if contains known n then first_unknown known names else some n

abbrev check_names : List Text → List Text → Directive
check_names known [] = ignore none
check_names known (n ∷ names) = elim (first_unknown known (n ∷ names)) [
  | none ↦ ignore (some (n ∷ names))
  | some bad ↦ unknown_operator bad
]

unfoldable pub parse_ignore_directive : Text → List Text → Directive
unfolding cut_prefix before_reason fields_func first_unknown
parse_ignore_directive text known = elim (cut_prefix text ignore_directive) [
  | none ↦ not_directive
  | some rest ↦
      if ends_word rest
      then check_names known (fields_func [] (before_reason rest))
      else not_directive
]

-- A comment with what the file's syntax tree says of it: its line, whether code stands on that line,
-- and the function whose doc comment it belongs to.
pub record Comment : Type 0 where
  pub text : Text
  pub line : ℕ
  pub on_code : Bool
  pub doc_of : Option (ℕ × ℕ)

abbrev pub merge_sets : Option IgnoreSet → IgnoreSet → IgnoreSet
merge_sets none set = set
merge_sets (some none) set = none
merge_sets (some (some prev)) none = none
merge_sets (some (some prev)) (some names) = some (prev ++ names)

unfoldable pub add : ℕ → IgnoreSet → Ignores → Ignores
add line set ig = record ig { lines = update line (λ prev. merge_sets prev set) ig.lines }

unfoldable pub record_directive : Comment → IgnoreSet → Ignores → Ignores
record_directive c set ig = elim c.doc_of [
  | some (start, end) ↦ record ig {
    funcs = ig.funcs ++ record { start = start; end = end; ops = set } ∷ [];
  }
  | none ↦ add (if c.on_code then c.line else c.line + 1) set ig
]

-- The loop over the comments. `none` is the error of an unknown operator.
unfoldable pub collect_loop : List Text → List Comment → Ignores → Option Ignores
collect_loop known [] ig = some ig
collect_loop known (c ∷ comments) ig =
    let skipped = collect_loop known comments ig in
    elim (parse_ignore_directive c.text known) [
      | not_directive ↦ skipped
      | unknown_operator n ↦ none
      | ignore set ↦ collect_loop known comments (record_directive c set ig)
    ]

unfoldable pub collect_ignores : List Text → List Comment → Option Ignores
unfolding collect_loop
collect_ignores known comments = collect_loop known comments (record { lines = []; funcs = [] })
