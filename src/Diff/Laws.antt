-- ===== src/Diff/Laws.antt =====
-- internal/diff/diff.go: `ParseDiff` beside a printer of diffs.
use kanly.Base.{
  ◌+◌, ◌^◌, ◌<◌, ◌≡◌, Bool, true, false, ◌&&◌, Text, codes, List, [], ◌∷◌, ◌++◌, none, some, ◌==◌,
  text_eq, any, All,
}
use kanly.Base.Int.{ℤ, int_eq}
use kanly.Base.Strings.{has_prefix, is_text}
use kanly.Diff.{Diff, JoinPath, before_tab, covers_line}
use kanly.Diff.Hunks.{Hunk, lines_in, hunk_header, range_of}

-- A file of the diff: what follows `diff --git`, the lines before the one with the new path, such as
-- `index` and `---`, that path, and the hunks.
pub record FileDiff : Type 0 where
  pub names : Text
  pub before : List Text
  pub path : Text
  pub hunks : List Hunk

abbrev pub hunk_lines : List Hunk → List Text
hunk_lines [] = []
hunk_lines (h ∷ hunks) = hunk_header h.old h.new h.context ∷ (h.text ++ hunk_lines hunks)

abbrev pub print : List FileDiff → List Text
print [] = []
print (f ∷ fs) =
    (codes "diff --git" ++ f.names)
    ∷ (f.before ++ (codes "+++ b/" ++ f.path) ∷ (hunk_lines f.hunks ++ print fs))

abbrev pub hunk_covers : ℤ → Hunk → Bool
hunk_covers line h = elim (range_of h.new.start (lines_in h.new)) [
  | none ↦ false
  | some r ↦ covers_line line r
]

abbrev pub file_covers : JoinPath → Text → Text → ℤ → FileDiff → Bool
file_covers join_path root file line f =
    join_path root f.path == file && any (hunk_covers line) f.hunks

-- A line that is neither of those that name a file nor the header of a hunk.
abbrev pub IsPlain : Text → Type 0
IsPlain line =
    (has_prefix line (codes "diff --git") ≡ false)
    × (has_prefix line (codes "+++ ") ≡ false)
    × (has_prefix line (codes "@@") ≡ false)

-- A hunk with plain lines, and with numbers that Go can hold.
abbrev pub IsReadable : Hunk → Type 0
IsReadable h = (h.new.start + lines_in h.new < 2 ^ 63) × All IsPlain h.text

module _ (join_path : JoinPath) (root : Text) where
  -- A path that a header can name: without a tab, and not empty once joined.
  abbrev pub Nameable : FileDiff → Type 0
  Nameable f =
      (before_tab f.path ≡ f.path)
      × (is_text (join_path root f.path) ≡ true)
      × All IsPlain f.before
      × All IsReadable f.hunks
