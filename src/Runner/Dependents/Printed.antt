-- ===== src/Runner/Dependents/Printed.antt =====
-- internal/runner/deps.go: `parseTestDependents` on lines as `go list` prints them.
use kanly.Base.{
  ℕ, ◌+◌, ◌≡◌, refl, ap, ◌∙◌, false, Text, List, [], ◌∷◌, ◌++◌, nat_eq, nat_beq, arith, any,
  contains, length, All, if◌then◌else◌, Bool-cases, inl, inr,
}
use kanly.Base.Strings.{split_byte}
use kanly.Runner.Dependents.{
  ListedPackage, add_listed, read_entries, paths_of, parse_test_dependents,
}
use kanly.Runner.Dependents.Laws.{depends, imports, depends-read_entries}

-- A line with a path, a directory and dependencies, or another one.
pub data Row : Type 0 where
  listed : ListedPackage → Row
  skipped : Text → Row

abbrev print_row : Row → Text
print_row (listed e) = e.path ++ 9 ∷ (e.dir ++ 9 ∷ e.deps)
print_row (skipped line) = line

abbrev pub print_rows : List Row → Text
print_rows [] = []
print_rows (r ∷ rows) = print_row r ++ 10 ∷ print_rows rows

abbrev pub packages : List Row → List ListedPackage
packages [] = []
packages (listed e ∷ rows) = e ∷ packages rows
packages (skipped line ∷ rows) = packages rows

abbrev tabs : Text → ℕ
tabs [] = 0
tabs (c ∷ s) = (if nat_beq c 9 then 1 else 0) + tabs s

-- No part has a tab, no line has a line break, and another line has not two tabs.
abbrev pub IsRow : Row → Type 0
IsRow (listed e) =
    (contains e.path 9 ≡ false)
    × (contains e.dir 9 ≡ false)
    × (contains e.deps 9 ≡ false)
    × (contains (print_row (listed e)) 10 ≡ false)
IsRow (skipped line) = (nat_beq (tabs line) 2 ≡ false) × (contains line 10 ≡ false)

split_byte-append :
    (b : ℕ) (p s : Text) → contains p b ≡ false → split_byte b (p ++ b ∷ s) ≡ p ∷ split_byte b s
unfolding split_byte
split_byte-append b [] s h = ground arith
split_byte-append b (c ∷ p) s h =
    let e : nat_beq c b ≡ false = ground arith in
    rw (e, split_byte-append b p s (ground arith)) refl

split_byte-last : (b : ℕ) (p : Text) → contains p b ≡ false → split_byte b p ≡ p ∷ []
unfolding split_byte
split_byte-last b [] h = refl
split_byte-last b (c ∷ p) h =
    let e : nat_beq c b ≡ false = ground arith in rw (e, split_byte-last b p (ground arith)) refl

length-split_byte : (line : Text) → length (split_byte 9 line) ≡ tabs line + 1
unfolding split_byte
length-split_byte [] = refl
length-split_byte (c ∷ s) = elim (Bool-cases (nat_beq c 9)) [
  | inl b ↦ rw b (omega (arith, length-split_byte s))
  | inr b ↦ rw b (by_rest (split_byte 9 s) (length-split_byte s))
]
  where
    by_rest :
        (ls : List Text)
        → length ls ≡ tabs s + 1
        → length (elim ls as (λ ls. List Text) [ [] ↦ (c ∷ []) ∷ [] | l ∷ ls ↦ (c ∷ l) ∷ ls ])
          ≡ 0 + tabs s + 1
    by_rest [] h = absurd (omega (arith, h))
    by_rest (l ∷ ls) h = omega (arith, h)

add_listed-other :
    (fs : List Text) (entries : List ListedPackage)
    → nat_beq (length fs) 3 ≡ false
    → add_listed fs entries ≡ entries
add_listed-other [] entries h = refl
add_listed-other (a ∷ []) entries h = refl
add_listed-other (a ∷ b ∷ []) entries h = refl
add_listed-other (a ∷ b ∷ c ∷ []) entries h = cc h
add_listed-other (a ∷ b ∷ c ∷ d ∷ fs) entries h = refl

read_entries-print :
    (rows : List Row)
    → All IsRow rows
    → read_entries (split_byte 10 (print_rows rows)) ≡ packages rows
unfolding read_entries split_byte
read_entries-print [] a = refl
read_entries-print (listed e ∷ rows) ((p, d, q, l), a) =
    rw
      (
        split_byte-append 10 (print_row (listed e)) (print_rows rows) l,
        read_entries,
        split_byte-append 9 e.path (e.dir ++ 9 ∷ e.deps) p,
        split_byte-append 9 e.dir e.deps d,
        split_byte-last 9 e.deps q,
        read_entries-print rows a,
      )
      refl
read_entries-print (skipped line ∷ rows) ((t, l), a) =
    rw (split_byte-append 10 line (print_rows rows) l, read_entries)
      (add_listed-other (split_byte 9 line) (read_entries (split_byte 10 (print_rows rows)))
          (rw (length-split_byte line) (ground (arith, t)))
        ∙ read_entries-print rows a)

-- From lines of which some have a path, a directory and dependencies, and the others not two tabs, a test
-- package with a directory is among the dependents of a package exactly when a line has that directory
-- and the path of the test binary, which is that of the test package with ".test" behind it, and its
-- dependencies name the package, both packages have a line of their own, and they are two. A package whose
-- path starts with "[" has no dependents.
pub parse_test_dependents-print :
    (rows : List Row) (pkg test_pkg dir : Text)
    → All IsRow rows
    → depends pkg test_pkg dir (parse_test_dependents (print_rows rows))
      ≡ any (imports (paths_of (packages rows)) pkg test_pkg dir) (packages rows)
parse_test_dependents-print rows pkg test_pkg dir a =
    depends-read_entries (print_rows rows) pkg test_pkg dir
    ∙ ap (λ es. any (imports (paths_of es) pkg test_pkg dir) es) (read_entries-print rows a)
