-- ===== src/Schema/Ignore/Laws.antt =====
-- internal/schema/ignore.go: which mutants the directives of a file suppress.
use kanly.Base.{
  ℕ, ◌+◌, ◌≡◌, refl, Bool, false, ◌&&◌, ◌||◌, Text, List, [], ◌∷◌, ◌++◌, Option, none, some, arith,
  any, ◌==◌, nat_eq, text_eq, contains-append, any-snoc, Option-cases, inl, inr, nat_beq_iff,
  if◌then◌else◌,
}
use kanly.Base.Map.{lookup, lookup-update}
use kanly.Schema.Spans.{within}
use kanly.Schema.Ignore.{
  IgnoreSet, Ignores, IgnoredFunc, Comment, Directive, not_directive, ignore, unknown_operator,
  set_covers, covers, merge_sets, add, record_directive, collect_loop, collect_ignores,
  parse_ignore_directive,
}

-- The directive of a function's doc comment applies to the whole function, one that trails code to
-- its own line, and one that stands alone to the next line.
abbrev pub reaches : Comment → ℕ → ℕ → Bool
reaches c pos line = elim c.doc_of [
  | some (start, end) ↦ within start end pos
  | none ↦ (if c.on_code then c.line else c.line + 1) == line
]

abbrev pub applies : List Text → Text → ℕ → ℕ → Comment → Bool
applies known op pos line c = elim (parse_ignore_directive c.text known) [
  | ignore set ↦ reaches c pos line && set_covers set op
  | _ ↦ false
]

covers_merge :
    (prev : Option IgnoreSet) (set : IgnoreSet) (op : Text)
    → set_covers (merge_sets prev set) op
      ≡ (elim prev [ none ↦ false | some old ↦ set_covers old op ] || set_covers set op)
unfolding set_covers
covers_merge none set op = ground arith
covers_merge (some none) set op = ground arith
covers_merge (some (some old)) none op = ground arith
covers_merge (some (some old)) (some names) op = contains-append old names op

covers-add :
    (target : ℕ) (set : IgnoreSet) (ig : Ignores) (op : Text) (pos line : ℕ)
    → covers (add target set ig) op pos line
      ≡ (covers ig op pos line || (target == line && set_covers set op))
unfolding covers add
covers-add target set ig op pos line =
    rw lookup-update
      (ground (arith, nat_beq_iff target line, covers_merge (lookup target ig.lines) set op))

covers-func :
    (start end : ℕ) (set : IgnoreSet) (ig : Ignores) (op : Text) (pos line : ℕ)
    → covers
        (record ig { funcs = ig.funcs ++ record { start = start; end = end; ops = set } ∷ [] })
        op
        pos
        line
      ≡ (covers ig op pos line || (within start end pos && set_covers set op))
unfolding covers
covers-func start end set ig op pos line =
    rw (any-snoc (λ (f : IgnoredFunc). within f.start f.end pos && set_covers f.ops op))
      (ground arith)

covers-record_directive :
    (c : Comment) (set : IgnoreSet) (ig : Ignores) (op : Text) (pos line : ℕ)
    → covers (record_directive c set ig) op pos line
      ≡ (covers ig op pos line || (reaches c pos line && set_covers set op))
unfolding record_directive
covers-record_directive c set ig op pos line = elim (Option-cases c.doc_of) [
  | inl e ↦
      rw (e, record_directive)
        (covers-add (if c.on_code then c.line else c.line + 1) set ig op pos line)
  | inr ((start, end), e) ↦ rw (e, record_directive) (covers-func start end set ig op pos line)
]

collect_loop-covers :
    (known : List Text) (comments : List Comment) (ig ig' : Ignores) (op : Text) (pos line : ℕ)
    → collect_loop known comments ig ≡ some ig'
    → covers ig' op pos line ≡ (covers ig op pos line || any (applies known op pos line) comments)
unfolding collect_loop
collect_loop-covers known [] ig ig' op pos line h = ground arith
collect_loop-covers known (c ∷ comments) ig ig' op pos line h =
    step (parse_ignore_directive c.text known) refl
      (λ old. collect_loop-covers known comments old ig' op pos line)
  where
    step :
        (d : Directive)
        → parse_ignore_directive c.text known ≡ d
        → ((old : Ignores)
            → collect_loop known comments old ≡ some ig'
            → covers ig' op pos line
              ≡ (covers old op pos line || any (applies known op pos line) comments))
        → covers ig' op pos line
          ≡ (covers ig op pos line || any (applies known op pos line) (c ∷ comments))
    step not_directive e ih = ground (arith, ih ig)
    step (unknown_operator n) e ih = ground arith
    step (ignore set) e ih =
        ground (arith, ih (record_directive c set ig), covers-record_directive c set ig op pos line)

no_directives :
    (op : Text) (pos line : ℕ) → covers (record { lines = []; funcs = [] }) op pos line ≡ false
unfolding covers lookup
no_directives op pos line = refl

-- Where `collectIgnores` succeeds, a mutant of an operator at a position is suppressed exactly when
-- one of the file's comments is a directive for that operator that reaches the position.
pub collect_ignores-covers :
    (known : List Text) (comments : List Comment) (ig : Ignores) (op : Text) (pos line : ℕ)
    → collect_ignores known comments ≡ some ig
    → covers ig op pos line ≡ any (applies known op pos line) comments
unfolding collect_ignores
collect_ignores-covers known comments ig op pos line h = ground (
  arith,
  collect_loop-covers known comments (record { lines = []; funcs = [] }) ig op pos line,
  no_directives op pos line,
)
