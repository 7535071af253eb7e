-- ===== src/Runner/Names.antt =====
-- Lists of test names without repeats: `dedupe` of internal/runner/runner.go, `unionHits` and
-- `coveringTests` of cmd/kanly/main.go; and `filterEnv`.
use kanly.Base.{
  ℕ, ◌≡◌, refl, sym, ◌∙◌, false, not, ◌||◌, Text, codes, List, [], ◌∷◌, ◌++◌, Option, none, some,
  arith, text_eq, text_beq_iff, nat_eq, contains, contains-append, Distinct, keep, map, Bool-cases,
  inl, inr, if◌then◌else◌,
}
use kanly.Base.Strings.{has_prefix}

-- The loop of `dedupe`; `seen` is a set.
unfoldable pub dedupe_from : List Text → List Text → List Text → List Text
dedupe_from seen out [] = out
dedupe_from seen out (n ∷ names) =
    dedupe_from (if contains seen n then seen else n ∷ seen)
      (if contains seen n then out else out ++ n ∷ []) names

unfoldable pub dedupe : List Text → List Text
dedupe names = dedupe_from [] [] names

pub record TestHit : Type 0 where
  pub name : Text
  pub count : ℕ

unfoldable pub union_from : List Text → List TestHit → List TestHit → List TestHit
union_from seen out [] = out
union_from seen out (h ∷ hits) =
    union_from (if contains seen h.name then seen else h.name ∷ seen)
      (if contains seen h.name then out else out ++ h ∷ []) hits

unfoldable pub union_hits : List TestHit → List TestHit → List TestHit
union_hits a b = union_from [] [] (a ++ b)

abbrev pub FileLine : Type 0
FileLine = Text × ℕ

abbrev pub or_no_hits : Option (List TestHit) → List TestHit
or_no_hits none = []
or_no_hits (some hits) = hits

abbrev pub names_of : List TestHit → List Text
names_of hits = map (λ h. h.name) hits

-- The tests on the mutant's line and on the line of its switch; `at` reads the coverage map.
unfoldable pub covering_tests : (FileLine → Option (List TestHit)) → Text → ℕ → ℕ → List Text
covering_tests at file line cover_line =
    names_of (union_hits (or_no_hits (at (file, line))) (or_no_hits (at (file, cover_line))))

unfoldable pub filter_env : List Text → Text → List Text
filter_env env key = keep (λ e. not (has_prefix e (key ++ codes "="))) env

-- `seen` and `out` hold the same names.
abbrev Same : List Text → List Text → Type 0
Same xs ys = (n : Text) → contains xs n ≡ contains ys n

Distinct-snoc :
    (out : List Text) (n : Text) → Distinct out → contains out n ≡ false → Distinct (out ++ n ∷ [])
Distinct-snoc [] n d h = (refl, tt)
Distinct-snoc (m ∷ out) n d h = (
  contains-append out (n ∷ []) m ∙ ground (arith, text_beq_iff n m, text_beq_iff m n),
  Distinct-snoc out n d.1 (ground arith),
)

dedupe_from-lem :
    (seen out names : List Text)
    → Same seen out
    → Distinct out
    → Distinct (dedupe_from seen out names)
      × ((n : Text)
          → contains (dedupe_from seen out names) n ≡ (contains out n || contains names n))
unfolding dedupe_from
dedupe_from-lem seen out [] s d = (d, λ n. ground arith)
dedupe_from-lem seen out (m ∷ names) s d = elim (Bool-cases (contains seen m)) [
  | inl b ↦
      let (d', c) = dedupe_from-lem seen out names s d in
      rw b (d', λ n. c n ∙ ground (arith, text_beq_iff m n, s m))
  | inr b ↦
      let (d', c) =
        dedupe_from-lem (m ∷ seen) (out ++ m ∷ []) names
          (λ n. ground (arith, s n, contains-append out (m ∷ []) n))
          (Distinct-snoc out m d (sym (s m) ∙ b)) in
      rw b (d', λ n. c n ∙ ground (arith, contains-append out (m ∷ []) n))
]

-- Removing repeats leaves each name once.
pub dedupe_lem :
    (names : List Text)
    → Distinct (dedupe names) × ((n : Text) → contains (dedupe names) n ≡ contains names n)
unfolding dedupe
dedupe_lem names = dedupe_from-lem [] [] names (λ n. refl) tt

names_of-append : (a b : List TestHit) → names_of (a ++ b) ≡ names_of a ++ names_of b
names_of-append [] b = refl
names_of-append (h ∷ a) b = cc (names_of-append a b)

union_from-dedupe_from :
    (seen : List Text) (out hits : List TestHit)
    → names_of (union_from seen out hits) ≡ dedupe_from seen (names_of out) (names_of hits)
unfolding union_from dedupe_from
union_from-dedupe_from seen out [] = refl
union_from-dedupe_from seen out (h ∷ hits) = elim (Bool-cases (contains seen h.name)) [
  | inl b ↦ rw (b, dedupe_from) (union_from-dedupe_from seen out hits)
  | inr b ↦
      rw (b, dedupe_from, sym (names_of-append out (h ∷ [])))
        (union_from-dedupe_from (h.name ∷ seen) (out ++ h ∷ []) hits)
]

-- The tests that cover a mutant are those that run its line or the line of its switch, each once.
pub covering_tests_lem :
    (at : FileLine → Option (List TestHit)) (file : Text) (line cover_line : ℕ)
    → Distinct (covering_tests at file line cover_line)
      × ((n : Text)
          → contains (covering_tests at file line cover_line) n ≡ (
              contains (names_of (or_no_hits (at (file, line)))) n
              || contains (names_of (or_no_hits (at (file, cover_line)))) n))
unfolding covering_tests union_hits
covering_tests_lem at file line cover_line =
    let a = or_no_hits (at (file, line)) in
    let b = or_no_hits (at (file, cover_line)) in
    let (d, c) = dedupe_from-lem [] [] (names_of (a ++ b)) (λ n. refl) tt in
    rw (union_from-dedupe_from [] [] (a ++ b)) (
      d,
      λ n. c n ∙ ground (arith, names_of-append a b, contains-append (names_of a) (names_of b) n),
    )
