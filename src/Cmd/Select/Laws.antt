-- ===== src/Cmd/Select/Laws.antt =====
-- cmd/kanly/main.go and inspect.go: the operators that a run keeps, and the mutants that are asked
-- for.
use kanly.Base.{
  ◌≡◌, refl, sym, ap, Bool, true, false, not, ◌&&◌, ◌||◌, Text, List, [], ◌∷◌, some, ◌==◌, text_eq,
  nat_eq, text_beq, text_beq_iff, arith, any, contains, keep, Bool-cases, inl, inr,
}
use kanly.Base.Attempt.{done, >>=-eq-done, done-injective}
use kanly.Base.Strings.{trim_space, split_byte, is_text}
use kanly.Cmd.Select.{parse_names, parse_list, selected_of, not_empty, select_operators}

contains-keep :
    (p : Text → Bool) (xs : List Text) (n : Text) → contains (keep p xs) n ≡ (contains xs n && p n)
contains-keep p [] n = refl
contains-keep p (x ∷ xs) n = ground (arith, contains-keep p xs n, text_beq_iff x n)

nil_beq : (n : Text) → is_text n ≡ true → text_beq [] n ≡ false
unfolding text_beq
nil_beq [] h = cc
nil_beq (c ∷ n) h = refl

-- The text is one of the parts, white space aside.
abbrev pub among : List Text → Text → Bool
among parts n = any (λ part. trim_space part == n) parts

parse_names-contains :
    (known parts names : List Text) (n : Text)
    → parse_names known parts ≡ done names
    → is_text n ≡ true
    → (contains names n ≡ among parts n) × ((contains names n && not (contains known n)) ≡ false)
unfolding parse_names
parse_names-contains known [] names n h t = rw (sym (done-injective h)) (refl, refl)
parse_names-contains known (part ∷ parts) names n h t =
    step (trim_space part) refl (λ ns. parse_names-contains known parts ns n)
  where
    step :
        (s : Text)
        → trim_space part ≡ s
        → ((ns : List Text)
            → parse_names known parts ≡ done ns
            → is_text n ≡ true
            → (contains ns n ≡ among parts n) × ((contains ns n && not (contains known n)) ≡ false))
        → (contains names n ≡ ((trim_space part == n) || among parts n))
          × ((contains names n && not (contains known n)) ≡ false)
    step [] e ih = rw (e, nil_beq n t) (ih names (rw (e, parse_names) at h) t)
    step (c ∷ s) e ih = elim (Bool-cases (contains known (c ∷ s))) [
      | inl b ↦
          let (ns, h1, h2) =
            >>=-eq-done (parse_names known parts) _ (rw (e, parse_names, b) at h) in
          let (q, k) = ih ns h1 t in
          rw (sym (done-injective h2), e)
            (ap (λ x. (c ∷ s) == n || x) q, ground (arith, text_beq_iff (c ∷ s) n))
      | inr b ↦ cc (rw (e, parse_names, b) at h)
    ]

-- The names that a run may take: those of `--operators`, or all where the flag is empty.
abbrev pub allowed : List Text → Text → Text → Bool
allowed known [] n = contains known n
allowed known (c ∷ only) n = among (split_byte b',' (c ∷ only)) n

selected_of-allowed :
    (known : List Text) (only : Text) (selected : List Text) (n : Text)
    → selected_of known only ≡ done selected
    → is_text n ≡ true
    → (contains selected n ≡ allowed known only n)
      × ((contains selected n && not (contains known n)) ≡ false)
selected_of-allowed known [] selected n h t = rw (sym (done-injective h)) (refl, ground arith)
selected_of-allowed known (c ∷ only) selected n h t =
    parse_names-contains known (split_byte b',' (c ∷ only)) selected n h t

not_empty-done : (names chosen : List Text) → not_empty names ≡ done (some chosen) → names ≡ chosen
not_empty-done [] chosen h = cc
not_empty-done (n ∷ names) chosen h = cc

-- Where the flags are accepted and restrict the run, it keeps the operators that `--operators`
-- lists, or every operator where that flag is empty, without those that `--skip-operators` lists;
-- and it keeps none that is unknown.
pub select_operators_lem :
    (known chosen : List Text) (only skip n : Text)
    → select_operators known only skip ≡ done (some chosen)
    → is_text n ≡ true
    → (contains chosen n ≡ (allowed known only n && not (among (split_byte b',' skip) n)))
      × ((contains chosen n && not (contains known n)) ≡ false)
unfolding select_operators
select_operators_lem known chosen only skip n h t =
    elim (Bool-cases (not (is_text only) && not (is_text skip))) [
      | inl b ↦ cc (rw b at h)
      | inr b ↦
          let (selected, h1, h2) = >>=-eq-done (selected_of known only) _ (rw b at h) in
          let (skipped, h3, h4) = >>=-eq-done (parse_list known skip) _ h2 in
          let (q, k) = selected_of-allowed known only selected n h1 t in
          let (r, _) = parse_names-contains known (split_byte b',' skip) skipped n h3 t in
          rw
            (
              sym (not_empty-done (keep (λ x. not (contains skipped x)) selected) chosen h4),
              contains-keep (λ x. not (contains skipped x)) selected n,
            )
            (ground arith, ground arith)
    ]
