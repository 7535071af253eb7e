-- ===== src/Cmd/Suggest/Laws.antt =====
-- cmd/kanly/main.go: `levenshtein` beside scripts of edits.
use kanly.Base.{ℕ, suc, ◌+◌, ◌≤◌, ◌≡◌, refl, sym, ap, ◌∙◌, Text, List, [], ◌∷◌, arith, length}
use kanly.Cmd.Suggest.{row_from, last_row, first_row, last_of, levenshtein}
use kanly.Cmd.Suggest.Edits.{
  Edits, dist, dist-least, dist-Edits, dist_nil, backward, backward_twice, Edits-reversed, add_one,
}

-- The row of the prefix `ra`, read from its end, at the prefixes of the other text from `rb` on.
unfoldable row_of : Text → Text → Text → List ℕ
unfolding dist
row_of ra rb [] = dist ra rb ∷ []
row_of ra rb (y ∷ b) = dist ra rb ∷ row_of ra (y ∷ rb) b

rest_of : Text → Text → Text → List ℕ
unfolding row_of
rest_of ra rb [] = []
rest_of ra rb (y ∷ b) = row_of ra (y ∷ rb) b

row_of-cons : (ra rb b : Text) → row_of ra rb b ≡ dist ra rb ∷ rest_of ra rb b
unfolding row_of rest_of
row_of-cons ra rb [] = refl
row_of-cons ra rb (y ∷ b) = refl

row_from-row_of :
    (x : ℕ) (ra rb b : Text)
    → dist (x ∷ ra) rb ∷ row_from x (dist (x ∷ ra) rb) (row_of ra rb b) b ≡ row_of (x ∷ ra) rb b
unfolding row_from row_of dist
row_from-row_of x ra rb [] = refl
row_from-row_of x ra rb (y ∷ b) =
    let u = dist (x ∷ ra) rb in
    let v = dist (x ∷ ra) (y ∷ rb) in
    let e = row_of-cons ra (y ∷ rb) b in
    ap (λ r. u ∷ row_from x u (dist ra rb ∷ r) (y ∷ b)) e
    ∙ ap (λ r. u ∷ r) (ap (λ r. v ∷ row_from x v r b) (sym e) ∙ row_from-row_of x ra (y ∷ rb) b)

first_row-row_of : (rb b : Text) → first_row (length rb) b ≡ row_of [] rb b
unfolding first_row row_of dist
first_row-row_of rb [] = refl
first_row-row_of rb (y ∷ b) =
    ap (λ r. length rb ∷ r)
      (ap (λ n. first_row n b) (sym (add_one (length rb))) ∙ first_row-row_of (y ∷ rb) b)

last_row-row_of :
    (ra a b : Text) → last_row (length ra + 1) (row_of ra [] b) a b ≡ row_of (backward ra a) [] b
unfolding last_row backward dist
last_row-row_of ra [] b = refl
last_row-row_of ra (x ∷ a) b =
    ap (λ n. last_row (n + 1) (n ∷ row_from x n (row_of ra [] b) b) a b) (sym (add_one (length ra)))
    ∙ (ap (λ r. last_row (suc (length ra) + 1) r a b) (row_from-row_of x ra [] b)
        ∙ last_row-row_of (x ∷ ra) a b)

last_of-row_of : (ra rb b : Text) → last_of (row_of ra rb b) ≡ dist ra (backward rb b)
unfolding row_of backward
last_of-row_of ra rb [] = refl
last_of-row_of ra rb (y ∷ b) =
    let e = row_of-cons ra (y ∷ rb) b in
    ap (λ r. last_of (dist ra rb ∷ r)) e ∙ (ap last_of (sym e) ∙ last_of-row_of ra (y ∷ rb) b)

length-backward : (u s : Text) → length (backward u s) ≡ length s + length u
unfolding backward
length-backward u [] = omega arith
length-backward u (c ∷ s) = omega (arith, length-backward (c ∷ u) s)

levenshtein-dist : (a b : Text) → levenshtein a b ≡ dist (backward [] a) (backward [] b)
unfolding levenshtein dist backward
levenshtein-dist [] b = omega (arith, length-backward [] b)
levenshtein-dist (x ∷ a) [] =
    omega (arith, length-backward [] (x ∷ a), dist_nil (backward [] (x ∷ a)))
levenshtein-dist (x ∷ a) (y ∷ b) =
    ap (λ r. last_of (last_row 1 r (x ∷ a) (y ∷ b))) (first_row-row_of [] (y ∷ b))
    ∙ (ap last_of (last_row-row_of [] (x ∷ a) (y ∷ b))
        ∙ last_of-row_of (backward [] (x ∷ a)) [] (y ∷ b))

-- The edit distance is the length of a script that makes the second text of the first, and no script
-- that does is shorter.
pub levenshtein_lem :
    (a b : Text) → Edits a b (levenshtein a b) × ((n : ℕ) → Edits a b n → levenshtein a b ≤ n)
levenshtein_lem a b = (
  rw (levenshtein-dist a b) (
      rw (backward_twice a, backward_twice b) at
        (Edits-reversed (dist-Edits (backward [] a) (backward [] b)))),
  λ n e. rw (levenshtein-dist a b) (dist-least (Edits-reversed e)),
)
