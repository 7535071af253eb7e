-- ===== src/Cmd/Suggest.antt =====
-- cmd/kanly/main.go: `suggestNames` and `levenshtein`, for a function name that matches nothing.
pub mod Edits
pub mod Laws
use kanly.Base.{
  ℕ, ◌+◌, Bool, true, false, not, Text, codes, List, [], ◌∷◌, ◌==◌, nat_eq, length, ltb, take, map,
  nat_beq, if◌then◌else◌,
}
use kanly.Base.Sort.{sort}
use kanly.Base.Strings.{text_le, join}

abbrev pub min3 : ℕ → ℕ → ℕ → ℕ
min3 a b c = let m = if ltb b a then b else a in if ltb c m then c else m

abbrev pub cost : ℕ → ℕ → ℕ
cost x y = if nat_beq x y then 0 else 1

-- The loop over `j`: `left` is `curr[j-1]`, and the rows start at `prev[j-1]`. The result starts at
-- `curr[j]`. The row has an entry for each byte and one more.
unfoldable pub row_from : ℕ → ℕ → List ℕ → Text → List ℕ
row_from x left (p ∷ q ∷ prev) (y ∷ b) =
    let v = min3 (left + 1) (q + 1) (p + cost x y) in v ∷ row_from x v (q ∷ prev) b
row_from x left _ _ = []

-- The loop over `i`; each row has one more entry than `b` has bytes.
unfoldable pub last_row : ℕ → List ℕ → Text → Text → List ℕ
last_row i prev [] b = prev
last_row i prev (x ∷ a) b = last_row (i + 1) (i ∷ row_from x i prev b) a b

-- 0, 1, ..., for `prev[j] = j`.
unfoldable pub first_row : ℕ → Text → List ℕ
first_row j [] = j ∷ []
first_row j (y ∷ b) = j ∷ first_row (j + 1) b

-- `prev[len(b)]`.
abbrev pub last_of : List ℕ → ℕ
last_of [] = 0
last_of (v ∷ []) = v
last_of (v ∷ w ∷ vs) = last_of (w ∷ vs)

unfoldable pub levenshtein : Text → Text → ℕ
levenshtein [] b = length b
levenshtein (x ∷ a) [] = length (x ∷ a)
levenshtein (x ∷ a) (y ∷ b) = last_of (last_row 1 (first_row 0 (y ∷ b)) (x ∷ a) (y ∷ b))

-- `!less(b, a)`, on names with their distances.
abbrev by_distance : Text × ℕ → Text × ℕ → Bool
by_distance (n, d) (m, e) = if not (d == e) then not (ltb e d) else text_le n m

unfoldable pub suggest_names : Text → List Text → ℕ → Text
unfolding levenshtein
suggest_names entry [] max_n = codes "<no top-level funcs in package>"
suggest_names entry (name ∷ names) max_n = join (codes ", ") (
    map (λ ((n, d) : Text × ℕ). n)
      (take max_n (sort by_distance (map (λ n. (n, levenshtein entry n)) (name ∷ names)))))
