-- ===== src/Base/Sort.antt =====
-- `sort.Slice`, `sort.SliceStable`, `sort.Strings` and `sort.Ints`, as an insertion sort that keeps
-- equal items in order, over the test `le a b = !less(b, a)`. Laws are in the child.
pub mod Laws
use kanly.Base.{Bool, List, [], ◌∷◌, if◌then◌else◌}

module _ {ℓ} {A : Type ℓ} (le : A → A → Bool) where
  unfoldable pub insert : A → List A → List A
  insert x [] = x ∷ []
  insert x (y ∷ ys) = if le x y then x ∷ y ∷ ys else y ∷ insert x ys

  unfoldable pub sort : List A → List A
  unfolding insert
  sort [] = []
  sort (x ∷ xs) = insert x (sort xs)
