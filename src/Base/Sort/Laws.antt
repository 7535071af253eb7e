-- ===== src/Base/Sort/Laws.antt =====
-- The order and the contents of a sorted list.
use mathlib.Core.List.{Perm, Permᴰ}
use mathlib.Core.List.Perm
use kanly.Base.{◌≡◌, refl, ◌∙◌, Bool, true, List, [], ◌∷◌, arith, All, any, ap, ◌||◌}
use kanly.Base.{Bool-cases, inl, inr, ◌⊎◌}
use kanly.Base.Sort.{insert, sort}

pub record Order {ℓ} {A : Type ℓ} (le : A → A → Bool) : Type ℓ where
  pub total : (a b : A) → (le a b ≡ true) ⊎ (le b a ≡ true)
  pub trans : (a b c : A) → le a b ≡ true → le b c ≡ true → le a c ≡ true

abbrev pub IsSorted {ℓ} : {A : Type ℓ} → (A → A → Bool) → List A → Type 0
IsSorted le [] = Unit {0}
IsSorted le (x ∷ xs) = All (λ y. le x y ≡ true) xs × IsSorted le xs

module _ {ℓ} {A : Type ℓ} (le : A → A → Bool) where
  pub insert-perm : (x : A) (ys : List A) → Perm (insert le x ys) (x ∷ ys)
  unfolding insert
  insert-perm x [] = Perm.refl (x ∷ [])
  insert-perm x (y ∷ ys) = elim (Bool-cases (le x y)) [
    | inl e ↦ rw e (Perm.refl (x ∷ y ∷ ys))
    | inr e ↦ rw e (Perm.trans (Perm.cons y (insert-perm x ys)) (Perm.swap x y ys))
  ]

  pub sort-perm : (xs : List A) → Perm (sort le xs) xs
  unfolding sort
  sort-perm [] = Perm.refl []
  sort-perm (x ∷ xs) = Perm.trans (insert-perm x (sort le xs)) (Perm.cons x (sort-perm xs))

  All-insert : (P : A → Type 0) (x : A) (ys : List A) → P x → All P ys → All P (insert le x ys)
  unfolding insert
  All-insert P x [] p h = (p, tt)
  All-insert P x (y ∷ ys) p h = elim (Bool-cases (le x y)) [
    | inl e ↦ rw e (p, h)
    | inr e ↦ rw e (h.0, All-insert P x ys p h.1)
  ]

  All-le :
      Order le
      → (x y : A) (ys : List A) → le x y ≡ true
      → All (λ z. le y z ≡ true) ys
      → All (λ z. le x z ≡ true) ys
  All-le o x y [] e h = tt
  All-le o x y (z ∷ ys) e h = (o.trans x y z e h.0, All-le o x y ys e h.1)

  pub All-sort : (P : A → Type 0) (xs : List A) → All P xs → All P (sort le xs)
  unfolding sort
  All-sort P [] h = tt
  All-sort P (x ∷ xs) h = All-insert P x (sort le xs) h.0 (All-sort P xs h.1)

  any-insert : (p : A → Bool) (x : A) (ys : List A) → any p (insert le x ys) ≡ (p x || any p ys)
  unfolding insert
  any-insert p x [] = refl
  any-insert p x (y ∷ ys) = elim (Bool-cases (le x y)) [
    | inl e ↦ rw e refl
    | inr e ↦ rw (e, any-insert p x ys) (ground arith)
  ]

  pub any-sort : (p : A → Bool) (xs : List A) → any p (sort le xs) ≡ any p xs
  unfolding sort
  any-sort p [] = refl
  any-sort p (x ∷ xs) = any-insert p x (sort le xs) ∙ ap (λ b. p x || b) (any-sort p xs)

  insert-IsSorted : Order le → (x : A) (ys : List A) → IsSorted le ys → IsSorted le (insert le x ys)
  unfolding insert
  insert-IsSorted o x [] h = (tt, tt)
  insert-IsSorted o x (y ∷ ys) h = elim (Bool-cases (le x y)) [
    | inl e ↦ rw e ((e, All-le o x y ys e h.0), h)
    | inr e ↦ rw e (
      All-insert (λ z. le y z ≡ true) x ys (ground (arith, o.total x y)) h.0,
      insert-IsSorted o x ys h.1,
    )
  ]

  pub sort-IsSorted : Order le → (xs : List A) → IsSorted le (sort le xs)
  unfolding sort
  sort-IsSorted o [] = tt
  sort-IsSorted o (x ∷ xs) = insert-IsSorted o x (sort le xs) (sort-IsSorted o xs)

  module _ (o : Order le) (antisym : (a b : A) → le a b ≡ true → le b a ≡ true → a ≡ b) where
    insert_comm :
        (x y : A) (zs : List A) → insert le x (insert le y zs) ≡ insert le y (insert le x zs)
    unfolding insert
    insert_comm x y [] = ground (arith, o.total x y, antisym x y)
    insert_comm x y (z ∷ zs) = ground (
      arith,
      insert_comm x y zs,
      o.total x y,
      antisym x y,
      o.trans x y z,
      o.trans y x z,
      o.total x z,
      o.total y z,
    )

    pub sort-permᴰ : {xs ys : List A} → Permᴰ xs ys → sort le xs ≡ sort le ys
    unfolding sort
    sort-permᴰ Permᴰ.nil = refl
    sort-permᴰ (Permᴰ.cons e p) = cc (e, sort-permᴰ p)
    sort-permᴰ (Permᴰ.swap {a} {b} {l} e f) = insert_comm a b (sort le l) ∙ cc
    sort-permᴰ (Permᴰ.trans p q) = sort-permᴰ p ∙ sort-permᴰ q
