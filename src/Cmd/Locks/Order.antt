-- ===== src/Cmd/Locks/Order.antt =====
-- cmd/kanly/main.go: the order in which `dirLocks.lock` takes its locks.
use kanly.Base.{
  ◌≡◌, refl, ◌∙◌, ap, true, false, ◌||◌, Text, List, [], ◌∷◌, ◌==◌, text_eq, text_beq, text_beq_iff,
  contains, All, arith, Bool-cases, inl, inr,
}
use kanly.Base.Sort.{insert, sort}
use kanly.Base.Sort.Laws.{IsSorted, Order, sort-IsSorted}
use kanly.Base.Strings.{text_le, text_le_total, text_le_trans, text_le_antisym}
use kanly.Cmd.Locks.{drop_run, compact, lock_order}

abbrev pub Below : Text → Text → Type 0
Below x y = text_le y x ≡ false

-- Each name is below all that follow it.
abbrev pub IsAscending : List Text → Type 0
IsAscending [] = Unit {0}
IsAscending (x ∷ xs) = All (Below x) xs × IsAscending xs

text_le-Order : Order text_le
text_le-Order = record { total = text_le_total; trans = text_le_trans }

le-Below : (x y z : Text) → text_le x y ≡ true → Below y z → Below x z
le-Below x y z h k = elim (Bool-cases (text_le z x)) [
  | inl b ↦ cc (text_le_trans z x y b h)
  | inr b ↦ b
]

All-le-Below :
    (x y : Text) (zs : List Text) → text_le x y ≡ true → All (Below y) zs → All (Below x) zs
All-le-Below x y [] h a = tt
All-le-Below x y (z ∷ zs) h a = (le-Below x y z h a.0, All-le-Below x y zs h a.1)

ne-Below : (x y : Text) → text_le x y ≡ true → text_beq x y ≡ false → Below x y
ne-Below x y h n = elim (Bool-cases (text_le y x)) [
  | inl b ↦ ground (arith, text_le_antisym x y, text_beq_iff x y)
  | inr b ↦ b
]

drop_run-IsAscending :
    (x : Text) (xs : List Text)
    → All (λ y. text_le x y ≡ true) xs
    → IsSorted text_le xs
    → All (Below x) (drop_run x xs) × IsAscending (drop_run x xs)
unfolding drop_run
drop_run-IsAscending x [] h s = (tt, tt)
drop_run-IsAscending x (y ∷ ys) h s =
    let (a, k) = drop_run-IsAscending y ys s.0 s.1 in
    elim (Bool-cases (text_beq x y)) [
      | inl b ↦ rw b (All-le-Below x y (drop_run y ys) h.0 a, k)
      | inr b ↦ rw b ((ne-Below x y h.0 b, All-le-Below x y (drop_run y ys) h.0 a), (a, k))
    ]

pub lock_order-IsAscending : (dirs : List Text) → IsAscending (lock_order dirs)
unfolding lock_order compact
lock_order-IsAscending dirs =
    ascending (sort text_le dirs) (sort-IsSorted text_le text_le-Order dirs)
  where
    ascending : (xs : List Text) → IsSorted text_le xs → IsAscending (compact xs)
    ascending [] s = tt
    ascending (x ∷ xs) s = drop_run-IsAscending x xs s.0 s.1

contains-insert :
    (x : Text) (xs : List Text) (d : Text)
    → contains (insert text_le x xs) d ≡ (x == d || contains xs d)
unfolding insert
contains-insert x [] d = refl
contains-insert x (y ∷ ys) d = elim (Bool-cases (text_le x y)) [
  | inl b ↦ rw b refl
  | inr b ↦ rw (b, contains-insert x ys d) (ground arith)
]

contains-sort : (xs : List Text) (d : Text) → contains (sort text_le xs) d ≡ contains xs d
unfolding sort
contains-sort [] d = refl
contains-sort (x ∷ xs) d =
    contains-insert x (sort text_le xs) d ∙ ap (λ b. x == d || b) (contains-sort xs d)

contains-drop_run :
    (x : Text) (xs : List Text) (d : Text)
    → (text_beq x d || contains (drop_run x xs) d) ≡ (text_beq x d || contains xs d)
unfolding drop_run
contains-drop_run x [] d = refl
contains-drop_run x (y ∷ ys) d =
    ground (arith, contains-drop_run y ys d, text_beq_iff x y, text_beq_iff x d, text_beq_iff y d)

-- The locks are those of the directories that were asked for.
pub contains-lock_order :
    (dirs : List Text) (d : Text) → contains (lock_order dirs) d ≡ contains dirs d
unfolding lock_order compact
contains-lock_order dirs d = same (sort text_le dirs) ∙ contains-sort dirs d
  where
    same : (xs : List Text) → contains (compact xs) d ≡ contains xs d
    same [] = refl
    same (x ∷ xs) = contains-drop_run x xs d
