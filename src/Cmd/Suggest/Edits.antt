-- ===== src/Cmd/Suggest/Edits.antt =====
-- Scripts of edits, and the edit distance by recursion.
use mathlib.Core.List.{append-nil}
use kanly.Base.{
  ℕ, suc, ◌+◌, ◌≤◌, ◌≡◌, refl, sym, ◌∙◌, ◌⊎◌, inl, inr, Text, [], ◌∷◌, ◌++◌, arith, length,
  Bool-cases, ltb, nat_beq, nat_beq_iff,
}
use kanly.Cmd.Suggest.{min3, cost}

-- The second text is made of the first one by that many replacements, insertions and deletions.
pub data Edits : Text → Text → ℕ → Type 0 where
  unchanged : Edits [] [] 0
  keep : {s t : Text} {n : ℕ} (c : ℕ) → Edits s t n → Edits (c ∷ s) (c ∷ t) n
  replace : {s t : Text} {n : ℕ} (c d : ℕ) → Edits s t n → Edits (c ∷ s) (d ∷ t) (n + 1)
  insert : {s t : Text} {n : ℕ} (d : ℕ) → Edits s t n → Edits s (d ∷ t) (n + 1)
  delete : {s t : Text} {n : ℕ} (c : ℕ) → Edits s t n → Edits (c ∷ s) t (n + 1)

unfoldable pub dist : Text → Text → ℕ
dist [] t = length t
dist (c ∷ s) [] = length (c ∷ s)
dist (c ∷ s) (d ∷ t) = min3 (dist (c ∷ s) t + 1) (dist s (d ∷ t) + 1) (dist s t + cost c d)

pub dist_nil : (s : Text) → dist s [] ≡ length s
unfolding dist
dist_nil [] = refl
dist_nil (c ∷ s) = refl

dist-insert : (s t : Text) (d : ℕ) → dist s (d ∷ t) ≤ dist s t + 1
unfolding dist
dist-insert [] t d = omega arith
dist-insert (c ∷ s) t d = ground arith

dist-delete : (s t : Text) (c : ℕ) → dist (c ∷ s) t ≤ dist s t + 1
unfolding dist
dist-delete s [] c = rw (dist_nil s) (omega arith)
dist-delete s (d ∷ t) c = ground arith

dist-replace : (s t : Text) (c d : ℕ) → dist (c ∷ s) (d ∷ t) ≤ dist s t + cost c d
unfolding dist
dist-replace s t c d = ground arith

pub dist-least : {s t : Text} {n : ℕ} → Edits s t n → dist s t ≤ n
unfolding dist
dist-least unchanged = omega arith
dist-least (keep {s} {t} c e) = ground (arith, dist-replace s t c c, dist-least e)
dist-least (replace {s} {t} c d e) = ground (arith, dist-replace s t c d, dist-least e)
dist-least (insert {s} {t} d e) = omega (arith, dist-insert s t d, dist-least e)
dist-least (delete {s} {t} c e) = omega (arith, dist-delete s t c, dist-least e)

pub add_one : (n : ℕ) → suc n ≡ n + 1
add_one n = omega arith

add_zero : (n : ℕ) → n + 0 ≡ n
add_zero n = omega arith

shift : (n m : ℕ) → n + 1 + m ≡ n + (m + 1)
shift n m = omega arith

zero_add : (n : ℕ) → 0 + n ≡ n
zero_add n = omega arith

min3-cases : (a b c : ℕ) → (min3 a b c ≡ a) ⊎ ((min3 a b c ≡ b) ⊎ (min3 a b c ≡ c))
min3-cases a b c = elim (Bool-cases (ltb b a)) [
  | inl h ↦ elim (Bool-cases (ltb c b)) [
    | inl k ↦ inr (inr (rw (h, k) refl))
    | inr k ↦ inr (inl (rw (h, k) refl))
  ]
  | inr h ↦ elim (Bool-cases (ltb c a)) [
    | inl k ↦ inr (inr (rw (h, k) refl))
    | inr k ↦ inl (rw (h, k) refl)
  ]
]

insert_all : (t : Text) → Edits [] t (length t)
insert_all [] = unchanged
insert_all (d ∷ t) = rw (add_one (length t)) (insert d (insert_all t))

delete_all : (s : Text) → Edits s [] (length s)
delete_all [] = unchanged
delete_all (c ∷ s) = rw (add_one (length s)) (delete c (delete_all s))

pay : (s t : Text) (n c d : ℕ) → Edits s t n → Edits (c ∷ s) (d ∷ t) (n + cost c d)
pay s t n c d e = elim (Bool-cases (nat_beq c d)) [
  | inl h ↦ rw (h, sym ((nat_beq_iff c d).0 h), add_zero n) (keep c e)
  | inr h ↦ rw h (replace c d e)
]

pub dist-Edits : (s t : Text) → Edits s t (dist s t)
unfolding dist
dist-Edits [] t = insert_all t
dist-Edits (c ∷ s) [] = delete_all (c ∷ s)
dist-Edits (c ∷ s) (d ∷ t) =
    elim (min3-cases (dist (c ∷ s) t + 1) (dist s (d ∷ t) + 1) (dist s t + cost c d)) [
      | inl h ↦ rw h (insert d (dist-Edits (c ∷ s) t))
      | inr (inl h) ↦ rw h (delete c (dist-Edits s (d ∷ t)))
      | inr (inr h) ↦ rw h (pay s t (dist s t) c d (dist-Edits s t))
    ]

-- The text from its end, in front of another.
unfoldable pub backward : Text → Text → Text
backward u [] = u
backward u (c ∷ s) = backward (c ∷ u) s

backward-backward : (u v s : Text) → backward u (backward v s) ≡ backward (s ++ u) v
unfolding backward
backward-backward u v [] = refl
backward-backward u v (c ∷ s) = backward-backward u (c ∷ v) s

pub backward_twice : (s : Text) → backward [] (backward [] s) ≡ s
unfolding backward
backward_twice s = backward-backward [] [] s ∙ append-nil s

Edits-backward :
    {s t u v : Text} {n m : ℕ}
    → Edits s t n
    → Edits u v m
    → Edits (backward u s) (backward v t) (n + m)
unfolding backward
Edits-backward {m} unchanged f = rw (zero_add m) f
Edits-backward (keep c e) f = Edits-backward e (keep c f)
Edits-backward {m} (replace {n} c d e) f = rw (shift n m) (Edits-backward e (replace c d f))
Edits-backward {m} (insert {n} d e) f = rw (shift n m) (Edits-backward e (insert d f))
Edits-backward {m} (delete {n} c e) f = rw (shift n m) (Edits-backward e (delete c f))

pub Edits-reversed : {s t : Text} {n : ℕ} → Edits s t n → Edits (backward [] s) (backward [] t) n
Edits-reversed {n} e = rw (sym (add_zero n)) (Edits-backward e unchanged)
