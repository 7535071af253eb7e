-- ===== src/Runner/Dependents/Suffix.antt =====
-- internal/runner/deps.go: cutting a suffix off, as `strings.CutSuffix` does.
use kanly.Base.{
  ℕ, ◌≡◌, refl, sym, ap, false, Text, [], ◌∷◌, ◌++◌, Option, none, some, arith, text_eq, text_beq,
  text_beq_iff, beq_refl, length, length-append, Bool-cases, inl, inr,
}
use kanly.Runner.Dependents.{cut_suffix}

longer : (c : ℕ) (t suf : Text) → text_beq (c ∷ (t ++ suf)) suf ≡ false
longer c t suf = elim (Bool-cases (text_beq (c ∷ (t ++ suf)) suf)) [
  | inl b ↦
      absurd
        (omega (arith, ap length ((text_beq_iff (c ∷ (t ++ suf)) suf).0 b), length-append t suf))
  | inr b ↦ b
]

empty_suffix : cut_suffix [] [] ≡ some []
unfolding cut_suffix text_beq
empty_suffix = refl

pub cut_suffix-append : (t suf : Text) → cut_suffix (t ++ suf) suf ≡ some t
unfolding cut_suffix
cut_suffix-append [] [] = empty_suffix
cut_suffix-append [] (c ∷ suf) = rw (beq_refl (c ∷ suf)) refl
cut_suffix-append (c ∷ t) suf = rw (longer c t suf, cut_suffix-append t suf) refl

extended :
    (c : ℕ) (s suf t : Text) (o : Option Text)
    → ((u : Text) → o ≡ some u → s ≡ u ++ suf)
    → (elim o as (λ o. Option Text) [ none ↦ none | some pre ↦ some (c ∷ pre) ]) ≡ some t
    → c ∷ s ≡ t ++ suf
extended c s suf t none f h = cc h
extended c s suf t (some u) f h =
    let e : c ∷ u ≡ t = cc h in rw (sym e) (ap (λ r. c ∷ r) (f u refl))

pub cut_suffix-eq-some : (s suf t : Text) → cut_suffix s suf ≡ some t → s ≡ t ++ suf
unfolding cut_suffix
cut_suffix-eq-some [] suf t h = elim (Bool-cases (text_beq [] suf)) [
  | inl b ↦ let e : [] ≡ t = cc (rw b at h) in rw (sym e) ((text_beq_iff [] suf).0 b)
  | inr b ↦ cc (rw b at h)
]
cut_suffix-eq-some (c ∷ s) suf t h = elim (Bool-cases (text_beq (c ∷ s) suf)) [
  | inl b ↦ let e : [] ≡ t = cc (rw b at h) in rw (sym e) ((text_beq_iff (c ∷ s) suf).0 b)
  | inr b ↦ extended c s suf t (cut_suffix s suf) (λ u. cut_suffix-eq-some s suf u) (rw b at h)
]
