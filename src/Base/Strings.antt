-- ===== src/Base/Strings.antt =====
-- What the program uses of Go's `strings`, over the bytes of a text.
use mathlib.Core.List.{append_assoc, append-nil}
use kanly.Base.{
  ℕ, ◌≡◌, refl, ◌⊎◌, inl, inr, Bool, true, false, ◌&&◌, ◌||◌, Option, none, some, List, [], ◌∷◌,
  ◌++◌, arith, ltb, nat_beq, nat_eq, contains, any, ap, ◌∙◌, Text, if◌then◌else◌,
}

-- `a <= b` on strings.
unfoldable pub text_le : Text → Text → Bool
text_le [] t = true
text_le (a ∷ s) [] = false
text_le (a ∷ s) (b ∷ t) = ltb a b || (nat_beq a b && text_le s t)

pub text_le_total : (s t : Text) → (text_le s t ≡ true) ⊎ (text_le t s ≡ true)
unfolding text_le
text_le_total [] t = inl refl
text_le_total (a ∷ s) [] = inr refl
text_le_total (a ∷ s) (b ∷ t) = ground (arith, text_le_total s t)

pub text_le_trans : (s t u : Text) → text_le s t ≡ true → text_le t u ≡ true → text_le s u ≡ true
unfolding text_le
text_le_trans [] t u h k = refl
text_le_trans (a ∷ s) [] u h k = cc
text_le_trans (a ∷ s) (b ∷ t) [] h k = cc
text_le_trans (a ∷ s) (b ∷ t) (c ∷ u) h k = ground (arith, text_le_trans s t u)

pub text_le_antisym : (s t : Text) → text_le s t ≡ true → text_le t s ≡ true → s ≡ t
unfolding text_le
text_le_antisym [] [] h k = refl
text_le_antisym [] (b ∷ t) h k = cc
text_le_antisym (a ∷ s) [] h k = cc
text_le_antisym (a ∷ s) (b ∷ t) h k = ground (arith, text_le_antisym s t)

-- `strings.HasPrefix` and `strings.TrimPrefix`; `cut_prefix` is `none` where there is no prefix.
unfoldable pub cut_prefix : Text → Text → Option Text
cut_prefix s [] = some s
cut_prefix [] (p ∷ pre) = none
cut_prefix (c ∷ s) (p ∷ pre) = if nat_beq c p then cut_prefix s pre else none

abbrev pub is_some {ℓ} : {A : Type ℓ} → Option A → Bool
is_some none = false
is_some (some _) = true

-- `s != ""`.
abbrev pub is_text : Text → Bool
is_text [] = false
is_text (c ∷ s) = true

-- The empty text for a missing one.
abbrev pub or_empty : Option Text → Text
or_empty none = []
or_empty (some t) = t

abbrev pub has_prefix : Text → Text → Bool
has_prefix s pre = is_some (cut_prefix s pre)

pub cut_prefix-append : (pre s : Text) → cut_prefix (pre ++ s) pre ≡ some s
unfolding cut_prefix
cut_prefix-append [] s = refl
cut_prefix-append (p ∷ pre) s = ground (arith, cut_prefix-append pre s)

pub cut_prefix-eq-some : (s pre rest : Text) → cut_prefix s pre ≡ some rest → s ≡ pre ++ rest
unfolding cut_prefix
cut_prefix-eq-some s [] rest h = ground arith
cut_prefix-eq-some [] (p ∷ pre) rest h = cc
cut_prefix-eq-some (c ∷ s) (p ∷ pre) rest h = ground (arith, cut_prefix-eq-some s pre rest)

-- The bytes that `strings.TrimSpace` drops from an ASCII text.
unfoldable pub is_space : ℕ → Bool
is_space c = nat_beq c 32 || (ltb 8 c && ltb c 14)

unfoldable pub trim_left : Text → Text
trim_left [] = []
trim_left (c ∷ s) = if is_space c then trim_left s else c ∷ s

unfoldable pub trim_right : Text → Text
trim_right [] = []
trim_right (c ∷ s) = elim (trim_right s) [
  | [] ↦ if is_space c then [] else c ∷ []
  | d ∷ t ↦ c ∷ d ∷ t
]

unfoldable pub trim_space : Text → Text
unfolding trim_left trim_right is_space
trim_space s = trim_right (trim_left s)

-- The text before the first byte `b` and the text after it; `none` where there is none.
unfoldable pub cut_byte : ℕ → Text → Option (Text × Text)
cut_byte b [] = none
cut_byte b (c ∷ s) =
    let rest = cut_byte b s in
    if nat_beq c b then some ([], s) else elim rest [ none ↦ none | some (l, r) ↦ some (c ∷ l, r) ]

pub cut_byte-append :
    (b : ℕ) (p s : Text) → contains p b ≡ false → cut_byte b (p ++ b ∷ s) ≡ some (p, s)
unfolding cut_byte
cut_byte-append b [] s h = ground arith
cut_byte-append b (c ∷ p) s h = ground (arith, cut_byte-append b p s)

-- `strings.Split` on one byte: never empty.
unfoldable pub split_byte : ℕ → Text → List Text
split_byte b [] = [] ∷ []
split_byte b (c ∷ s) =
    let rest = split_byte b s in
    if nat_beq c b then [] ∷ rest else elim rest [ [] ↦ (c ∷ []) ∷ [] | l ∷ ls ↦ (c ∷ l) ∷ ls ]

-- `strings.Join`.
unfoldable pub join : Text → List Text → Text
join sep [] = []
join sep (s ∷ []) = s
join sep (s ∷ t ∷ ts) = s ++ (sep ++ join sep (t ∷ ts))

-- `strings.Contains`.
unfoldable pub contains_text : Text → Text → Bool
unfolding cut_prefix
contains_text [] sub = has_prefix [] sub
contains_text (c ∷ s) sub = has_prefix (c ∷ s) sub || contains_text s sub

abbrev pub add_field : Text → List Text → List Text
add_field [] fs = fs
add_field (c ∷ s) fs = (c ∷ s) ∷ fs

-- `strings.Fields` on an ASCII text; `field` is the one being read.
unfoldable pub fields_from : Text → Text → List Text
unfolding is_space
fields_from field [] = add_field field []
fields_from field (c ∷ s) =
    let rest = fields_from (if is_space c then [] else field ++ c ∷ []) s in
    if is_space c then add_field field rest else rest

abbrev pub fields : Text → List Text
fields s = fields_from [] s

-- No byte of the text passes the test.
abbrev pub Avoids : (ℕ → Bool) → Text → Type 0
Avoids t s = any t s ≡ false

any_head : (t : ℕ → Bool) (c : ℕ) (s : Text) → Avoids t (c ∷ s) → t c ≡ false
any_head t c s h = ground arith

any_tail : (t : ℕ → Bool) (c : ℕ) (s : Text) → Avoids t (c ∷ s) → Avoids t s
any_tail t c s h = ground arith

pub Avoids-append :
    (t : ℕ → Bool) (p : Text) (c : ℕ) (s : Text)
    → Avoids t p
    → t c ≡ false
    → Avoids t s
    → Avoids t (p ++ c ∷ s)
Avoids-append t [] c s hp hc hs = ground arith
Avoids-append t (d ∷ p) c s hp hc hs = ground (arith, Avoids-append t p c s)

pub contains-any : (s : Text) (b : ℕ) → contains s b ≡ any (λ c. nat_beq c b) s
contains-any [] b = refl
contains-any (c ∷ s) b = ground (arith, contains-any s b)

pub fields_from-append :
    (q p s : Text) → Avoids is_space p → fields_from q (p ++ 32 ∷ s) ≡ add_field (q ++ p) (fields s)
unfolding fields_from is_space
fields_from-append q [] s h = rw (append-nil q) refl
fields_from-append q (c ∷ p) s h = rw (any_head is_space c p h) (
    fields_from-append (q ++ c ∷ []) p s (any_tail is_space c p h)
    ∙ ap (λ x. add_field x (fields s)) (append_assoc q (c ∷ []) p))

pub fields_from-last : (q p : Text) → Avoids is_space p → fields_from q p ≡ add_field (q ++ p) []
unfolding fields_from is_space
fields_from-last q [] h = rw (append-nil q) refl
fields_from-last q (c ∷ p) h = rw (any_head is_space c p h) (
    fields_from-last (q ++ c ∷ []) p (any_tail is_space c p h)
    ∙ ap (λ x. add_field x []) (append_assoc q (c ∷ []) p))

-- The text before the last byte `b` and the text after it.
unfoldable pub cut_last : ℕ → Text → Option (Text × Text)
cut_last b [] = none
cut_last b (c ∷ s) = elim (cut_last b s) [
  | some (l, r) ↦ some (c ∷ l, r)
  | none ↦ if nat_beq c b then some ([], s) else none
]

cut_last-none : (b : ℕ) (s : Text) → contains s b ≡ false → cut_last b s ≡ none
unfolding cut_last
cut_last-none b [] h = refl
cut_last-none b (c ∷ s) h = rw (cut_last-none b s (ground arith)) (ground arith)

pub cut_last-append :
    (b : ℕ) (p s : Text) → contains s b ≡ false → cut_last b (p ++ b ∷ s) ≡ some (p, s)
unfolding cut_last
cut_last-append b [] s h = rw (cut_last-none b s h) (ground arith)
cut_last-append b (c ∷ p) s h = rw (cut_last-append b p s h) refl
