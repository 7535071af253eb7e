-- ===== src/Selector/Match.antt =====
-- Which methods a user's entry `T.M` selects, over the names that the schema gives functions.
use kanly.Base.{
  ℕ, ◌≡◌, refl, ◌∙◌, Bool, true, false, not, ◌&&◌, ◌||◌, Text, codes, [], ◌∷◌, ◌++◌, none, some,
  nat_beq, text_beq, text_eq, ◌==◌, arith, if◌then◌else◌,
}
use kanly.Base.Strings.{cut_prefix, has_prefix}
use kanly.Schema.Spans.{ident, star, FuncDecl, func_decl_name}
use kanly.Selector.{by_value, by_pointer, cut_dot, match_func, match_unqualified}

-- An identifier has none of the bytes that canonical names put around one.
abbrev plain_byte : ℕ → Bool
plain_byte c =
    (not (nat_beq c b'(') && not (nat_beq c b')')) && (not (nat_beq c b'*') && not (nat_beq c b'.'))

abbrev pub is_ident : Text → Bool
is_ident [] = true
is_ident (c ∷ s) = plain_byte c && is_ident s

cut_dot-ident :
    (recv method : Text)
    → is_ident recv ≡ true
    → cut_dot (recv ++ (codes "." ++ method)) ≡ some (recv, method)
unfolding cut_dot
cut_dot-ident [] method h = refl
cut_dot-ident (c ∷ recv) method h = ground (arith, cut_dot-ident recv method)

-- Two receivers with what follows them are the same text only if they and the rests are.
closed_beq :
    (t u m n : Text)
    → is_ident t ≡ true
    → is_ident u ≡ true
    → text_beq (u ++ (codes ")." ++ n)) (t ++ (codes ")." ++ m)) ≡ (text_beq u t && text_beq n m)
unfolding text_beq
closed_beq [] [] m n h k = refl
closed_beq [] (c ∷ u) m n h k = ground arith
closed_beq (c ∷ t) [] m n h k = ground arith
closed_beq (c ∷ t) (d ∷ u) m n h k = ground (arith, closed_beq t u m n)

star_beq :
    (t u m n : Text)
    → is_ident u ≡ true
    → is_ident t ≡ true
    → text_beq (u ++ (codes ")." ++ n)) (codes "*" ++ (t ++ (codes ")." ++ m))) ≡ false
unfolding text_beq
star_beq t [] m n h k = refl
star_beq t (c ∷ u) m n h k = ground arith

beq_star :
    (t u m n : Text)
    → is_ident u ≡ true
    → is_ident t ≡ true
    → text_beq (codes "*" ++ (u ++ (codes ")." ++ n))) (t ++ (codes ")." ++ m)) ≡ false
unfolding text_beq
beq_star [] u m n h k = refl
beq_star (c ∷ t) u m n h k = ground arith

-- A method as the schema sees it: the receiver's type, or a pointer to it.
abbrev pub method_of : Bool → Text → Text → ℕ → ℕ → FuncDecl
method_of pointer recv name start end = record {
  recv = some (if pointer then star (ident recv) else ident recv);
  name = name;
  start = start;
  end = end;
}

no_star : (c : ℕ) (s : Text) → plain_byte c ≡ true → cut_prefix (c ∷ s) (codes "*") ≡ none
unfolding cut_prefix
no_star c s h = ground arith

no_paren : (c : ℕ) (s : Text) → plain_byte c ≡ true → has_prefix (c ∷ s) (codes "(") ≡ false
unfolding cut_prefix
no_paren c s h = ground arith

plain_head : (c : ℕ) (s : Text) → is_ident (c ∷ s) ≡ true → plain_byte c ≡ true
plain_head c s h = ground arith

match_unqualified-ident :
    (c : ℕ) (t m canonical : Text)
    → is_ident (c ∷ t) ≡ true
    → match_unqualified ((c ∷ t) ++ (codes "." ++ m)) canonical
      ≡ (canonical == by_value (c ∷ t) m || canonical == by_pointer (c ∷ t) m)
unfolding match_unqualified
match_unqualified-ident c t m canonical h =
    rw
      (
        no_star c (t ++ (codes "." ++ m)) (plain_head c t h),
        match_unqualified,
        cut_dot-ident (c ∷ t) m h,
      )
      refl

canonical_beq :
    (pointer : Bool) (t m u n : Text) (start end : ℕ)
    → is_ident t ≡ true
    → is_ident u ≡ true
    → (func_decl_name (method_of pointer u n start end) == by_value t m
        || func_decl_name (method_of pointer u n start end) == by_pointer t m)
      ≡ (u == t && n == m)
unfolding func_decl_name text_beq
canonical_beq true t m u n start end h k =
    ground (arith, closed_beq t u m n h k, beq_star t u m n k h)
canonical_beq false t m u n start end h k =
    ground (arith, closed_beq t u m n h k, star_beq t u m n k h)

not_canonical :
    (pointer : Bool) (c : ℕ) (s u n : Text) (start end : ℕ)
    → plain_byte c ≡ true
    → text_beq (c ∷ s) (func_decl_name (method_of pointer u n start end)) ≡ false
unfolding func_decl_name text_beq
not_canonical true c s u n start end h = ground arith
not_canonical false c s u n start end h = ground arith

-- For identifiers, the entry `T.M` selects a method, with a value or a pointer receiver, exactly
-- when its receiver's type is T and its name is M.
pub match_func-method :
    (pointer : Bool) (c : ℕ) (t m u n : Text) (start end : ℕ)
    → is_ident (c ∷ t) ≡ true
    → is_ident u ≡ true
    → match_func ((c ∷ t) ++ (codes "." ++ m)) (func_decl_name (method_of pointer u n start end))
      ≡ (u == (c ∷ t) && n == m)
unfolding match_func
match_func-method pointer c t m u n start end h k =
    rw
      (
        not_canonical pointer c (t ++ (codes "." ++ m)) u n start end (plain_head c t h),
        no_paren c (t ++ (codes "." ++ m)) (plain_head c t h),
      )
      (match_unqualified-ident c t m (func_decl_name (method_of pointer u n start end)) h
        ∙ canonical_beq pointer (c ∷ t) m u n start end h k)
