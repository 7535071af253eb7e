-- ===== src/Operators/IntLiteral/Laws.antt =====
-- Which mutants an integer literal gets, and what its rewritten form is worth.
use kanly.Base.{
  ℕ, ◌≡◌, refl, ◌∙◌, ap, ◌⊎◌, Bool, true, false, not, ◌&&◌, ◌||◌, List, [], ◌∷◌, ◌++◌, arith,
  contains, contains-append, Distinct, ◌==◌, Bool-cases, inl, inr, if◌then◌else◌, nat_eq,
}
use kanly.Base.Int.{ℤ, pos, leb_ℤ, ltb_ℤ, int_eq, int_beq_iff, +ℤ_zero, zero_+ℤ, *ℤ_one, *ℤ_zero}
use kanly.Schema.Runtime.{is_active, any_active}
use kanly.Schema.Plain.{cmut_lit_off, cmut_lit_on}
use kanly.Operators.IntLiteral.Ranges.{is_alternate, sized, smallest, largest, int_range-sized}
use kanly.Operators.IntLiteral.{
  Kind, Range, consider, considered, alternates, int_lit_values, terms, ids_of, rewrite_group,
}

-- Within the range, and not the literal itself.
abbrev pub eligible : ℤ → Range → ℤ → Bool
eligible n r v = (leb_ℤ r.lo v && leb_ℤ v r.hi) && not (n == v)

contains-consider :
    (n : ℤ) (r : Range) (out : List ℤ) (w v : ℤ)
    → contains (consider n r out w) v ≡ (contains out v || (w == v && eligible n r v))
contains-consider n r out w v =
    ground
      (arith, contains-append out (w ∷ []) v, int_beq_iff w v, int_beq_iff n v, int_beq_iff n w)

contains-considered :
    (n : ℤ) (r : Range) (out vs : List ℤ) (v : ℤ)
    → contains (considered n r out vs) v ≡ (contains out v || (contains vs v && eligible n r v))
contains-considered n r out [] v = ground arith
contains-considered n r out (w ∷ vs) v =
    contains-considered n r (consider n r out w) vs v
    ∙ ground (arith, contains-consider n r out w v)

Distinct-snoc :
    (out : List ℤ) (v : ℤ) → Distinct out → contains out v ≡ false → Distinct (out ++ v ∷ [])
Distinct-snoc [] v d h = (refl, tt)
Distinct-snoc (w ∷ out) v d h = (
  contains-append out (v ∷ []) w ∙ ground (arith, int_beq_iff v w, int_beq_iff w v),
  Distinct-snoc out v d.1 (ground arith),
)

Distinct-consider :
    (n : ℤ) (r : Range) (out : List ℤ) (v : ℤ) → Distinct out → Distinct (consider n r out v)
Distinct-consider n r out v d =
    elim (Bool-cases ((n == v || contains out v) || (ltb_ℤ v r.lo || ltb_ℤ r.hi v))) [
      | inl e ↦ rw e d
      | inr e ↦ rw e (Distinct-snoc out v d (ground arith))
    ]

Distinct-considered :
    (n : ℤ) (r : Range) (out vs : List ℤ) → Distinct out → Distinct (considered n r out vs)
Distinct-considered n r out [] d = d
Distinct-considered n r out (v ∷ vs) d =
    Distinct-considered n r (consider n r out v) vs (Distinct-consider n r out v d)

alternates-is_alternate : (n v : ℤ) → contains (alternates n) v ≡ is_alternate n v
alternates-is_alternate n v = ground arith

-- The mutants of a literal `n` are those of 0, 1, -n, n+1 and n-1, in 64-bit arithmetic, that differ from
-- `n` and lie between the bounds of its type, each once; where `n` itself is above the upper bound
-- there are none. The bounds are those of the type as far as int64 holds them, and int, uint and uintptr
-- count as 32 bits wide where 32 bits hold `n` and as 64 elsewhere.
pub int_lit_values_lem :
    (n : ℤ) (t : Kind)
    → Distinct (int_lit_values n t)
      × ((v : ℤ)
          → contains (int_lit_values n t) v ≡ (
              leb_ℤ n (largest (sized t n))
              && (is_alternate n v
                  && ((leb_ℤ (smallest (sized t n)) v && leb_ℤ v (largest (sized t n)))
                      && not (n == v)))))
unfolding int_lit_values
int_lit_values_lem n t =
    rw (int_range-sized t n) (by_bound (Bool-cases (ltb_ℤ (largest (sized t n)) n)))
  where
    r : Range
    r = record { lo = smallest (sized t n); hi = largest (sized t n) }

    by_bound :
        ((ltb_ℤ r.hi n ≡ true) ⊎ (ltb_ℤ r.hi n ≡ false))
        → Distinct (if ltb_ℤ r.hi n then [] else considered n r [] (alternates n))
          × ((v : ℤ)
              → contains (if ltb_ℤ r.hi n then [] else considered n r [] (alternates n)) v
                ≡ (leb_ℤ n r.hi && (is_alternate n v && eligible n r v)))
    by_bound (inl e) = rw e (tt, λ v. ground arith)
    by_bound (inr e) = rw e (
      Distinct-considered n r [] (alternates n) tt,
      λ v.
          contains-considered n r [] (alternates n) v
          ∙ (ap (λ b. b && eligible n r v) (alternates-is_alternate n v) ∙ ground arith),
    )

-- The value that the report lists for the active mutant of a literal, or the literal's own.
abbrev pub reported_value : ℤ → ℤ → List (ℤ × ℕ) → ℤ
reported_value active n [] = n
reported_value active n ((v, i) ∷ cands) =
    if is_active active i then v else reported_value active n cands

terms-none :
    (active sum : ℤ) (cands : List (ℤ × ℕ))
    → any_active active (ids_of cands) ≡ false
    → terms active sum cands ≡ sum
unfolding terms ids_of cmut_lit_on
terms-none active sum [] h = refl
terms-none active sum ((v, i) ∷ cands) h =
    ground (arith, *ℤ_zero v, +ℤ_zero sum, terms-none active sum cands)

any_active-other :
    (active : ℤ) (i : ℕ) (ids : List ℕ)
    → is_active active i ≡ true
    → contains ids i ≡ false
    → any_active active ids ≡ false
any_active-other active i [] h k = refl
any_active-other active i (j ∷ ids) h k = ground (arith, any_active-other active i ids)

terms-zero :
    (active : ℤ) (cands : List (ℤ × ℕ))
    → Distinct (ids_of cands)
    → terms active (pos 0) cands ≡ reported_value active (pos 0) cands
unfolding terms ids_of cmut_lit_on
terms-zero active [] d = refl
terms-zero active ((v, i) ∷ cands) d = ground (
  arith,
  *ℤ_zero v,
  *ℤ_one v,
  zero_+ℤ v,
  zero_+ℤ (pos 0),
  int_beq_iff v (pos 0),
  terms-zero active cands,
  terms-none active v cands,
  any_active-other active i (ids_of cands),
)

terms-idle :
    (active n : ℤ) (cands : List (ℤ × ℕ))
    → any_active active (ids_of cands) ≡ false
    → reported_value active n cands ≡ n
unfolding ids_of
terms-idle active n [] h = refl
terms-idle active n ((v, i) ∷ cands) h = ground (arith, terms-idle active n cands)

reported_value-busy :
    (active n m : ℤ) (cands : List (ℤ × ℕ))
    → any_active active (ids_of cands) ≡ true
    → reported_value active n cands ≡ reported_value active m cands
unfolding ids_of
reported_value-busy active n m [] h = cc
reported_value-busy active n m ((v, i) ∷ cands) h =
    ground (arith, reported_value-busy active n m cands)

-- The sum that stands for a literal is worth the active mutant's value, and the literal's own
-- value when none of its mutants is active, as long as no ID occurs twice.
pub rewrite_group_lem :
    (active n : ℤ) (cands : List (ℤ × ℕ))
    → Distinct (ids_of cands)
    → rewrite_group active n cands ≡ reported_value active n cands
unfolding rewrite_group cmut_lit_off
rewrite_group_lem active n cands d = ground (
  arith,
  *ℤ_zero n,
  *ℤ_one n,
  terms-none active n cands,
  terms-idle active n cands,
  terms-zero active cands,
  reported_value-busy active (pos 0) n cands,
)
