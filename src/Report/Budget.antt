-- ===== src/Report/Budget.antt =====
-- internal/report/report.go: `llmBudget.take`, which cuts the brief for a language model to size.
use kanly.Base.{
  ℕ, ◌+◌, ◌≤◌, ◌<◌, ◌≡◌, refl, ap, inl, inr, Bool, true, false, ◌&&◌, List, [], ◌∷◌, ◌++◌, arith,
  All, length, ltb, Bool-cases, if◌then◌else◌,
}
use kanly.Base.Int.{ℤ, pos, pos_part, neg_part, neg, ◌+ℤ◌, ltb_ℤ, int_parts, neg_parts}
use kanly.Mutation.{FunctionSurvivors}

-- `left` is negative behind a first group that is over the limit.
pub record LlmBudget : Type 0 where
  pub left : ℤ
  pub listed : ℕ
  pub limit : Bool

pub record Taken : Type 0 where
  pub budget : LlmBudget
  pub kept : List FunctionSurvivors
  pub omitted : List FunctionSurvivors

abbrev pub size : FunctionSurvivors → ℕ
size g = length g.mutations

abbrev pub spend : LlmBudget → FunctionSurvivors → LlmBudget
spend bud g = record bud { left = bud.left +ℤ neg (pos (size g)); listed = bud.listed + size g }

abbrev stops : LlmBudget → FunctionSurvivors → Bool
stops bud g = ltb_ℤ bud.left (pos (size g)) && ltb 0 bud.listed

unfoldable pub take_loop : LlmBudget → List FunctionSurvivors → Taken
take_loop bud [] = record { budget = bud; kept = []; omitted = [] }
take_loop bud (g ∷ groups) =
    let rest = take_loop (spend bud g) groups in
    if stops bud g
    then record { budget = bud; kept = []; omitted = g ∷ groups }
    else record rest { kept = g ∷ rest.kept }

unfoldable pub take : LlmBudget → List FunctionSurvivors → Taken
take bud groups =
    if bud.limit then take_loop bud groups else record { budget = bud; kept = groups; omitted = [] }

-- The budget is what is left of `n` mutants.
abbrev pub Within : ℕ → LlmBudget → Type 0
Within n bud = pos_part bud.left + bud.listed ≡ neg_part bud.left + n

abbrev pub total_size : List FunctionSurvivors → ℕ
total_size [] = 0
total_size (g ∷ groups) = size g + total_size groups

spend-Within :
    (n : ℕ) (bud : LlmBudget) (g : FunctionSurvivors) → Within n bud → Within n (spend bud g)
spend-Within n bud g h =
    let p = int_parts bud.left (neg (pos (size g))) in
    let q = neg_parts (size g) in omega (arith, p, q.0, q.1)

-- What `take` keeps of the groups: nothing only where there are none or something is listed already,
-- else groups that fit, or the brief's first group alone.
pub data Fits (n listed : ℕ) (groups kept : List FunctionSurvivors) : Type 0 where
  no_groups : groups ≡ [] → kept ≡ [] → Fits n listed groups kept
  nothing : 0 < listed → kept ≡ [] → Fits n listed groups kept
  within : 0 < length kept → listed + total_size kept ≤ n → Fits n listed groups kept
  first : listed ≡ 0 → length kept ≡ 1 → Fits n listed groups kept

abbrev pub NextIsOver : ℕ → ℕ → List FunctionSurvivors → Type 0
NextIsOver n used [] = Unit
NextIsOver n used (g ∷ groups) = n < used + size g

take_loop-concat :
    (bud : LlmBudget) (groups : List FunctionSurvivors)
    → (take_loop bud groups).kept ++ (take_loop bud groups).omitted ≡ groups
unfolding take_loop
take_loop-concat bud [] = refl
take_loop-concat bud (g ∷ groups) = elim (Bool-cases (stops bud g)) [
  | inl b ↦ rw b refl
  | inr b ↦ rw b (ap (λ gs. g ∷ gs) (take_loop-concat (spend bud g) groups))
]

Fits-cons :
    (n : ℕ) (bud : LlmBudget) (g : FunctionSurvivors) (groups kept : List FunctionSurvivors)
    → Within n bud
    → 0 < size g
    → stops bud g ≡ false
    → Fits n (bud.listed + size g) groups kept
    → Fits n bud.listed (g ∷ groups) (g ∷ kept)
Fits-cons n bud g groups [] w p s f = elim (Bool-cases (ltb 0 bud.listed)) [
  | inl b ↦ within (omega arith) (ground arith)
  | inr b ↦ first (ground arith) refl
]
Fits-cons n bud g groups (k ∷ kept) w p s (within l h) = within (omega arith) (omega arith)
Fits-cons n bud g groups (k ∷ kept) w p s (no_groups e h) = cc h
Fits-cons n bud g groups (k ∷ kept) w p s (nothing l h) = cc h
Fits-cons n bud g groups (k ∷ kept) w p s (first h l) = absurd (omega arith)

take_loop-Fits :
    (n : ℕ) (bud : LlmBudget) (groups : List FunctionSurvivors)
    → Within n bud
    → All (λ g. 0 < size g) groups
    → Fits n bud.listed groups (take_loop bud groups).kept
unfolding take_loop
take_loop-Fits n bud [] w a = no_groups refl refl
take_loop-Fits n bud (g ∷ groups) w a = elim (Bool-cases (stops bud g)) [
  | inl b ↦ rw b (nothing (ground arith) refl)
  | inr b ↦ rw b (
      Fits-cons n bud g groups (take_loop (spend bud g) groups).kept w a.0 b
        (take_loop-Fits n (spend bud g) groups (spend-Within n bud g w) a.1))
]

take_loop-NextIsOver :
    (n : ℕ) (bud : LlmBudget) (groups : List FunctionSurvivors)
    → Within n bud
    → NextIsOver n
        (bud.listed + total_size (take_loop bud groups).kept)
        (take_loop bud groups).omitted
unfolding take_loop
take_loop-NextIsOver n bud [] w = tt
take_loop-NextIsOver n bud (g ∷ groups) w = elim (Bool-cases (stops bud g)) [
  | inl b ↦ rw b (ground arith)
  | inr b ↦ rw b (
      over_later n bud.listed (size g) _ (take_loop (spend bud g) groups).omitted
        (take_loop-NextIsOver n (spend bud g) groups (spend-Within n bud g w)))
]
  where
    over_later :
        (n a b c : ℕ) (omitted : List FunctionSurvivors)
        → NextIsOver n (a + b + c) omitted
        → NextIsOver n (a + (b + c)) omitted
    over_later n a b c [] h = tt
    over_later n a b c (g ∷ omitted) h = omega arith

take-limited :
    (bud : LlmBudget) (groups : List FunctionSurvivors)
    → bud.limit ≡ true
    → take bud groups ≡ take_loop bud groups
unfolding take
take-limited bud groups l =
    ap
      (λ limit.
        if limit
        then take_loop bud groups
        else record { budget = bud; kept = groups; omitted = [] })
      l

-- With a limit of `n` mutants, of which the budget is what is left, and groups that are not empty,
-- `take` cuts the groups in two without reordering them. It keeps nothing only where there are no groups
-- or the brief lists some mutant already; otherwise what it keeps fits the limit, or is the first group
-- of the brief. The first group that it omits would go over the limit.
pub take_lem :
    (n : ℕ) (bud : LlmBudget) (groups : List FunctionSurvivors)
    → bud.limit ≡ true
    → Within n bud
    → All (λ g. 0 < size g) groups
    → ((take bud groups).kept ++ (take bud groups).omitted ≡ groups)
      × (Fits n bud.listed groups (take bud groups).kept
          × NextIsOver n (bud.listed + total_size (take bud groups).kept) (take bud groups).omitted)
take_lem n bud groups l w a = rw (take-limited bud groups l) (
  take_loop-concat bud groups,
  (take_loop-Fits n bud groups w a, take_loop-NextIsOver n bud groups w),
)
