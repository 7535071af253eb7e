-- ===== src/Schema/Cases.antt =====
-- Which case of a generated switch a call site reaches.
use kanly.Base.{
  ℕ, ◌≡◌, refl, true, false, Text, List, [], ◌∷◌, none, some, arith, contains, nat_eq, text_eq,
  if◌then◌else◌,
}
use kanly.Base.Int.{ℤ, pos, int_eq}
use kanly.Mutation.{Mutation}
use kanly.Schema.Dispatcher.{by_operator, find_case, find_case-by_operator}
use kanly.Schema.Runtime.{is_active, any_active, active_case}

pub active_case-none :
    (active : ℤ) (muts : List Mutation) (ids : List ℕ)
    → any_active active ids ≡ false
    → active_case active muts ids ≡ none
unfolding active_case
active_case-none active muts [] h = refl
active_case-none active muts (i ∷ ids) h = ground (arith, active_case-none active muts ids)

-- The active mutant's case is reached through any call site that lists it.
pub active_case-some :
    (muts : List Mutation) (ids : List ℕ) (i : ℕ) (m : Mutation)
    → contains ids i ≡ true
    → find_case muts i ≡ some m
    → active_case (pos i) muts ids ≡ some m
unfolding active_case
active_case-some muts [] i m h k = cc
active_case-some muts (j ∷ ids) i m h k = ground (arith, active_case-some muts ids i m)

-- A call site with one mutant.
pub active_case_one :
    (active : ℤ) (muts : List Mutation) (names : List Text) (m : Mutation)
    → find_case muts m.id ≡ some m
    → contains names m.operator_name ≡ true
    → active_case active (by_operator muts names) (m.id ∷ [])
      ≡ (if is_active active m.id then some m else none)
unfolding active_case
active_case_one active muts names m h k =
    rw (find_case-by_operator muts names m.id m h k) (ground arith)

-- A call site with two.
pub active_case_two :
    (active : ℤ) (muts : List Mutation) (names : List Text) (m n : Mutation)
    → find_case muts m.id ≡ some m
    → contains names m.operator_name ≡ true
    → find_case muts n.id ≡ some n
    → contains names n.operator_name ≡ true
    → active_case active (by_operator muts names) (m.id ∷ n.id ∷ [])
      ≡ (if is_active active m.id then some m else if is_active active n.id then some n else none)
unfolding active_case
active_case_two active muts names m n h k h' k' =
    rw (find_case-by_operator muts names m.id m h k, find_case-by_operator muts names n.id n h' k')
      (ground arith)
