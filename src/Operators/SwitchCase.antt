-- ===== src/Operators/SwitchCase.antt =====
-- internal/operators/switch_case.go: what a rewritten expression switch runs. A test is a case
-- expression compared with the tag's value, or the expression itself where there is no tag. A
-- run ends with the clause that is entered: what a `fallthrough` at the end of its body would run is
-- not part of it.
pub mod Exec
pub mod Collect
pub mod Active
pub mod Select
pub mod Mutate
pub mod Laws
pub mod Tests
use kanly.Base.{
  ℕ, ◌+◌, Bool, true, false, Text, codes, List, [], ◌∷◌, ◌++◌, Option, none, some, ◌==◌, nat_eq,
  map, if◌then◌else◌,
}
use kanly.Base.Int.{ℤ, pos, negsuc, int_eq}
use kanly.Base.Map.{Map, lookup, insert}
use kanly.Base.Strings.{has_prefix}
use kanly.Go.{Outcome, value, panic, Run}
use kanly.Schema.Plain.{cmut_keep, cmut_swap}

abbrev pub then_run : {S A B : Type 0} → Outcome (A × S) → (A → Run S B) → Outcome (B × S)
then_run (value (a, s)) f = f a s
then_run (panic msg) f = panic msg

module _ (S V : Type 0) where
  abbrev pub Test : Type 0
  Test = V → Run S Bool

-- `tests` is `none` for the default clause.
pub record Clause (S V B : Type 0) : Type 0 where
  pub pos : ℕ
  pub tests : Option (List (Test S V))
  pub body : B

pub record Switch (S V B : Type 0) : Type 0 where
  pub tag : Run S V
  pub clauses : List (Clause S V B)

abbrev pub or_body : {B : Type 0} → Option B → Option B → Option B
or_body (some b) o = some b
or_body none o = o

abbrev pub if_default : {T B : Type 0} → Option T → B → Option B
if_default none b = some b
if_default (some ts) b = none

module _ {S V : Type 0} where
  unfoldable pub match_any : List (Test S V) → V → Run S Bool
  match_any [] v s = value (false, s)
  match_any (t ∷ ts) v s =
      then_run (t v s) (λ hit s'. elim hit [ true ↦ value (true, s') | false ↦ match_any ts v s' ])

  module _ {B : Type 0} where
    -- The body of the default clause.
    unfoldable pub default_body : List (Clause S V B) → Option B
    default_body [] = none
    default_body (c ∷ cs) = or_body (default_body cs) (if_default c.tests c.body)

    -- What Go runs: the clauses top to bottom, and the default where none matches.
    unfoldable pub pick : V → Option B → List (Clause S V B) → Run S (Option B)
    unfolding match_any
    pick v dflt [] s = value (dflt, s)
    pick v dflt (c ∷ cs) s = elim c.tests [
      | none ↦ pick v dflt cs s
      | some ts ↦
          then_run (match_any ts v s)
            (λ hit s'. elim hit [ true ↦ value (some c.body, s') | false ↦ pick v dflt cs s' ])
    ]

    unfoldable pub run_switch : Switch S V B → Run S (Option B)
    unfolding pick default_body
    run_switch sw s = then_run (sw.tag s) (λ v s'. pick v (default_body sw.clauses) sw.clauses s')

-- The statements of the closure before its last `return`.
pub data Stmt (S V : Type 0) : Type 0 where
  return_if : Test S V → ℕ → Stmt S V
  if_keep : ℕ → List (Test S V × ℕ) → Stmt S V

pub record Candidate : Type 0 where
  pub pos : ℕ
  pub mutant : Text

abbrev pub switch_swap_mutant : Text
switch_swap_mutant = codes "swap with "

abbrev pub or_first : Option ℕ → ℕ
or_first none = 0
or_first (some i) = i

module _ {S V : Type 0} where
  abbrev pub as_label : ℕ → Option (List (Test S V)) → Option (List (Test S ℤ))
  as_label i none = none
  as_label i (some ts) = some ((λ w s. value (w == pos i, s)) ∷ [])

  abbrev pub guarded : Option ℕ → ℕ → List (Test S V) → List (Stmt S V)
  guarded none i ts = map (λ t. return_if t i) ts
  guarded (some id) i ts = if_keep id (map (λ t. (t, i)) ts) ∷ []

module _ {S V B : Type 0} where
  -- The map `index`.
  unfoldable pub index_from : ℕ → List (Clause S V B) → Map ℕ ℕ → Map ℕ ℕ
  index_from i [] index = index
  index_from i (c ∷ cs) index = index_from (i + 1) cs (insert c.pos i index)

  -- `newClauses`: each case lists its index.
  unfoldable pub labelled : ℕ → List (Clause S V B) → List (Clause S ℤ B)
  labelled i [] = []
  labelled i (c ∷ cs) =
      record { pos = c.pos; tests = as_label i c.tests; body = c.body } ∷ labelled (i + 1) cs

  unfoldable pub default_idx : ℕ → ℤ → List (Clause S V B) → ℤ
  default_idx i d [] = d
  default_idx i d (c ∷ cs) = default_idx (i + 1) (elim c.tests [ none ↦ pos i | some ts ↦ d ]) cs

  unfoldable pub body_from : Map ℕ ℕ → ℕ → List (Clause S V B) → List (Stmt S V)
  body_from drops i [] = []
  body_from drops i (c ∷ cs) = elim c.tests [
    | none ↦ body_from drops (i + 1) cs
    | some ts ↦ guarded (lookup i drops) i ts ++ body_from drops (i + 1) cs
  ]

-- The loop over `cands`: `drops`, and `swaps` with the index of the first of its clauses.
unfoldable pub collect :
    Map ℕ ℕ → List (Candidate × ℕ) → Map ℕ ℕ → List (ℕ × ℕ) → Map ℕ ℕ × List (ℕ × ℕ)
collect index [] drops swaps = (drops, swaps)
collect index ((c, id) ∷ cands) drops swaps =
    let idx = or_first (lookup c.pos index) in
    elim (has_prefix c.mutant switch_swap_mutant) [
      | true ↦ collect index cands drops (swaps ++ (idx, id) ∷ [])
      | false ↦ collect index cands (insert idx id drops) swaps
    ]

module _ (active : ℤ) where
  unfoldable pub exec_tests : {S V : Type 0} → List (Test S V × ℕ) → V → Run S (Option ℕ)
  exec_tests [] v s = value (none, s)
  exec_tests ((t, i) ∷ ts) v s =
      then_run (t v s)
        (λ hit s'. elim hit [ true ↦ value (some i, s') | false ↦ exec_tests ts v s' ])

  -- The closure's body, which ends in `return d`.
  unfoldable pub exec : {S V : Type 0} → List (Stmt S V) → ℤ → V → Run S ℤ
  unfolding exec_tests
  exec [] d v s = value (d, s)
  exec (return_if t i ∷ body) d v s =
      then_run (t v s) (λ hit s'. elim hit [ true ↦ value (pos i, s') | false ↦ exec body d v s' ])
  exec (if_keep id ts ∷ body) d v s = elim (cmut_keep active (id ∷ [])) [
    | false ↦ exec body d v s
    | true ↦
        then_run (exec_tests ts v s)
          (λ r s'. elim r [ some i ↦ value (pos i, s') | none ↦ exec body d v s' ])
  ]

  -- The calls of `__cMutSwap` around the closure, the first swap innermost.
  unfoldable pub swap_all : List (ℕ × ℕ) → ℤ → ℤ
  swap_all [] w = w
  swap_all ((k, id) ∷ swaps) w = swap_all swaps (cmut_swap active w (pos k) (pos (k + 1)) (id ∷ []))

  unfoldable pub rewrite_group :
      {S V B : Type 0} → Switch S V B → List (Candidate × ℕ) → Switch S ℤ B
  unfolding exec swap_all index_from labelled default_idx body_from collect
  rewrite_group sw cands =
      let (drops, swaps) = collect (index_from 0 sw.clauses []) cands [] [] in
      record {
        tag = λ s. then_run (sw.tag s) (λ v s'.
            then_run
              (exec (body_from drops 0 sw.clauses) (default_idx 0 (negsuc 0) sw.clauses) v s')
              (λ w s''. value (swap_all swaps w, s'')));
        clauses = labelled 0 sw.clauses;
      }
