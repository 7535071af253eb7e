-- ===== src/Operators/SwitchCase/Collect.antt =====
-- internal/operators/switch_case.go: the mutants of a switch, and what `RewriteGroup` reads off the
-- candidates.
use mathlib.Core.List.{append_assoc, append-nil}
use kanly.Base.{
  ℕ, zero, suc, ◌+◌, ◌<◌, ◌≡◌, refl, ap, ◌∙◌, true, false, Text, List, [], ◌∷◌, ◌++◌, Option, none,
  some, nat_eq, All, contains, Distinct, length, arith, if◌then◌else◌,
}
use kanly.Base.Int.{ℤ, int_eq}
use kanly.Base.Map.{Map, lookup, insert, lookup-insert}
use kanly.Base.Strings.{has_prefix, cut_prefix, cut_prefix-append}
use kanly.Schema.Runtime.{is_active}
use kanly.Operators.SwitchCase.{
  Clause, Candidate, switch_swap_mutant, or_first, index_from, collect,
}

-- A mutant of a switch, with the index of a clause and its ID: it drops the clause, or swaps its body
-- with the next one's. A swap's text names the next clause.
pub data Mutant : Type 0 where
  drop : ℕ → ℕ → Mutant
  swap : Text → ℕ → ℕ → Mutant

abbrev pub clause_of : Mutant → ℕ
clause_of (drop k id) = k
clause_of (swap label k id) = k

abbrev pub id_of : Mutant → ℕ
id_of (drop k id) = id
id_of (swap label k id) = id

abbrev pub positions : {S V B : Type 0} → List (Clause S V B) → List ℕ
positions [] = []
positions (c ∷ cs) = c.pos ∷ positions cs

abbrev pub nth : List ℕ → ℕ → ℕ
nth [] i = 0
nth (p ∷ ps) zero = p
nth (p ∷ ps) (suc i) = nth ps i

-- The candidate that `Find` returns for the mutant.
abbrev pub candidate : List ℕ → Mutant → Candidate × ℕ
candidate ps (drop k id) = (record { pos = nth ps k; mutant = [] }, id)
candidate ps (swap label k id) =
    (record { pos = nth ps k; mutant = switch_swap_mutant ++ label }, id)

abbrev pub candidates : List ℕ → List Mutant → List (Candidate × ℕ)
candidates ps [] = []
candidates ps (m ∷ ms) = candidate ps m ∷ candidates ps ms

lookup-index_from-other :
    {S V B : Type 0} (i : ℕ) (cs : List (Clause S V B)) (index : Map ℕ ℕ) (p : ℕ)
    → contains (positions cs) p ≡ false
    → lookup p (index_from i cs index) ≡ lookup p index
unfolding index_from
lookup-index_from-other i [] index p h = refl
lookup-index_from-other i (c ∷ cs) index p h =
    lookup-index_from-other (i + 1) cs (insert c.pos i index) p (ground arith)
    ∙ rw (lookup-insert c.pos p i index) (ground arith)

contains-nth : (ps : List ℕ) (k : ℕ) → k < length ps → contains ps (nth ps k) ≡ true
contains-nth [] k h = absurd (omega arith)
contains-nth (p ∷ ps) zero h = ground arith
contains-nth (p ∷ ps) (suc k) h = rw (contains-nth ps k (omega arith)) (ground arith)

-- The map has the index of each clause.
index_from-nth :
    {S V B : Type 0} (i : ℕ) (cs : List (Clause S V B)) (index : Map ℕ ℕ) (k : ℕ)
    → Distinct (positions cs)
    → k < length (positions cs)
    → lookup (nth (positions cs) k) (index_from i cs index) ≡ some (i + k)
unfolding index_from
index_from-nth i [] index k d h = absurd (omega arith)
index_from-nth i (c ∷ cs) index zero d h =
    lookup-index_from-other (i + 1) cs (insert c.pos i index) c.pos d.0
    ∙ rw (lookup-insert c.pos c.pos i index) (ground arith)
index_from-nth i (c ∷ cs) index (suc k) d h =
    index_from-nth (i + 1) cs (insert c.pos i index) k d.1 (omega arith) ∙ ap some (omega arith)

-- The clauses that drop mutants name.
abbrev pub dropped_clauses : List Mutant → List ℕ
dropped_clauses [] = []
dropped_clauses (drop k id ∷ ms) = k ∷ dropped_clauses ms
dropped_clauses (swap label k id ∷ ms) = dropped_clauses ms

abbrev pub ids : List Mutant → List ℕ
ids [] = []
ids (m ∷ ms) = id_of m ∷ ids ms

-- A mutant names a clause, and a swap one with a next clause.
abbrev pub IsPlaced : ℕ → Mutant → Type 0
IsPlaced n (drop k id) = k < n
IsPlaced n (swap label k id) = k + 1 < n

abbrev pub IsAllPlaced : ℕ → Option Mutant → Type 0
IsAllPlaced n none = Unit {0}
IsAllPlaced n (some m) = IsPlaced n m

-- The first active mutant.
abbrev pub active_mutant : ℤ → List Mutant → Option Mutant
active_mutant active [] = none
active_mutant active (m ∷ ms) =
    if is_active active (id_of m) then some m else active_mutant active ms

abbrev pub swaps_of : List Mutant → List (ℕ × ℕ)
swaps_of [] = []
swaps_of (drop k id ∷ ms) = swaps_of ms
swaps_of (swap label k id ∷ ms) = (k, id) ∷ swaps_of ms

abbrev pub drops_from : List Mutant → Map ℕ ℕ → Map ℕ ℕ
drops_from [] drops = drops
drops_from (drop k id ∷ ms) drops = drops_from ms (insert k id drops)
drops_from (swap label k id ∷ ms) drops = drops_from ms drops

is_swap : (label : Text) → has_prefix (switch_swap_mutant ++ label) switch_swap_mutant ≡ true
is_swap label = rw (cut_prefix-append switch_swap_mutant label) refl

is_no_swap : has_prefix [] switch_swap_mutant ≡ false
unfolding cut_prefix
is_no_swap = refl

module _ {S V B : Type 0} (cs : List (Clause S V B)) (d : Distinct (positions cs)) where
  clause_at :
      (k : ℕ)
      → k < length (positions cs)
      → or_first (lookup (nth (positions cs) k) (index_from 0 cs [])) ≡ k
  clause_at k h = rw (index_from-nth 0 cs [] k d h) (omega arith)

  pub collect-candidates :
      (ms : List Mutant) (drops : Map ℕ ℕ) (swaps : List (ℕ × ℕ))
      → All (IsPlaced (length (positions cs))) ms
      → collect (index_from 0 cs []) (candidates (positions cs) ms) drops swaps
        ≡ (drops_from ms drops, swaps ++ swaps_of ms)
  unfolding collect
  collect-candidates [] drops swaps a = rw (append-nil swaps) refl
  collect-candidates (drop k id ∷ ms) drops swaps (h, a) =
      rw (collect, is_no_swap, clause_at k h) (collect-candidates ms (insert k id drops) swaps a)
  collect-candidates (swap label k id ∷ ms) drops swaps (h, a) =
      rw (collect, is_swap label, clause_at k (omega arith))
        (collect-candidates ms drops (swaps ++ (k, id) ∷ []) a
          ∙ rw (append_assoc swaps ((k, id) ∷ []) (swaps_of ms)) refl)
