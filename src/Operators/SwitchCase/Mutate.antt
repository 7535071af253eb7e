-- ===== src/Operators/SwitchCase/Mutate.antt =====
-- internal/operators/switch_case.go: the switch that a mutant's text describes, one clause without its
-- expressions or two clauses with their bodies exchanged.
use kanly.Base.{
  ℕ, zero, suc, ◌+◌, ◌<◌, ◌≤◌, ◌≡◌, refl, ap, ◌∙◌, Bool, true, false, List, [], ◌∷◌, Option, none,
  some, ◌==◌, nat_eq, arith, length, if◌then◌else◌,
}
use kanly.Base.Int.{ℤ, pos, int_eq}
use kanly.Operators.SwitchCase.{Test, Clause, default_idx}
use kanly.Operators.SwitchCase.Exec.{without}
use kanly.Operators.SwitchCase.Collect.{Mutant, drop, swap, positions, IsAllPlaced}
use kanly.Operators.SwitchCase.Active.{drops_clause, moved}
use kanly.Operators.SwitchCase.Select.{defaults, body_nth}

without-false : {S V : Type 0} (t : Option (List (Test S V))) → t ≡ without false t
without-false none = refl
without-false (some ts) = refl

is_default-without :
    {S V A : Type 0} (t : Option (List (Test S V))) (x y : A)
    → elim (without true t) [ none ↦ x | some ts ↦ y ] ≡ elim t [ none ↦ x | some ts ↦ y ]
is_default-without none x y = refl
is_default-without (some ts) x y = refl

module _ {S V B : Type 0} where
  abbrev pub drop_clause : ℕ → List (Clause S V B) → List (Clause S V B)
  drop_clause k [] = []
  drop_clause zero (c ∷ cs) =
      record { pos = c.pos; tests = without true c.tests; body = c.body } ∷ cs
  drop_clause (suc k) (c ∷ cs) = c ∷ drop_clause k cs

  abbrev pub swap_bodies : ℕ → List (Clause S V B) → List (Clause S V B)
  swap_bodies k [] = []
  swap_bodies k (a ∷ []) = a ∷ []
  swap_bodies zero (a ∷ b ∷ cs) =
      record { pos = a.pos; tests = a.tests; body = b.body }
      ∷ record { pos = b.pos; tests = b.tests; body = a.body }
      ∷ cs
  swap_bodies (suc k) (a ∷ b ∷ cs) = a ∷ swap_bodies k (b ∷ cs)

  abbrev pub mutate : Option Mutant → List (Clause S V B) → List (Clause S V B)
  mutate none cs = cs
  mutate (some (drop k id)) cs = drop_clause k cs
  mutate (some (swap label k id)) cs = swap_bodies k cs

  pub length-positions : (cs : List (Clause S V B)) → length (positions cs) ≡ length cs
  length-positions [] = refl
  length-positions (c ∷ cs) = ap suc (length-positions cs)

  -- The clauses `ms` have the tests of `cs` from the index `i` on, less those of dropped clauses.
  abbrev pub SameTests : (ℕ → Bool) → ℕ → List (Clause S V B) → List (Clause S V B) → Type 0
  SameTests dropped i [] [] = Unit {0}
  SameTests dropped i (c ∷ cs) (m ∷ ms) =
      (m.tests ≡ without (dropped i) c.tests) × SameTests dropped (i + 1) cs ms
  SameTests dropped i _ _ = ⊥

  SameTests-refl :
      (dropped : ℕ → Bool) (i : ℕ) (cs : List (Clause S V B))
      → ((j : ℕ) → i ≤ j → dropped j ≡ false)
      → SameTests dropped i cs cs
  SameTests-refl dropped i [] h = tt
  SameTests-refl dropped i (c ∷ cs) h = (
    rw (h i (omega arith)) (without-false c.tests),
    SameTests-refl dropped (i + 1) cs (λ j l. h j (omega arith)),
  )

  SameTests-drop_clause :
      (dropped : ℕ → Bool) (k i : ℕ) (cs : List (Clause S V B))
      → ((j : ℕ) → i ≤ j → dropped j ≡ (i + k == j))
      → SameTests dropped i cs (drop_clause k cs)
  SameTests-drop_clause dropped k i [] h = tt
  SameTests-drop_clause dropped zero i (c ∷ cs) h =
      let e : dropped i ≡ true = h i (omega arith) ∙ ground arith in
      (rw e refl, SameTests-refl dropped (i + 1) cs (λ j l. h j (omega arith) ∙ ground arith))
  SameTests-drop_clause dropped (suc k) i (c ∷ cs) h =
      let e : dropped i ≡ false = h i (omega arith) ∙ ground arith in
      (
        rw e (without-false c.tests),
        SameTests-drop_clause dropped k (i + 1) cs (λ j l. h j (omega arith) ∙ ground arith),
      )

  SameTests-swap_bodies :
      (k i : ℕ) (cs : List (Clause S V B)) → SameTests (λ j. false) i cs (swap_bodies k cs)
  SameTests-swap_bodies k i [] = tt
  SameTests-swap_bodies k i (a ∷ []) = (without-false a.tests, tt)
  SameTests-swap_bodies zero i (a ∷ b ∷ cs) = (
    without-false a.tests,
    (without-false b.tests, SameTests-refl (λ j. false) (i + 1 + 1) cs (λ j l. refl)),
  )
  SameTests-swap_bodies (suc k) i (a ∷ b ∷ cs) =
      (without-false a.tests, SameTests-swap_bodies k (i + 1) (b ∷ cs))

  pub SameTests-mutate :
      (am : Option Mutant) (cs : List (Clause S V B))
      → SameTests (drops_clause am) 0 cs (mutate am cs)
  SameTests-mutate none cs = SameTests-refl (λ j. false) 0 cs (λ j l. refl)
  SameTests-mutate (some (drop k id)) cs =
      SameTests-drop_clause (λ j. k == j) k 0 cs (λ j l. ground arith)
  SameTests-mutate (some (swap label k id)) cs = SameTests-swap_bodies k 0 cs

  body_nth-drop_clause :
      (k j : ℕ) (cs : List (Clause S V B)) → body_nth cs j ≡ body_nth (drop_clause k cs) j
  body_nth-drop_clause k j [] = refl
  body_nth-drop_clause zero zero (c ∷ cs) = refl
  body_nth-drop_clause zero (suc j) (c ∷ cs) = refl
  body_nth-drop_clause (suc k) zero (c ∷ cs) = refl
  body_nth-drop_clause (suc k) (suc j) (c ∷ cs) = body_nth-drop_clause k j cs

-- The index of the clause whose body the clause `j` gets.
abbrev pub source : ℕ → ℕ → ℕ
source k j = if j == k then k + 1 else if j == k + 1 then k else j

source-suc : (k j : ℕ) → source (suc k) (suc j) ≡ suc (source k j)
source-suc k j = ground arith

source-zero : (k : ℕ) → source (suc k) 0 ≡ 0
source-zero k = ground arith

source-past : (j : ℕ) → source 0 (suc (suc j)) ≡ suc (suc j)
source-past j = ground arith

module _ {S V B : Type 0} where
  body_nth-swap_bodies :
      (k j : ℕ) (cs : List (Clause S V B))
      → k + 1 < length cs
      → body_nth cs (source k j) ≡ body_nth (swap_bodies k cs) j
  body_nth-swap_bodies k j [] h = absurd (omega arith)
  body_nth-swap_bodies k j (a ∷ []) h = absurd (omega arith)
  body_nth-swap_bodies zero zero (a ∷ b ∷ cs) h = refl
  body_nth-swap_bodies zero (suc zero) (a ∷ b ∷ cs) h = refl
  body_nth-swap_bodies zero (suc (suc j)) (a ∷ b ∷ cs) h =
      ap (body_nth (a ∷ b ∷ cs)) (source-past j)
  body_nth-swap_bodies (suc k) zero (a ∷ b ∷ cs) h = ap (body_nth (a ∷ b ∷ cs)) (source-zero k)
  body_nth-swap_bodies (suc k) (suc j) (a ∷ b ∷ cs) h =
      rw (source-suc k j) (body_nth-swap_bodies k j (b ∷ cs) (omega arith))

  default_idx-drop_clause :
      (k i : ℕ) (d : ℤ) (cs : List (Clause S V B))
      → default_idx i d (drop_clause k cs) ≡ default_idx i d cs
  unfolding default_idx
  default_idx-drop_clause k i d [] = refl
  default_idx-drop_clause zero i d (c ∷ cs) =
      ap (λ e. default_idx (i + 1) e cs) (is_default-without c.tests (pos i) d)
  default_idx-drop_clause (suc k) i d (c ∷ cs) = default_idx-drop_clause k (i + 1) _ cs

  default_idx-swap_bodies :
      (k i : ℕ) (d : ℤ) (cs : List (Clause S V B))
      → default_idx i d (swap_bodies k cs) ≡ default_idx i d cs
  unfolding default_idx
  default_idx-swap_bodies k i d [] = refl
  default_idx-swap_bodies k i d (a ∷ []) = refl
  default_idx-swap_bodies zero i d (a ∷ b ∷ cs) = refl
  default_idx-swap_bodies (suc k) i d (a ∷ b ∷ cs) = default_idx-swap_bodies k (i + 1) _ (b ∷ cs)

  defaults-drop_clause :
      (k : ℕ) (cs : List (Clause S V B)) → defaults (drop_clause k cs) ≡ defaults cs
  defaults-drop_clause k [] = refl
  defaults-drop_clause zero (c ∷ cs) = ap (λ n. n + defaults cs) (is_default-without c.tests 1 0)
  defaults-drop_clause (suc k) (c ∷ cs) =
      ap (λ n. elim c.tests [ none ↦ 1 | some ts ↦ 0 ] + n) (defaults-drop_clause k cs)

  defaults-swap_bodies :
      (k : ℕ) (cs : List (Clause S V B)) → defaults (swap_bodies k cs) ≡ defaults cs
  defaults-swap_bodies k [] = refl
  defaults-swap_bodies k (a ∷ []) = refl
  defaults-swap_bodies zero (a ∷ b ∷ cs) = refl
  defaults-swap_bodies (suc k) (a ∷ b ∷ cs) =
      ap (λ n. elim a.tests [ none ↦ 1 | some ts ↦ 0 ] + n) (defaults-swap_bodies k (b ∷ cs))

  pub default_idx-mutate :
      (am : Option Mutant) (i : ℕ) (d : ℤ) (cs : List (Clause S V B))
      → default_idx i d (mutate am cs) ≡ default_idx i d cs
  default_idx-mutate none i d cs = refl
  default_idx-mutate (some (drop k id)) i d cs = default_idx-drop_clause k i d cs
  default_idx-mutate (some (swap label k id)) i d cs = default_idx-swap_bodies k i d cs

  pub defaults-mutate :
      (am : Option Mutant) (cs : List (Clause S V B)) → defaults (mutate am cs) ≡ defaults cs
  defaults-mutate none cs = refl
  defaults-mutate (some (drop k id)) cs = defaults-drop_clause k cs
  defaults-mutate (some (swap label k id)) cs = defaults-swap_bodies k cs

  length-SameTests :
      (dropped : ℕ → Bool) (i : ℕ) (cs ms : List (Clause S V B))
      → SameTests dropped i cs ms
      → length ms ≡ length cs
  length-SameTests dropped i [] [] t = refl
  length-SameTests dropped i [] (m ∷ ms) t = elim t [ ]
  length-SameTests dropped i (c ∷ cs) [] t = elim t [ ]
  length-SameTests dropped i (c ∷ cs) (m ∷ ms) (e, t) =
      ap suc (length-SameTests dropped (i + 1) cs ms t)

  pub length-mutate :
      (am : Option Mutant) (cs : List (Clause S V B)) → length (mutate am cs) ≡ length cs
  length-mutate am cs =
      length-SameTests (drops_clause am) 0 cs (mutate am cs) (SameTests-mutate am cs)

  -- A clause of the mutated switch has the body of the clause to which its index is moved.
  pub moved-body_nth :
      (am : Option Mutant) (j : ℕ) (cs : List (Clause S V B))
      → IsAllPlaced (length cs) am
      → j < length cs
      → (i : ℕ) × (i < length cs)
        × (moved am (pos j) ≡ pos i)
        × (body_nth cs i ≡ body_nth (mutate am cs) j)
  moved-body_nth none j cs p h = (j, h, refl, refl)
  moved-body_nth (some (drop k id)) j cs p h = (j, h, refl, body_nth-drop_clause k j cs)
  moved-body_nth (some (swap label k id)) j cs p h =
      (source k j, ground arith, ground arith, body_nth-swap_bodies k j cs p)
