-- ===== src/Operators/SwitchCase/Exec.antt =====
-- internal/operators/switch_case.go: the closure that stands for the tag, beside the clauses.
use kanly.Base.{
  ℕ, ◌+◌, ◌≡◌, refl, sym, ap, ◌∙◌, Bool, true, false, List, [], ◌∷◌, ◌++◌, Option, none, some,
  nat_eq, map, Bool-cases, inl, inr, if◌then◌else◌,
}
use kanly.Base.Int.{ℤ, pos}
use kanly.Base.Map.{Map, lookup}
use kanly.Go.{Outcome, value, panic, Run}
use kanly.Schema.Plain.{cmut_keep}
use kanly.Schema.Runtime.{is_active}
use kanly.Operators.SwitchCase.{
  then_run, Test, Clause, match_any, pick, Stmt, return_if, if_keep, guarded, body_from, exec_tests,
  exec,
}

pub then_run_assoc :
    {S A B C : Type 0} (o : Outcome (A × S)) (f : A → Run S B) (g : B → Run S C)
    → then_run (then_run o f) g ≡ then_run o (λ a s. then_run (f a s) g)
then_run_assoc (value (a, s)) f g = refl
then_run_assoc (panic msg) f g = refl

-- Runs that agree after either answer agree.
pub then_run_bool :
    {S B : Type 0} (o : Outcome (Bool × S)) (f g : Bool → Run S B)
    → ((s : S) → f true s ≡ g true s)
    → ((s : S) → f false s ≡ g false s)
    → then_run o f ≡ then_run o g
then_run_bool (value (true, s)) f g h k = h s
then_run_bool (value (false, s)) f g h k = k s
then_run_bool (panic msg) f g h k = refl

-- Whether the drop mutant that the map has for a clause is active.
abbrev pub fires : ℤ → Map ℕ ℕ → ℕ → Bool
fires active drops i = elim (lookup i drops) [ none ↦ false | some id ↦ is_active active id ]

module _ (active : ℤ) {S V : Type 0} where
  -- The statement of a clause that has no drop mutant.
  exec-return_ifs :
      (ts : List (Test S V)) (i : ℕ) (body : List (Stmt S V)) (d : ℤ) (v : V) (s : S)
      → exec active (map (λ t. return_if t i) ts ++ body) d v s
        ≡ then_run
            (match_any ts v s)
            (λ hit s'. elim hit [ true ↦ value (pos i, s') | false ↦ exec active body d v s' ])
  unfolding exec match_any
  exec-return_ifs [] i body d v s = refl
  exec-return_ifs (t ∷ ts) i body d v s =
      then_run_bool (t v s) _ _ (λ s'. refl) (λ s'. exec-return_ifs ts i body d v s')
      ∙ sym (then_run_assoc (t v s) _ _)

  exec_tests-return_ifs :
      (ts : List (Test S V)) (i : ℕ) (v : V) (s : S)
      → exec_tests active (map (λ t. (t, i)) ts) v s
        ≡ then_run (match_any ts v s) (λ hit s'. value (if hit then some i else none, s'))
  unfolding exec_tests match_any
  exec_tests-return_ifs [] i v s = refl
  exec_tests-return_ifs (t ∷ ts) i v s =
      then_run_bool (t v s) _ _ (λ s'. refl) (λ s'. exec_tests-return_ifs ts i v s')
      ∙ sym (then_run_assoc (t v s) _ _)

  -- A guarded clause runs its tests while its drop mutant is not active.
  exec-if_keep :
      (id : ℕ) (ts : List (Test S V)) (i : ℕ) (body : List (Stmt S V)) (d : ℤ) (v : V) (s : S)
      → is_active active id ≡ false
      → exec active (if_keep id (map (λ t. (t, i)) ts) ∷ body) d v s
        ≡ then_run
            (match_any ts v s)
            (λ hit s'. elim hit [ true ↦ value (pos i, s') | false ↦ exec active body d v s' ])
  unfolding exec cmut_keep
  exec-if_keep id ts i body d v s h =
      let k : Option ℕ → Run S ℤ =
        λ r s'. elim r [ some j ↦ value (pos j, s') | none ↦ exec active body d v s' ] in
      rw (h, exec, cmut_keep)
        (ap (λ o. then_run o k) (exec_tests-return_ifs ts i v s)
          ∙ (then_run_assoc (match_any ts v s) _ _
              ∙ then_run_bool (match_any ts v s) _ _ (λ s'. refl) (λ s'. refl)))

  exec-dropped :
      (id : ℕ) (ts : List (Test S V × ℕ)) (body : List (Stmt S V)) (d : ℤ) (v : V) (s : S)
      → is_active active id ≡ true
      → exec active (if_keep id ts ∷ body) d v s ≡ exec active body d v s
  unfolding exec cmut_keep
  exec-dropped id ts body d v s h = rw (h, exec, cmut_keep) refl

  exec-guarded :
      (drops : Map ℕ ℕ) (i : ℕ) (ts : List (Test S V)) (body : List (Stmt S V)) (d : ℤ) (v : V)
      (s : S)
      → exec active (guarded (lookup i drops) i ts ++ body) d v s
        ≡ then_run
            (match_any (if fires active drops i then [] else ts) v s)
            (λ hit s'. elim hit [ true ↦ value (pos i, s') | false ↦ exec active body d v s' ])
  unfolding match_any
  exec-guarded drops i ts body d v s = by_drop (lookup i drops)
    where
      by_drop :
          (o : Option ℕ)
          → exec active (guarded o i ts ++ body) d v s
            ≡ then_run
                (match_any
                  (if elim o [ none ↦ false | some id ↦ is_active active id ] then [] else ts)
                  v
                  s)
                (λ hit s'. elim hit [ true ↦ value (pos i, s') | false ↦ exec active body d v s' ])
      by_drop none = exec-return_ifs ts i body d v s
      by_drop (some id) = elim (Bool-cases (is_active active id)) [
        | inl h ↦ rw (h, match_any) (exec-dropped id (map (λ t. (t, i)) ts) body d v s h)
        | inr h ↦ rw h (exec-if_keep id ts i body d v s h)
      ]

abbrev pub without : {S V : Type 0} → Bool → Option (List (Test S V)) → Option (List (Test S V))
without dropped none = none
without dropped (some ts) = some (if dropped then [] else ts)

module _ (active : ℤ) (drops : Map ℕ ℕ) {S V B : Type 0} (k : ℤ → Run S (Option B)) where
  -- `ms` are the clauses `cs` from the index `i` on, without the tests of dropped clauses and with
  -- other bodies: `k` gives the body at an index.
  abbrev pub Follows : ℕ → List (Clause S V B) → List (Clause S V B) → Type 0
  Follows i [] [] = Unit {0}
  Follows i (c ∷ cs) (m ∷ ms) =
      (m.tests ≡ without (fires active drops i) c.tests)
      × ((s : S) → k (pos i) s ≡ value (some m.body, s))
      × Follows (i + 1) cs ms
  Follows i _ _ = ⊥

  -- The closure answers with the index of the clause that Go picks.
  pub exec-pick :
      (i : ℕ) (cs ms : List (Clause S V B)) (d : ℤ) (dflt : Option B) (v : V) (s : S)
      → Follows i cs ms
      → ((s : S) → k d s ≡ value (dflt, s))
      → then_run (exec active (body_from drops i cs) d v s) k ≡ pick v dflt ms s
  unfolding body_from pick exec
  exec-pick i [] [] d dflt v s f h = h s
  exec-pick i [] (m ∷ ms) d dflt v s f h = elim f [ ]
  exec-pick i (c ∷ cs) [] d dflt v s f h = elim f [ ]
  exec-pick i (c ∷ cs) (m ∷ ms) d dflt v s (e, b, f) h =
      clause c.tests refl (λ s'. exec-pick (i + 1) cs ms d dflt v s' f h)
    where
      clause :
          (t : Option (List (Test S V)))
          → c.tests ≡ t
          → ((s' : S)
              → then_run (exec active (body_from drops (i + 1) cs) d v s') k ≡ pick v dflt ms s')
          → then_run (exec active (body_from drops i (c ∷ cs)) d v s) k ≡ pick v dflt (m ∷ ms) s
      clause none ec rest =
          let em : m.tests ≡ none = e ∙ ap (without (fires active drops i)) ec in
          rw (ec, body_from, em, pick) (rest s)
      clause (some ts) ec rest =
          let em : m.tests ≡ some (if fires active drops i then [] else ts) =
            e ∙ ap (without (fires active drops i)) ec in
          rw (ec, body_from, em, pick)
            (ap (λ o. then_run o k)
                (exec-guarded active drops i ts (body_from drops (i + 1) cs) d v s)
              ∙ (then_run_assoc (match_any (if fires active drops i then [] else ts) v s) _ k
                  ∙ then_run_bool (match_any (if fires active drops i then [] else ts) v s) _ _ b
                      rest))
