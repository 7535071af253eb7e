-- ===== src/Schema/Rewrite/Composition.antt =====
-- internal/schema/rewriter.go: a run whose shape-specific operators agree on the dispatcher of a node.
use mathlib.Core.Path.{subst}
use kanly.Base.{
  ℕ, ◌≡◌, refl, ap, Bool, false, Text, List, [], ◌∷◌, ◌++◌, Option, none, some, All, ◌≢◌,
  Bool-cases, inl, inr,
}
use kanly.Base.Attempt.{Attempt, done, failed, ◌>>=◌, done-injective}
use kanly.Base.Map.{Map}
use kanly.Base.Sort.{sort}
use kanly.Mutation.{Mutation}
use kanly.Schema.Ignore.{Ignores}
use kanly.Schema.Rewrite.{
  Candidate, SourceFile, Operator, Options, State, Entry, fresh, settle, settle_as, Fate,
  out_of_scope, suppressed, reported, visit, visit_all, run_operators,
}
use kanly.Schema.Rewrite.Run.{
  conflict, sites_of, by_path, number_steps, number_file, grouped, rewrite_files, rewrite_with,
}
use kanly.Schema.Rewrite.Shapes.{Fits, no_conflict}

failed-injective : {E A : Type 0} {x y : E} → ◌≡◌ {A = Attempt E A} (failed x) (failed y) → x ≡ y
failed-injective h = cc

-- A step that does not fail in a way, followed by steps that do not, does not.
>>=-never :
    {E A B : Type 0} (e : E) (m : Attempt E A) (f : A → Attempt E B)
    → m ≢ failed e
    → ((a : A) → m ≡ done a → f a ≢ failed e)
    → (m >>= f) ≢ failed e
>>=-never e (done a) f h k p = k a refl p
>>=-never e (failed x) f h k p = h (ap (λ x. failed x) (failed-injective p))

All-snoc :
    {A : Type 0} (P : A → Type 0) (xs : List A) (x : A) → All P xs → P x → All P (xs ++ x ∷ [])
All-snoc P [] x a p = (p, tt)
All-snoc P (y ∷ xs) x (q, a) p = (q, All-snoc P xs x a p)

-- A shape-specific operator finds nodes of its dispatcher in each file.
abbrev pub Agrees : (SourceFile → ℕ → Text) → Operator → Type 0
Agrees key_at op =
    op.wraps ≡ false
    → (file : SourceFile) → All (λ c. key_at file c.node ≡ op.dispatcher_key) (op.find file)

module _ (digest : Text → Text) (pkg : Text) (opts : Options) (key_at : SourceFile → ℕ → Text) where
  module _ (file : SourceFile) (ign : Ignores) (lines : List Text) where
    settle_as-Fits :
        (fate : Fate) (accepted : Bool) (op : Operator) (c : Candidate) (occ : Map Text ℕ)
        (m : Mutation) (s : State)
        → (op.wraps ≡ false → key_at file c.node ≡ op.dispatcher_key)
        → All (Fits (key_at file)) s.entries
        → All (Fits (key_at file)) (settle_as fate accepted op c occ m s).entries
    unfolding settle_as
    settle_as-Fits out_of_scope accepted op c occ m s k a = a
    settle_as-Fits suppressed accepted op c occ m s k a = a
    settle_as-Fits reported accepted op c occ m s k a = All-snoc _ s.entries _ a k

    visit_all-Fits :
        (op : Operator) (s : State) (cands : List Candidate)
        → (op.wraps ≡ false → All (λ c. key_at file c.node ≡ op.dispatcher_key) cands)
        → All (Fits (key_at file)) s.entries
        → All (Fits (key_at file)) (visit_all digest pkg opts file ign lines op s cands).entries
    unfolding visit_all visit settle
    visit_all-Fits op s [] k a = a
    visit_all-Fits op s (c ∷ cands) k a =
        visit_all-Fits op (visit digest pkg opts file ign lines op s c) cands (λ w. (k w).1)
          (settle_as-Fits _ _ op c _ _ s (λ w. (k w).0) a)

    run_operators-Fits :
        (ops : List Operator) (s : State)
        → All (Agrees key_at) ops
        → All (Fits (key_at file)) s.entries
        → All (Fits (key_at file)) (run_operators digest pkg opts file ign lines ops s).entries
    unfolding run_operators
    run_operators-Fits [] s k a = a
    run_operators-Fits (op ∷ ops) s (k, ks) a =
        run_operators-Fits ops (visit_all digest pkg opts file ign lines op s (op.find file)) ks
          (visit_all-Fits op s (op.find file) (λ w. k w file) a)

  number_steps-Fits :
      (ops : List Operator) (file : SourceFile) (oi : Option Ignores) (ol : Option (List Text))
      (s : State) (s' : State)
      → All (Agrees key_at) ops
      → number_steps digest pkg ops opts file oi ol s ≡ done s'
      → All (Fits (key_at file)) s'.entries
  unfolding number_steps
  number_steps-Fits ops file none ol s s' k h = cc
  number_steps-Fits ops file (some ign) none s s' k h = cc
  number_steps-Fits ops file (some ign) (some lines) s s' k h =
      subst (λ (t : State). All (Fits (key_at file)) t.entries) (done-injective h)
        (run_operators-Fits file ign lines ops (record s { entries = [] }) k tt)

  number_steps-never :
      (ops : List Operator) (file : SourceFile) (oi : Option Ignores) (ol : Option (List Text))
      (s : State)
      → number_steps digest pkg ops opts file oi ol s ≢ failed conflict
  unfolding number_steps
  number_steps-never ops file none ol s h = cc
  number_steps-never ops file (some ign) none s h = cc
  number_steps-never ops file (some ign) (some lines) s h = cc

  sites_of-never :
      (file : SourceFile) (es : List Entry)
      → All (Fits (key_at file)) es
      → sites_of file.path es ≢ failed conflict
  sites_of-never file [] a h = cc
  sites_of-never file (e ∷ es) a h = cc (rw (no_conflict (key_at file) (e ∷ es) a) at h)

  rewrite_files-never :
      (ops : List Operator) (known : List Text) (files : List SourceFile) (s : State)
      → All (Agrees key_at) ops
      → rewrite_files digest pkg ops known opts files s ≢ failed conflict
  unfolding rewrite_files number_file grouped
  rewrite_files-never ops known [] s k h = cc
  rewrite_files-never ops known (file ∷ files) s k h = elim (Bool-cases file.generated) [
    | inl g ↦ rewrite_files-never ops known files s k (rw g at h)
    | inr g ↦
        >>=-never conflict (number_file digest pkg ops known opts file s) _
          (number_steps-never ops file _ _ s)
          (λ s' e.
            >>=-never conflict (grouped digest pkg ops known file s') _
              (sites_of-never file s'.entries (number_steps-Fits ops file _ _ s s' k e))
              (λ sites e'.
                >>=-never conflict (rewrite_files digest pkg ops known opts files s') _
                  (rewrite_files-never ops known files s' k) (λ r e'' p. cc)))
          (rw g at h)
  ]

  -- A run whose shape-specific operators agree on the dispatcher of each node never fails because
  -- two of them rewrite one expression.
  pub rewrite_with-composes :
      (ops : List Operator) (known : List Text) (files : List SourceFile)
      → All (Agrees key_at) ops
      → rewrite_with digest pkg ops known opts files ≢ failed conflict
  unfolding rewrite_with
  rewrite_with-composes ops known files k =
      >>=-never conflict (rewrite_files digest pkg ops known opts (sort by_path files) fresh) _
        (rewrite_files-never ops known (sort by_path files) fresh k) (λ r e p. cc)
