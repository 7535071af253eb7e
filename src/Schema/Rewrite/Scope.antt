-- ===== src/Schema/Rewrite/Scope.antt =====
-- internal/schema/rewriter.go: a scoped run beside one that reports everything.
use mathlib.Core.List.{append-nil}
use mathlib.Core.Path.{subst₂}
use kanly.Base.{
  ℕ, ◌≡◌, refl, sym, ◌∙◌, Bool, true, false, not, ◌&&◌, Text, List, [], ◌∷◌, ◌++◌, Option, none,
  some, arith, keep, keep-append, if◌then◌else◌, Bool-cases, inl, inr,
}
use kanly.Base.Map.{Map, lookup}
use kanly.Base.Sort.{sort}
use kanly.Mutation.{Mutation}
use kanly.Schema.Ignore.{Ignores, covers}
use kanly.Base.Attempt.{>>=-eq-done, done, done-injective}
use kanly.Schema.Rewrite.Run.{
  Sites, Rewritten, by_path, number_steps, number_file, rewrite_files, rewrite_with, chain-eq-done,
  grouped,
}
use kanly.Schema.Rewrite.{
  Candidate, SourceFile, Operator, Options, State, fresh, describe, settle, settle_as, Fate, fate,
  out_of_scope, suppressed, reported, visit, visit_all, run_operators, next_occurrences,
  passes_filter, selects, is_accepted,
}

-- The run that reports every mutant but those under a `//kanly:ignore`.
abbrev pub everything : Options
everything = record { filter = none; operators = none; accepted = [] }

abbrev pub in_scope : Options → Mutation → Bool
in_scope opts m =
    (passes_filter opts m.file m.line m.function && selects opts m.operator_name)
    && not (is_accepted opts m.fingerprint)

-- The state of a scoped run beside that of the run that reports everything.
pub record Agree (opts : Options) (s t : State) : Type 0 where
  pub same_id : s.mut_id ≡ t.mut_id
  pub same_occurrences : s.occurrences ≡ t.occurrences
  pub narrowed : s.mutations ≡ keep (in_scope opts) t.mutations

everything_passes : (m : Mutation) → in_scope everything m ≡ true
unfolding passes_filter selects is_accepted lookup
everything_passes m = refl

abbrev is_reported : Fate → Bool
is_reported reported = true
is_reported _ = false

is_reported-fate :
    (opts : Options) (ign : Ignores) (op : Operator) (c : Candidate) (m : Mutation)
    → is_reported (fate opts ign op c m)
      ≡ (in_scope opts m && not (covers ign op.name c.pos m.line))
unfolding fate
is_reported-fate opts ign op c m = ground arith

-- What a turn of the loop does to the fields that a scope can change.
module _ (f : Fate) (accepted : Bool) (op : Operator) (c : Candidate) (occ : Map Text ℕ)
    (m : Mutation) (s : State) where
  settle_as-id : (settle_as f accepted op c occ m s).mut_id ≡ m.id
  unfolding settle_as
  settle_as-id = elim f as (λ g. (settle_as g accepted op c occ m s).mut_id ≡ m.id) [
    | out_of_scope ↦ refl
    | suppressed ↦ refl
    | reported ↦ refl
  ]

  settle_as-occurrences : (settle_as f accepted op c occ m s).occurrences ≡ occ
  unfolding settle_as
  settle_as-occurrences = elim f as (λ g. (settle_as g accepted op c occ m s).occurrences ≡ occ) [
    | out_of_scope ↦ refl
    | suppressed ↦ refl
    | reported ↦ refl
  ]

  settle_as-mutations :
      (settle_as f accepted op c occ m s).mutations
      ≡ (if is_reported f then s.mutations ++ m ∷ [] else s.mutations)
  unfolding settle_as
  settle_as-mutations =
      elim f
        as (λ g.
          (settle_as g accepted op c occ m s).mutations
          ≡ (if is_reported g then s.mutations ++ m ∷ [] else s.mutations)) [
            | out_of_scope ↦ refl
            | suppressed ↦ refl
            | reported ↦ refl
          ]

keep_step :
    (p : Mutation → Bool) (all clear : Bool) (m : Mutation) (ss ts : List Mutation)
    → all ≡ true
    → ss ≡ keep p ts
    → (if p m && clear then ss ++ m ∷ [] else ss)
      ≡ keep p (if all && clear then ts ++ m ∷ [] else ts)
keep_step p all clear m ss ts h k =
    ground (arith, keep-append p ts (m ∷ []), append-nil (keep p ts))

settle-Agree :
    (opts : Options) (ign : Ignores) (op : Operator) (c : Candidate) (occ : Map Text ℕ)
    (m : Mutation) (s t : State)
    → Agree opts s t
    → Agree opts (settle opts ign op c occ m s) (settle everything ign op c occ m t)
unfolding settle
settle-Agree opts ign op c occ m s t a = record {
  same_id = settle_as-id _ _ op c occ m s ∙ sym (settle_as-id _ _ op c occ m t);
  same_occurrences =
      settle_as-occurrences _ _ op c occ m s ∙ sym (settle_as-occurrences _ _ op c occ m t);
  narrowed =
      rw
        (
          settle_as-mutations _ _ op c occ m s,
          settle_as-mutations _ _ op c occ m t,
          is_reported-fate opts ign op c m,
          is_reported-fate everything ign op c m,
        )
        (keep_step (in_scope opts) (in_scope everything m) (not (covers ign op.name c.pos m.line)) m
          s.mutations t.mutations (everything_passes m) a.narrowed);
}

module _ (digest : Text → Text) (pkg : Text) (opts : Options) where
  describe-Agree :
      (file : SourceFile) (lines : List Text) (op : Operator) (s t : State) (c : Candidate)
      → s.mut_id ≡ t.mut_id
      → s.occurrences ≡ t.occurrences
      → describe digest pkg file lines op s c ≡ describe digest pkg file lines op t c
  unfolding describe next_occurrences
  describe-Agree file lines op s t c h k = rw (h, k) refl

  next_occurrences-Agree :
      (file : SourceFile) (lines : List Text) (op : Operator) (s t : State) (c : Candidate)
      → s.occurrences ≡ t.occurrences
      → next_occurrences digest pkg file lines op s c
        ≡ next_occurrences digest pkg file lines op t c
  unfolding next_occurrences
  next_occurrences-Agree file lines op s t c k = rw k refl

  visit-Agree :
      (file : SourceFile) (ign : Ignores) (lines : List Text) (op : Operator) (s t : State)
      (c : Candidate)
      → Agree opts s t
      → Agree opts
          (visit digest pkg opts file ign lines op s c)
          (visit digest pkg everything file ign lines op t c)
  unfolding visit
  visit-Agree file ign lines op s t c a =
      rw
        (
          describe-Agree file lines op s t c a.same_id a.same_occurrences,
          next_occurrences-Agree file lines op s t c a.same_occurrences,
        )
        (settle-Agree opts ign op c _ _ s t a)

  visit_all-Agree :
      (file : SourceFile) (ign : Ignores) (lines : List Text) (op : Operator) (s t : State)
      (cands : List Candidate)
      → Agree opts s t
      → Agree opts
          (visit_all digest pkg opts file ign lines op s cands)
          (visit_all digest pkg everything file ign lines op t cands)
  unfolding visit_all
  visit_all-Agree file ign lines op s t [] a = a
  visit_all-Agree file ign lines op s t (c ∷ cands) a =
      visit_all-Agree file ign lines op (visit digest pkg opts file ign lines op s c)
        (visit digest pkg everything file ign lines op t c) cands
        (visit-Agree file ign lines op s t c a)

  pub run_operators-Agree :
      (file : SourceFile) (ign : Ignores) (lines : List Text) (ops : List Operator) (s t : State)
      → Agree opts s t
      → Agree opts
          (run_operators digest pkg opts file ign lines ops s)
          (run_operators digest pkg everything file ign lines ops t)
  unfolding run_operators
  run_operators-Agree file ign lines [] s t a = a
  run_operators-Agree file ign lines (op ∷ ops) s t a =
      run_operators-Agree file ign lines ops
        (visit_all digest pkg opts file ign lines op s (op.find file))
        (visit_all digest pkg everything file ign lines op t (op.find file))
        (visit_all-Agree file ign lines op s t (op.find file) a)

  number_steps-Agree :
      (ops : List Operator) (file : SourceFile) (oi : Option Ignores) (ol : Option (List Text))
      (s t : State)
      → Agree opts s t
      → {s' t' : State} → number_steps digest pkg ops opts file oi ol s ≡ done s'
      → number_steps digest pkg ops everything file oi ol t ≡ done t'
      → Agree opts s' t'
  unfolding number_steps
  number_steps-Agree ops file none ol s t a h k = cc
  number_steps-Agree ops file (some ign) none s t a h k = cc
  number_steps-Agree ops file (some ign) (some lines) s t a h k =
      subst₂ (Agree opts) (done-injective h) (done-injective k) (
        run_operators-Agree file ign lines ops (record s { entries = [] })
          (record t { entries = [] })
          (record {
            same_id = a.same_id;
            same_occurrences = a.same_occurrences;
            narrowed = a.narrowed;
          }))

  rewrite_files-Agree :
      (ops : List Operator) (known : List Text) (files : List SourceFile) (s t : State)
      → Agree opts s t
      → {r r' : State × Sites} → rewrite_files digest pkg ops known opts files s ≡ done r
      → rewrite_files digest pkg ops known everything files t ≡ done r'
      → Agree opts r.0 r'.0
  unfolding rewrite_files number_file
  rewrite_files-Agree ops known [] s t a h k =
      subst₂ (λ (x y : State × Sites). Agree opts x.0 y.0) (done-injective h) (done-injective k) a
  rewrite_files-Agree ops known (file ∷ files) s t a {r} {r'} h k =
      elim (Bool-cases file.generated) [
        | inl g ↦ rewrite_files-Agree ops known files s t a (rw g at h) (rw g at k)
        | inr g ↦
            let (s1, h1, r1, h2, h3) =
              chain-eq-done (number_file digest pkg ops known opts file s)
                (grouped digest pkg ops known file) (rewrite_files digest pkg ops known opts files)
                (rw g at h) in
            let (t1, k1, r2, k2, k3) =
              chain-eq-done (number_file digest pkg ops known everything file t)
                (grouped digest pkg ops known file)
                (rewrite_files digest pkg ops known everything files) (rw g at k) in
            subst₂ (Agree opts) h3 k3 (
              rewrite_files-Agree ops known files s1 t1
                (number_steps-Agree ops file _ _ s t a h1 k1) h2 k2)
      ]

  -- Where a scoped run and the run that reports everything both succeed, the scoped run lists the
  -- mutants of the other that its filter, its operators and its accepted fingerprints let
  -- through, in the same order, with the same IDs, fingerprints and other fields.
  pub rewrite_with-in_scope :
      (ops : List Operator) (known : List Text) (files : List SourceFile) {r r' : Rewritten}
      → rewrite_with digest pkg ops known opts files ≡ done r
      → rewrite_with digest pkg ops known everything files ≡ done r'
      → r.mutations ≡ keep (in_scope opts) r'.mutations
  unfolding rewrite_with
  rewrite_with-in_scope ops known files h k =
      let (r1, h1, h2) =
        >>=-eq-done (rewrite_files digest pkg ops known opts (sort by_path files) fresh) _ h in
      let (r2, k1, k2) =
        >>=-eq-done (rewrite_files digest pkg ops known everything (sort by_path files) fresh) _
          k in
      let a =
        rewrite_files-Agree ops known (sort by_path files) fresh fresh
          (record { same_id = refl; same_occurrences = refl; narrowed = refl }) h1 k1 in
      subst₂ (λ (x y : Rewritten). x.mutations ≡ keep (in_scope opts) y.mutations)
        (done-injective h2) (done-injective k2) a.narrowed
