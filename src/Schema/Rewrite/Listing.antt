-- ===== src/Schema/Rewrite/Listing.antt =====
-- internal/schema/rewriter.go: the list of `RewriteWith` beside the switches made from it.
use mathlib.Core.List.{append-nil}
use mathlib.Core.Path.{subst}
use kanly.Base.{
  ℕ, ◌≤◌, ◌<◌, ◌≡◌, Bool, Text, List, [], ◌∷◌, ◌++◌, Option, none, some, arith, Bool-cases, inl,
  inr, nat_eq, All, text_eq,
}
use kanly.Base.Map.{Map}
use kanly.Base.Sort.{sort}
use kanly.Mutation.{Mutation}
use kanly.Schema.Dispatcher.{find_case}
use kanly.Schema.Ignore.{Ignores}
use kanly.Base.Attempt.{done, done-injective, >>=-eq-done}
use kanly.Schema.Rewrite.Run.{
  Sites, Rewritten, by_path, number_steps, number_file, rewrite_files, rewrite_with, chain-eq-done,
  grouped,
}
use kanly.Schema.Rewrite.{
  Candidate, SourceFile, Operator, Options, State, fresh, describe, settle, settle_as, Fate,
  out_of_scope, suppressed, reported, visit, visit_all, run_operators,
}

-- A mutation is found by its ID, and IDs up to `n` are taken.
abbrev Found : List Mutation → ℕ → Mutation → Type 0
Found muts n m = (find_case muts m.id ≡ some m) × (m.id ≤ n)

find_case-append :
    (muts more : List Mutation) (i : ℕ) (m : Mutation)
    → find_case muts i ≡ some m
    → find_case (muts ++ more) i ≡ some m
unfolding find_case
find_case-append [] more i m h = cc
find_case-append (n ∷ muts) more i m h = ground (arith, find_case-append muts more i m)

find_case-new :
    (muts : List Mutation) (n : ℕ) (m : Mutation)
    → All (λ k. k.id ≤ n) muts
    → n < m.id
    → find_case (muts ++ m ∷ []) m.id ≡ some m
unfolding find_case
find_case-new [] n m h lt = ground arith
find_case-new (k ∷ muts) n m h lt = ground (arith, find_case-new muts n m h.1 lt)

All-bounded : (muts all : List Mutation) (n : ℕ) → All (Found all n) muts → All (λ k. k.id ≤ n) muts
All-bounded [] all n f = tt
All-bounded (m ∷ muts) all n f = (f.0.1, All-bounded muts all n f.1)

-- The found mutations stay found when one with a new ID is added, or none is.
All-grow :
    (muts all more : List Mutation) (n n' : ℕ)
    → n ≤ n'
    → All (Found all n) muts
    → All (Found (all ++ more) n') muts
All-grow [] all more n n' le f = tt
All-grow (m ∷ muts) all more n n' le f = (
  (find_case-append all more m.id m f.0.0, omega (arith, f.0.1)),
  All-grow muts all more n n' le f.1,
)

All-snoc :
    (P : Mutation → Type 0) (muts : List Mutation) (m : Mutation)
    → All P muts
    → P m
    → All P (muts ++ m ∷ [])
All-snoc P [] m f p = (p, tt)
All-snoc P (k ∷ muts) m f p = (f.0, All-snoc P muts m f.1 p)

-- The IDs given so far reach up to `mut_id`.
abbrev pub Listed : State → Type 0
Listed st = All (Found st.mutations st.mut_id) st.mutations

settle_as-Listed :
    (f : Fate) (accepted : Bool) (op : Operator) (c : Candidate) (occ : Map Text ℕ) (m : Mutation)
    (s : State)
    → s.mut_id < m.id
    → Listed s
    → Listed (settle_as f accepted op c occ m s)
unfolding settle_as
settle_as-Listed out_of_scope accepted op c occ m s lt l =
    subst (λ all. All (Found all m.id) s.mutations) (append-nil s.mutations)
      (All-grow s.mutations s.mutations [] s.mut_id m.id (omega arith) l)
settle_as-Listed suppressed accepted op c occ m s lt l =
    subst (λ all. All (Found all m.id) s.mutations) (append-nil s.mutations)
      (All-grow s.mutations s.mutations [] s.mut_id m.id (omega arith) l)
settle_as-Listed reported accepted op c occ m s lt l =
    All-snoc _ s.mutations m
      (All-grow s.mutations s.mutations (m ∷ []) s.mut_id m.id (omega arith) l)
      (find_case-new s.mutations s.mut_id m (All-bounded s.mutations _ _ l) lt, omega arith)

module _ (digest : Text → Text) (pkg : Text) (opts : Options) where
  visit_all-Listed :
      (file : SourceFile) (ign : Ignores) (lines : List Text) (op : Operator) (s : State)
      (cands : List Candidate)
      → Listed s
      → Listed (visit_all digest pkg opts file ign lines op s cands)
  unfolding visit_all visit settle describe
  visit_all-Listed file ign lines op s [] l = l
  visit_all-Listed file ign lines op s (c ∷ cands) l =
      visit_all-Listed file ign lines op (visit digest pkg opts file ign lines op s c) cands
        (settle_as-Listed _ _ op c _ _ s (omega arith) l)

  run_operators-Listed :
      (file : SourceFile) (ign : Ignores) (lines : List Text) (ops : List Operator) (s : State)
      → Listed s
      → Listed (run_operators digest pkg opts file ign lines ops s)
  unfolding run_operators
  run_operators-Listed file ign lines [] s l = l
  run_operators-Listed file ign lines (op ∷ ops) s l =
      run_operators-Listed file ign lines ops
        (visit_all digest pkg opts file ign lines op s (op.find file))
        (visit_all-Listed file ign lines op s (op.find file) l)

  number_steps-Listed :
      (ops : List Operator) (file : SourceFile) (oi : Option Ignores) (ol : Option (List Text))
      (s : State) {s' : State}
      → Listed s
      → number_steps digest pkg ops opts file oi ol s ≡ done s'
      → Listed s'
  unfolding number_steps
  number_steps-Listed ops file none ol s l h = cc
  number_steps-Listed ops file (some ign) none s l h = cc
  number_steps-Listed ops file (some ign) (some lines) s l h =
      subst Listed (done-injective h)
        (run_operators-Listed file ign lines ops (record s { entries = [] }) l)

  rewrite_files-Listed :
      (ops : List Operator) (known : List Text) (files : List SourceFile) (s : State)
      {r : State × Sites}
      → Listed s
      → rewrite_files digest pkg ops known opts files s ≡ done r
      → Listed r.0
  unfolding rewrite_files number_file
  rewrite_files-Listed ops known [] s l h =
      subst (λ (x : State × Sites). Listed x.0) (done-injective h) l
  rewrite_files-Listed ops known (file ∷ files) s {r} l h = elim (Bool-cases file.generated) [
    | inl g ↦ rewrite_files-Listed ops known files s l (rw g at h)
    | inr g ↦
        let (s', h1, r', h2, h3) =
          chain-eq-done (number_file digest pkg ops known opts file s)
            (grouped digest pkg ops known file) (rewrite_files digest pkg ops known opts files)
            (rw g at h) in
        subst Listed h3
          (rewrite_files-Listed ops known files s' (number_steps-Listed ops file _ _ s l h1) h2)
  ]

  -- Each mutant that a run reports is the one that a switch over the reported mutants finds under
  -- its ID.
  pub rewrite_with-find_case :
      (ops : List Operator) (known : List Text) (files : List SourceFile) {r : Rewritten}
      → rewrite_with digest pkg ops known opts files ≡ done r
      → All (λ m. find_case r.mutations m.id ≡ some m) r.mutations
  unfolding rewrite_with
  rewrite_with-find_case ops known files h =
      let (x, h1, h2) =
        >>=-eq-done (rewrite_files digest pkg ops known opts (sort by_path files) fresh) _ h in
      subst (λ (r : Rewritten). All (λ m. find_case r.mutations m.id ≡ some m) r.mutations)
        (done-injective h2)
        (forget x.0.mutations _ _ (rewrite_files-Listed ops known (sort by_path files) fresh tt h1))
    where
      forget :
          (muts all : List Mutation) (n : ℕ)
          → All (Found all n) muts
          → All (λ m. find_case all m.id ≡ some m) muts
      forget [] all n f = tt
      forget (m ∷ muts) all n f = (f.0.0, forget muts all n f.1)
