-- ===== src/Runner/Guard/Created.antt =====
-- internal/runner/fsguard.go: which of the new paths count as created.
use kanly.Base.{
  ◌≡◌, refl, sym, ap, ◌∙◌, Bool, true, false, not, ◌&&◌, ◌||◌, List, [], ◌∷◌, ◌++◌, none, ◌==◌,
  arith, keep, contains, Bool-cases, inl, inr,
}
use kanly.Base.Map.{Map, lookup, keys}
use kanly.Base.Sort.{insert, sort}
use kanly.Base.Strings.{is_some}
use kanly.Runner.Guard.{
  FilePath, path_beq, path_beq_iff, path_eq, FileState, Step, ok, gone, refused, is_new, is_created,
  path_le, created,
}

abbrev pub is_gone : {A : Type 0} → Step A → Bool
is_gone (ok a) = false
is_gone gone = true
is_gone refused = false

pub contains-snoc :
    (ps : List FilePath) (p q : FilePath) → contains (ps ++ p ∷ []) q ≡ (contains ps q || p == q)
contains-snoc [] p q = ground arith
contains-snoc (r ∷ ps) p q = ground (arith, contains-snoc ps p q)

contains-insert :
    (p : FilePath) (ps : List FilePath) (q : FilePath)
    → contains (insert path_le p ps) q ≡ (p == q || contains ps q)
unfolding insert
contains-insert p [] q = refl
contains-insert p (r ∷ ps) q = elim (Bool-cases (path_le p r)) [
  | inl b ↦ rw b refl
  | inr b ↦ rw (b, contains-insert p ps q) (ground arith)
]

pub contains-sort :
    (ps : List FilePath) (q : FilePath) → contains (sort path_le ps) q ≡ contains ps q
unfolding sort
contains-sort [] q = refl
contains-sort (p ∷ ps) q =
    contains-insert p (sort path_le ps) q ∙ ap (λ b. p == q || b) (contains-sort ps q)

contains-keep :
    (f : FilePath → Bool) (ps : List FilePath) (q : FilePath)
    → contains (keep f ps) q ≡ (contains ps q && f q)
contains-keep f [] q = refl
contains-keep f (p ∷ ps) q = elim (Bool-cases (path_beq p q)) [
  | inl b ↦
      let e = (path_beq_iff p q).0 b in
      elim (Bool-cases (f p)) [
        | inl c ↦ rw (c, b, sym (ap f e) ∙ c) refl
        | inr c ↦ rw (c, b, contains-keep f ps q, sym (ap f e) ∙ c) (ground arith)
      ]
  | inr b ↦ elim (Bool-cases (f p)) [
    | inl c ↦ rw (c, b) (contains-keep f ps q)
    | inr c ↦ rw (c, b) (contains-keep f ps q)
  ]
]

pub is_some-contains :
    (m : Map FilePath FileState) (p : FilePath) → contains (keys m) p ≡ is_some (lookup p m)
unfolding lookup
is_some-contains [] p = refl
is_some-contains ((q, state) ∷ m) p = ground (arith, is_some-contains m p)

pub contains-created :
    (files now : Map FilePath FileState) (p : FilePath)
    → contains (created files now) p ≡ (is_some (lookup p now) && is_created files now p)
unfolding created
contains-created files now p =
    contains-sort (keep (is_created files now) (keys now)) p
    ∙ (contains-keep (is_created files now) (keys now) p
        ∙ ap (λ b. b && is_created files now p) (is_some-contains now p))

-- The path, or a directory above it.
abbrev pub is_under : FilePath → FilePath → Bool
is_under q [] = q == []
is_under q (name ∷ dirs) = q == name ∷ dirs || is_under q dirs

pub created-new :
    (files now : Map FilePath FileState) (q : FilePath)
    → contains (created files now) q ≡ true
    → is_new files q ≡ true
created-new files now q c = middle _ _ _ (sym (contains-created files now q) ∙ c)
  where
    middle : (a b d : Bool) → (a && (b && d)) ≡ true → b ≡ true
    middle a b d h = ground arith

pub only_new :
    (c a b d r : Bool)
    → c ≡ (a && (b && d))
    → (r && not (c || false)) ≡ false
    → (r && not (a && b)) ≡ false
only_new c a b d r e h = ground arith

-- Every new path is below one that counts as created.
pub covered :
    (files now : Map FilePath FileState) (p : FilePath)
    → is_some (lookup p now) ≡ true
    → is_new files p ≡ true
    → (lookup [] now ≡ none)
    → (q : FilePath) × (is_under q p ≡ true) × (contains (created files now) q ≡ true)
covered files now [] h n r = absurd (ground arith)
covered files now (name ∷ dirs) h n r =
    elim (Bool-cases (is_some (lookup dirs now) && is_new files dirs)) [
      | inl b ↦
          let (q, u, c) = covered files now dirs (ground arith) (ground arith) r in
          (q, ground arith, c)
      | inr b ↦ (
        name ∷ dirs,
        rw ((path_beq_iff (name ∷ dirs) (name ∷ dirs)).1 refl) refl,
        contains-created files now (name ∷ dirs) ∙ ground arith,
      )
    ]
