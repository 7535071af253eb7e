-- ===== src/Runner/Guard/Laws.antt =====
-- internal/runner/fsguard.go: what `Restore` moves and reports.
use kanly.Base.{
  nat_eq, ◌≡◌, refl, sym, ap, ◌∙◌, Bool, true, false, not, ◌&&◌, ◌||◌, Text, List, [], ◌∷◌, Option,
  none, some, ◌==◌, arith, contains, Distinct, Bool-cases, inl, inr,
}
use kanly.Base.Map.{Map, lookup, keys}
use kanly.Base.Strings.{is_some}
use kanly.Runner.Guard.{
  FilePath, path_beq, path_beq_iff, path_eq, FileState, Restored, Step, ok, gone, refused, Disk,
  is_new, dir_of, created, no_changes, state_differs, changed_in, made_dir, dir_or_temp,
  quarantine_dir, renamed, into, noted, move_all, restore,
}
use kanly.Runner.Guard.Created.{
  contains-snoc, contains-sort, is_some-contains, contains-created, created-new, only_new, covered,
  is_gone, is_under,
}

module _ {W : Type 0} (disk : Disk W) where
  -- What a directory for the quarantine changes of the report.
  made_dir-lists :
      (r : Restored) (o : Step Text × W)
      → ((made_dir disk r o).1.moved ≡ r.moved) × ((made_dir disk r o).1.unmoved ≡ r.unmoved)
  made_dir-lists r (ok dir, w) = (refl, refl)
  made_dir-lists r (gone, w) = (refl, refl)
  made_dir-lists r (refused, w) = (refl, refl)

  dir_or_temp-lists :
      (r : Restored) (o : Option Text) (w : W)
      → ((dir_or_temp disk r o w).1.moved ≡ r.moved)
        × ((dir_or_temp disk r o w).1.unmoved ≡ r.unmoved)
  dir_or_temp-lists r none w = made_dir-lists r (disk.mkdir_temp w)
  dir_or_temp-lists r (some dir) w = (refl, refl)

  -- A path is reported as moved or not moved.
  abbrev pub is_reported : Restored → FilePath → Bool
  is_reported r p = contains r.moved p || contains r.unmoved p

  noted-reported :
      (p : FilePath) (o : Step Bool) (r : Restored) (q : FilePath)
      → is_reported (noted disk p o r) q ≡ (is_reported r q || (not (is_gone o) && p == q))
  noted-reported p (ok a) r q = rw (contains-snoc r.moved p q) (ground arith)
  noted-reported p gone r q = ground arith
  noted-reported p refused r q = rw (contains-snoc r.unmoved p q) (ground arith)

  -- The disk never says that something does not exist.
  pub record Present : Type 0 where
    pub temp : (w : W) → is_gone (disk.mkdir_temp w).0 ≡ false
    pub all : (dir : Text) (p : FilePath) (w : W) → is_gone (disk.mkdir_all dir p w).0 ≡ false
    pub file : (p : FilePath) (dir : Text) (w : W) → is_gone (disk.rename p dir w).0 ≡ false

  module _ (present : Present) where
    made_dir-Present :
        (r : Restored) (o : Step Text × W)
        → is_gone o.0 ≡ false
        → is_gone (made_dir disk r o).0 ≡ false
    made_dir-Present r (ok dir, w) h = refl
    made_dir-Present r (gone, w) h = h
    made_dir-Present r (refused, w) h = refl

    dir_or_temp-Present :
        (r : Restored) (o : Option Text) (w : W) → is_gone (dir_or_temp disk r o w).0 ≡ false
    dir_or_temp-Present r none w = made_dir-Present r (disk.mkdir_temp w) (present.temp w)
    dir_or_temp-Present r (some dir) w = refl

    renamed-Present :
        (p : FilePath) (dir : Text) (o : Step Bool × W)
        → is_gone o.0 ≡ false
        → is_gone (renamed disk p dir o).0 ≡ false
    renamed-Present p dir (ok a, w) h = present.file p dir w
    renamed-Present p dir (gone, w) h = h
    renamed-Present p dir (refused, w) h = refl

    into-Present :
        (p : FilePath) (o : Step Text) (w : W)
        → is_gone o ≡ false
        → is_gone (into disk p o w).0 ≡ false
    into-Present p (ok dir) w h =
        renamed-Present p dir (disk.mkdir_all dir (dir_of p) w) (present.all dir (dir_of p) w)
    into-Present p gone w h = h
    into-Present p refused w h = refl

    move_all-reported :
        (ps : List FilePath) (r : Restored) (w : W) (q : FilePath)
        → is_reported (move_all disk ps r w).0 q ≡ (contains ps q || is_reported r q)
    unfolding move_all
    move_all-reported [] r w q = refl
    move_all-reported (p ∷ ps) r w q =
        let o = quarantine_dir disk r w in
        let outcome = into disk p o.0 o.2 in
        let same = dir_or_temp-lists r r.quarantine w in
        move_all-reported ps (noted disk p outcome.0 o.1) outcome.1 q
        ∙ rw
            (
              noted-reported p outcome.0 o.1 q,
              into-Present p o.0 o.2 (dir_or_temp-Present r r.quarantine w),
              same.0,
              same.1,
            )
            (ground arith)

  move_all-listed :
      (ps : List FilePath) (r : Restored) (w : W) (q : FilePath)
      → (is_reported (move_all disk ps r w).0 q && not (contains ps q || is_reported r q)) ≡ false
  unfolding move_all
  move_all-listed [] r w q = ground arith
  move_all-listed (p ∷ ps) r w q =
      let o = quarantine_dir disk r w in
      let outcome = into disk p o.0 o.2 in
      let same = dir_or_temp-lists r r.quarantine w in
      let next = noted disk p outcome.0 o.1 in
      let e : (is_reported r q || (not (is_gone outcome.0) && p == q)) ≡ is_reported next q =
        rw (noted-reported p outcome.0 o.1 q, same.0, same.1) refl in
      weaken (is_reported (move_all disk ps next outcome.1).0 q) (contains ps q) (is_reported r q)
        (p == q) (is_gone outcome.0)
        (ap (λ b. is_reported (move_all disk ps next outcome.1).0 q && not (contains ps q || b)) e
          ∙ move_all-listed ps next outcome.1 q)
    where
      weaken :
          (a b c d g : Bool)
          → (a && not (b || (c || (not g && d)))) ≡ false
          → (a && not ((d || b) || c)) ≡ false
      weaken a b c d g h = ground arith

-- A directory, or a file with the size and the time that it had.
abbrev pub same_as_before : FileState → FileState → Bool
same_as_before before after =
    before.is_dir || (after.size == before.size && after.mod_time == before.mod_time)

-- Whether a path that existed before is gone or is no longer the same.
abbrev pub was_changed : Option FileState → Option FileState → Bool
was_changed none now = false
was_changed (some before) none = true
was_changed (some before) (some after) = not (same_as_before before after)

-- The same as the code tests it.
abbrev differs_now : Option FileState → Option FileState → Bool
differs_now none now = false
differs_now (some before) now = state_differs before now

differs_now-was_changed :
    (before now : Option FileState) → differs_now before now ≡ was_changed before now
differs_now-was_changed none now = refl
differs_now-was_changed (some before) none = refl
differs_now-was_changed (some before) (some after) = ground arith

not_there :
    (before now : Option FileState) → is_some before ≡ false → differs_now before now ≡ false
not_there none now h = refl
not_there (some state) now h = ground arith

contains-changed_in :
    (now files : Map FilePath FileState) (p : FilePath)
    → Distinct (keys files)
    → contains (changed_in now files) p ≡ differs_now (lookup p files) (lookup p now)
unfolding lookup
contains-changed_in now [] p d = refl
contains-changed_in now ((q, before) ∷ files) p (f, d) = elim (Bool-cases (path_beq q p)) [
  | inl b ↦
      let e = (path_beq_iff q p).0 b in
      let other : contains (changed_in now files) p ≡ false =
        contains-changed_in now files p d
        ∙ not_there (lookup p files) (lookup p now)
            (sym (is_some-contains files p) ∙ (ap (contains (keys files)) (sym e) ∙ f)) in
      elim (Bool-cases (state_differs before (lookup q now))) [
        | inl c ↦ rw (b, c, b) (sym (sym (ap (λ x. state_differs before (lookup x now)) e) ∙ c))
        | inr c ↦ rw (b, c, other) (sym (sym (ap (λ x. state_differs before (lookup x now)) e) ∙ c))
      ]
  | inr b ↦ elim (Bool-cases (state_differs before (lookup q now))) [
    | inl c ↦ rw (b, c, b) (contains-changed_in now files p d)
    | inr c ↦ rw (b, c) (contains-changed_in now files p d)
  ]
]

module _ {W : Type 0} (disk : Disk W) (files now : Map FilePath FileState) (w : W)
    (p : FilePath) where
  -- No file that appeared is overlooked, as long as the disk never answers that something does not
  -- exist: a path that is there now and was not before is, or is below, one that was not there before
  -- either and that is reported as moved or as not moved.
  pub restore-new :
      Present disk
      → lookup [] now ≡ none
      → is_some (lookup p now) ≡ true
      → is_new files p ≡ true
      → (q : FilePath) × (is_under q p ≡ true)
        × (is_new files q ≡ true)
        × (is_reported disk (restore disk files now w).0 q ≡ true)
  unfolding restore
  restore-new present root h n =
      let (q, u, c) = covered files now p h n root in
      (
        q,
        u,
        created-new files now q c,
        rw (move_all-reported disk present (created files now) no_changes w q, c) refl,
      )

  -- Whatever the disk answers, only paths that are there now and were not before are reported as moved
  -- or not moved, and those reported as changed are exactly the ones that were there before and
  -- are gone, or were no directories and have another size or time.
  pub restore-known :
      Distinct (keys files)
      → ((is_reported disk (restore disk files now w).0 p
            && not (is_some (lookup p now) && is_new files p))
          ≡ false)
        × (contains (restore disk files now w).0.changed p
            ≡ was_changed (lookup p files) (lookup p now))
  unfolding restore
  restore-known d = (
    only_new (contains (created files now) p) (is_some (lookup p now)) (is_new files p)
        (not (is_some (lookup (dir_of p) now) && is_new files (dir_of p)))
        (is_reported disk (restore disk files now w).0 p) (contains-created files now p)
        (move_all-listed disk (created files now) no_changes w p),
    contains-sort (changed_in now files) p
        ∙ contains-changed_in now files p d
        ∙ differs_now-was_changed (lookup p files) (lookup p now),
  )
