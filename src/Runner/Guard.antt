-- ===== src/Runner/Guard.antt =====
-- internal/runner/fsguard.go: the files of a package directory before and after a run. A path is its
-- components below the directory, the last one first, so that `filepath.Dir` drops the first. What
-- the file system answers is an argument.
pub mod Created
pub mod Laws
pub mod Tests
use kanly.Base.{
  ℕ, ◌≡◌, refl, ◌↔◌, Bool, true, false, not, ◌&&◌, ◌||◌, Text, codes, List, [], ◌∷◌, ◌++◌, Option,
  none, some, Eq, ◌==◌, nat_eq, text_eq, text_beq, text_beq_iff, arith, keep, if◌then◌else◌,
}
use kanly.Base.Map.{Map, lookup, insert, keys}
use kanly.Base.Sort.{sort}
use kanly.Base.Strings.{text_le, is_some}

abbrev pub FilePath : Type 0
FilePath = List Text

unfoldable pub path_beq : FilePath → FilePath → Bool
path_beq [] [] = true
path_beq (a ∷ p) (b ∷ q) = text_beq a b && path_beq p q
path_beq _ _ = false

pub path_beq_iff : (p q : FilePath) → (path_beq p q ≡ true) ↔ (p ≡ q)
unfolding path_beq
path_beq_iff [] [] = (λ _. refl, λ _. refl)
path_beq_iff [] (b ∷ q) = ground arith
path_beq_iff (a ∷ p) [] = ground arith
path_beq_iff (a ∷ p) (b ∷ q) = ground (arith, text_beq_iff a b, path_beq_iff p q)

instance abbrev pub path_eq : Eq FilePath
path_eq = record { beq = path_beq; decides = path_beq_iff }

pub record FileState : Type 0 where
  pub size : ℕ
  pub mod_time : ℕ
  pub is_dir : Bool

abbrev add_entry : FilePath → Option FileState → Map FilePath FileState → Map FilePath FileState
add_entry p none out = out
add_entry p (some state) out = insert p state out

-- The loop over the directory's entries; one that has no `Info` was removed while listing.
unfoldable pub top_entries :
    List (Text × Option FileState) → Map FilePath FileState → Map FilePath FileState
top_entries [] out = out
top_entries ((name, info) ∷ entries) out = top_entries entries (add_entry (name ∷ []) info out)

abbrev testdata : FilePath
testdata = codes "testdata" ∷ []

-- What `filepath.WalkDir` visits under testdata.
unfoldable pub walked_entries :
    List (FilePath × Option FileState) → Map FilePath FileState → Map FilePath FileState
walked_entries [] out = out
walked_entries ((p, info) ∷ entries) out =
    walked_entries entries (if p == testdata then out else add_entry p info out)

unfoldable pub guarded_paths :
    List (Text × Option FileState) → List (FilePath × Option FileState) → Map FilePath FileState
unfolding top_entries walked_entries
guarded_paths entries walk = walked_entries walk (top_entries entries [])

pub record Restored : Type 0 where
  pub moved : List FilePath
  pub quarantine : Option Text
  pub unmoved : List FilePath
  pub changed : List FilePath

-- An error for which `errors.Is(err, fs.ErrNotExist)`, or another one.
pub data Step (A : Type 0) : Type 0 where
  ok : A → Step A
  gone refused : Step A

-- `os.MkdirTemp`, `os.MkdirAll` of a path's parent in a directory, and `os.Rename` of a path into it.
pub record Disk (W : Type 0) : Type 0 where
  pub mkdir_temp : W → Step Text × W
  pub mkdir_all : Text → FilePath → W → Step Bool × W
  pub rename : FilePath → Text → W → Step Bool × W

abbrev pub is_new : Map FilePath FileState → FilePath → Bool
is_new files p = not (is_some (lookup p files))

abbrev pub dir_of : FilePath → FilePath
dir_of [] = []
dir_of (name ∷ dirs) = dirs

-- Created since the snapshot, and not below a directory that was: that one is moved whole.
abbrev pub is_created : Map FilePath FileState → Map FilePath FileState → FilePath → Bool
is_created files now p =
    is_new files p && not (is_some (lookup (dir_of p) now) && is_new files (dir_of p))

abbrev render : FilePath → Text
render [] = []
render (name ∷ dirs) = render dirs ++ codes "/" ++ name

abbrev pub path_le : FilePath → FilePath → Bool
path_le p q = text_le (render p) (render q)

unfoldable pub created : Map FilePath FileState → Map FilePath FileState → List FilePath
created files now = sort path_le (keep (is_created files now) (keys now))

abbrev pub state_differs : FileState → Option FileState → Bool
state_differs before none = true
state_differs before (some after) =
    not before.is_dir && not (after.size == before.size && after.mod_time == before.mod_time)

abbrev pub changed_in : Map FilePath FileState → Map FilePath FileState → List FilePath
changed_in now [] = []
changed_in now ((p, before) ∷ files) =
    if state_differs before (lookup p now) then p ∷ changed_in now files else changed_in now files

abbrev pub no_changes : Restored
no_changes = record { moved = []; quarantine = none; unmoved = []; changed = [] }

module _ {W : Type 0} (disk : Disk W) where
  abbrev pub made_dir : Restored → Step Text × W → Step Text × Restored × W
  made_dir r (ok dir, w) = (ok dir, record r { quarantine = some dir }, w)
  made_dir r (gone, w) = (gone, r, w)
  made_dir r (refused, w) = (refused, r, w)

  abbrev pub dir_or_temp : Restored → Option Text → W → Step Text × Restored × W
  dir_or_temp r (some dir) w = (ok dir, r, w)
  dir_or_temp r none w = made_dir r (disk.mkdir_temp w)

  -- `r.Quarantine`, made where it is not yet.
  abbrev pub quarantine_dir : Restored → W → Step Text × Restored × W
  quarantine_dir r w = dir_or_temp r r.quarantine w

  abbrev pub renamed : FilePath → Text → Step Bool × W → Step Bool × W
  renamed p dir (ok _, w) = disk.rename p dir w
  renamed p dir (gone, w) = (gone, w)
  renamed p dir (refused, w) = (refused, w)

  abbrev pub into : FilePath → Step Text → W → Step Bool × W
  into p gone w = (gone, w)
  into p refused w = (refused, w)
  into p (ok dir) w = renamed p dir (disk.mkdir_all dir (dir_of p) w)

  -- The loop's turn by what `quarantine` returned.
  abbrev pub noted : FilePath → Step Bool → Restored → Restored
  noted p (ok _) r = record r { moved = r.moved ++ p ∷ [] }
  noted p gone r = r
  noted p refused r = record r { unmoved = r.unmoved ++ p ∷ [] }

  unfoldable pub move_all : List FilePath → Restored → W → Restored × W
  move_all [] r w = (r, w)
  move_all (p ∷ ps) r w =
      let (dir, r', w') = quarantine_dir r w in
      let (outcome, w'') = into p dir w' in move_all ps (noted p outcome r') w''

  -- `Restore` of the snapshot `files`, where the directory can be listed, as `now`.
  unfoldable pub restore : Map FilePath FileState → Map FilePath FileState → W → Restored × W
  unfolding created move_all
  restore files now w =
      let (r, w') = move_all (created files now) no_changes w in
      (record r { changed = sort path_le (changed_in now files) }, w')
