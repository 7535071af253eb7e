-- ===== src/Runner/Guard/Tests.antt =====
-- internal/runner/fsguard.go: a run that changed a file and created a directory with a file in it.
use kanly.Base.{
  ℕ, ◌+◌, ◌≡◌, refl, Bool, true, false, not, ◌&&◌, Text, codes, List, [], ◌∷◌, Option, none, some,
  text_beq, contains, arith,
}
use kanly.Base.Map
use kanly.Base.Map.{Map, lookup, update, keys}
use kanly.Base.Sort.{sort}
use kanly.Base.Strings.{is_some, text_le}
use kanly.Runner.Guard.{
  FilePath, path_beq, path_eq, FileState, Step, ok, gone, Disk, is_new, guarded_paths, restore,
}
use kanly.Runner.Guard.Created.{is_under}
use kanly.Runner.Guard.Laws.{Present, is_reported, was_changed, restore-new, restore-known}

abbrev file_of : ℕ → Option FileState
file_of size = some (record { size = size; mod_time = 7; is_dir = false })

abbrev directory : Option FileState
directory = some (record { size = 0; mod_time = 7; is_dir = true })

abbrev files : Map FilePath FileState
files = (codes "a.go" ∷ [], record { size = 10; mod_time = 7; is_dir = false }) ∷ []

abbrev out : FilePath
out = codes "out" ∷ []

abbrev log : FilePath
log = codes "log.txt" ∷ out

abbrev now : Map FilePath FileState
now =
    (codes "a.go" ∷ [], record { size = 11; mod_time = 7; is_dir = false })
    ∷ (out, record { size = 0; mod_time = 7; is_dir = true })
    ∷ (log, record { size = 5; mod_time = 8; is_dir = false })
    ∷ []

-- The state counts the calls; the temporary directory is there or not.
abbrev disk : Step Text → Disk ℕ
disk temp = record {
  mkdir_temp = λ n. (temp, n + 1);
  mkdir_all = λ dir p n. (ok true, n + 1);
  rename = λ p dir n. (ok true, n + 1);
}

abbrev good_disk : Disk ℕ
good_disk = disk (ok (codes "/tmp/kanly-moved-1"))

good_disk-Present : Present good_disk
good_disk-Present = record { temp = λ w. refl; all = λ dir p w. refl; file = λ p dir w. refl }

listed : guarded_paths ((codes "a.go", file_of 10) ∷ (codes "gone.txt", none) ∷ []) [] ≡ files
unfolding guarded_paths kanly.Base.Map.insert update
listed = refl

restored : (restore good_disk files now 0).0 ≡ record {
  moved = out ∷ [];
  quarantine = some (codes "/tmp/kanly-moved-1");
  unmoved = [];
  changed = (codes "a.go" ∷ []) ∷ [];
}
unfolding restore lookup sort path_beq text_beq text_le
restored = refl

-- Where the directory for temporary files is missing, nothing is moved and nothing is reported.
missing-temp :
    (restore (disk gone) files now 0).0
    ≡ record { moved = []; quarantine = none; unmoved = []; changed = (codes "a.go" ∷ []) ∷ [] }
unfolding restore lookup sort path_beq text_beq text_le
missing-temp = refl

restore-new_example :
    (q : FilePath) × (is_under q log ≡ true)
    × (is_new files q ≡ true)
    × (is_reported good_disk (restore good_disk files now 0).0 q ≡ true)
unfolding lookup path_beq text_beq
restore-new_example = restore-new good_disk files now 0 log good_disk-Present refl refl refl

restore-known_example :
    ((is_reported good_disk (restore good_disk files now 0).0 (codes "a.go" ∷ [])
        && not (is_some (lookup (codes "a.go" ∷ []) now) && is_new files (codes "a.go" ∷ [])))
      ≡ false)
    × (contains (restore good_disk files now 0).0.changed (codes "a.go" ∷ [])
        ≡ was_changed (lookup (codes "a.go" ∷ []) files) (lookup (codes "a.go" ∷ []) now))
restore-known_example = restore-known good_disk files now 0 (codes "a.go" ∷ []) (refl, tt)
