-- ===== src/Cmd/Locks/Tests.antt =====
-- Two goroutines that want the locks of the same directories.
use kanly.Base.{◌≡◌, ◌≤◌, refl, true, false, Text, codes, List, [], ◌∷◌, text_beq, text_eq, nat_eq}
use kanly.Base.Map.{lookup, insert}
use kanly.Base.Sort.{sort, insert as insert_sorted}
use kanly.Base.Strings.{text_le}
use kanly.Cmd.Locks.{
  drop_run, compact, lock_order, Worker, turning, taking, Shared, Move, call, enter, hit, miss,
  create, exit, take, System, pick, Reach, start, next,
}
use kanly.Cmd.Locks.Invariant.{dir_holders}
use kanly.Cmd.Locks.Exclusion.{mutual_exclusion}
use kanly.Cmd.Locks.Progress.{Advance, no_deadlock}

-- The first one asks for "b" and then "a", which are taken the other way round.
abbrev dirs : List Text
dirs = codes "b" ∷ codes "a" ∷ codes "b" ∷ []

sorted-dirs : lock_order dirs ≡ codes "a" ∷ codes "b" ∷ []
unfolding lock_order compact drop_run sort insert_sorted text_le text_beq
sorted-dirs = refl

abbrev pair : Shared → Worker → Worker → System
pair s v w = record { shared = s; workers = v ∷ w ∷ [] }

first :
    {s s' : Shared} {v v' w : Worker}
    → Reach 2 (pair s v w)
    → Move s v s' v'
    → Reach 2 (pair s' v' w)
first r mv = next r (pick [] _ _ _ refl refl mv)

second :
    {s s' : Shared} {v w w' : Worker}
    → Reach 2 (pair s v w)
    → Move s w s' w'
    → Reach 2 (pair s' v w')
second {v = v} r mv = next r (pick (v ∷ []) _ _ _ refl refl mv)

abbrev unused : Shared
unused = record { mu = false; locks = []; made = 0; locked = [] }

-- The first one has made the mutex of "a" and has locked it.
abbrev a_taken : Shared
a_taken = record {
  mu = false;
  locks = insert (codes "a") 0 [];
  made = 1;
  locked = insert 0 true [];
}

a_taken-Reach :
    Reach 2
      (pair a_taken (turning ((codes "a", 0) ∷ []) (codes "b" ∷ [])) (turning [] (codes "a" ∷ [])))
unfolding lock_order compact drop_run sort insert_sorted text_le text_beq lookup
a_taken-Reach =
    let called = second (first {s = unused} start (call dirs)) (call (codes "a" ∷ [])) in
    first (first (first (first (first called (enter refl)) (miss refl)) create) exit) (take refl)

-- The second one finds that mutex in the map, and waits for it.
abbrev one_waits : System
one_waits =
    pair a_taken (turning ((codes "a", 0) ∷ []) (codes "b" ∷ [])) (taking [] (codes "a") 0 [])

one_waits-Reach : Reach 2 one_waits
unfolding lookup insert text_beq
one_waits-Reach = second (second (second a_taken-Reach (enter refl)) (hit 0 refl)) exit

no_deadlock_example : (t : System) × Advance one_waits t
no_deadlock_example = no_deadlock one_waits-Reach refl

mutual_exclusion_example : dir_holders (codes "a") one_waits.workers ≤ 1
mutual_exclusion_example = mutual_exclusion one_waits-Reach (codes "a")
