-- ===== src/Cmd/Locks.antt =====
-- cmd/kanly/main.go: `dirLocks`, the locks that goroutines take on directories.
pub mod Order
pub mod Invariant
pub mod Exclusion
pub mod Apart
pub mod Waits
pub mod Progress
mod Tests
use kanly.Base.{
  ℕ, zero, suc, ◌+◌, ◌≡◌, Bool, true, false, Text, List, [], ◌∷◌, ◌++◌, Option, none, some, ◌==◌,
  text_eq, nat_eq, if◌then◌else◌,
}
use kanly.Base.Map.{Map, lookup, insert}
use kanly.Base.Sort.{sort}
use kanly.Base.Strings.{text_le}

-- `slices.Compact` of a list that follows `x`.
unfoldable pub drop_run : Text → List Text → List Text
drop_run x [] = []
drop_run x (y ∷ ys) = let rest = drop_run y ys in if x == y then rest else y ∷ rest

unfoldable pub compact : List Text → List Text
unfolding drop_run
compact [] = []
compact (x ∷ xs) = x ∷ drop_run x xs

-- The directories in the order in which `lock` takes their locks.
unfoldable pub lock_order : List Text → List Text
lock_order dirs = compact (sort text_le dirs)

-- The elements of `held`, each with the directory that it was found under. A mutex is its number.
abbrev pub Held : Type 0
Held = List (Text × ℕ)

-- Where a goroutine stands: outside; before a mv of the loop of `lock`; in the section of `l.mu`, before
-- the map is read, where it has no mutex, or with a mutex in hand; behind that section, before `m.Lock`;
-- or in the loop of the function that `lock` returns.
pub data Worker : Type 0 where
  outside : Worker
  turning : Held → List Text → Worker
  looking : Held → Text → List Text → Worker
  creating : Held → Text → List Text → Worker
  found : Held → Text → ℕ → List Text → Worker
  taking : Held → Text → ℕ → List Text → Worker
  releasing : Held → Worker

-- `l.mu`, `l.locks`, how many mutexes were made, and whether each is locked.
pub record Shared : Type 0 where
  pub mu : Bool
  pub locks : Map Text ℕ
  pub made : ℕ
  pub locked : Map ℕ Bool

abbrev or_unlocked : Option Bool → Bool
or_unlocked none = false
or_unlocked (some b) = b

abbrev pub is_taken : ℕ → Map ℕ Bool → Bool
is_taken m locked = or_unlocked (lookup m locked)

-- One step of one goroutine. A `Lock` waits until the mutex is free.
pub data Move (s : Shared) : Worker → Shared → Worker → Type 0 where
  call : (dirs : List Text) → Move s outside s (turning [] (lock_order dirs))
  enter :
      {held : Held} {d : Text} {wanted : List Text}
      → s.mu ≡ false
      → Move s (turning held (d ∷ wanted)) (record s { mu = true }) (looking held d wanted)
  hit :
      {held : Held} {d : Text} {wanted : List Text} (m : ℕ)
      → lookup d s.locks ≡ some m
      → Move s (looking held d wanted) s (found held d m wanted)
  miss :
      {held : Held} {d : Text} {wanted : List Text}
      → lookup d s.locks ≡ none
      → Move s (looking held d wanted) s (creating held d wanted)
  create :
      {held : Held} {d : Text} {wanted : List Text}
      → Move s
          (creating held d wanted)
          (record s { locks = insert d s.made s.locks; made = s.made + 1 })
          (found held d s.made wanted)
  exit :
      {held : Held} {d : Text} {m : ℕ} {wanted : List Text}
      → Move s (found held d m wanted) (record s { mu = false }) (taking held d m wanted)
  take :
      {held : Held} {d : Text} {m : ℕ} {wanted : List Text}
      → is_taken m s.locked ≡ false
      → Move s
          (taking held d m wanted)
          (record s { locked = insert m true s.locked })
          (turning (held ++ (d, m) ∷ []) wanted)
  unlock : {held : Held} → Move s (turning held []) s (releasing held)
  release :
      {d : Text} {m : ℕ} {rest : Held}
      → Move s
          (releasing ((d, m) ∷ rest))
          (record s { locked = insert m false s.locked })
          (releasing rest)
  leave : Move s (releasing []) s outside

pub record System : Type 0 where
  pub shared : Shared
  pub workers : List Worker

-- Any goroutine may move next.
pub data Step (s t : System) : Type 0 where
  pick :
      (us : List Worker) (v w : Worker) (vs : List Worker)
      → s.workers ≡ us ++ v ∷ vs
      → t.workers ≡ us ++ w ∷ vs
      → Move s.shared v t.shared w
      → Step s t

abbrev pub all_outside : ℕ → List Worker
all_outside zero = []
all_outside (suc n) = outside ∷ all_outside n

-- `newDirLocks` with `n` goroutines.
abbrev pub new_dir_locks : ℕ → System
new_dir_locks n = record {
  shared = record { mu = false; locks = []; made = 0; locked = [] };
  workers = all_outside n;
}

pub data Reach (n : ℕ) : System → Type 0 where
  start : Reach n (new_dir_locks n)
  next : {s t : System} → Reach n s → Step s t → Reach n t
