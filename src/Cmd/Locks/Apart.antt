-- ===== src/Cmd/Locks/Apart.antt =====
-- cmd/kanly/main.go: no two directories share a mutex, and each goroutine takes its locks in order.
use mathlib.Core.List.{append_assoc}
use kanly.Base.{
  ℕ, zero, suc, ◌+◌, ◌<◌, ◌≡◌, ◌⊎◌, refl, sym, ap, ◌∙◌, Text, [], ◌∷◌, ◌++◌, some, text_eq,
  text_beq, text_beq_iff, All, arith, Bool-cases, inl, inr,
}
use kanly.Base.Map.{Map, lookup, insert, lookup-insert}
use kanly.Cmd.Locks.{
  Held, Worker, outside, turning, looking, creating, found, taking, releasing, Shared, Move, call,
  enter, hit, miss, create, exit, take, unlock, release, leave, System, pick, all_outside, Reach,
  start, next,
}
use kanly.Cmd.Locks.Order.{IsAscending, lock_order-IsAscending}
use kanly.Cmd.Locks.Invariant.{dirs_of}
use kanly.Cmd.Locks.Exclusion.{All-around, All-joined}

-- The map has mutexes that were made, and each for one directory.
pub record IsApart (s : Shared) : Type 0 where
  pub bounded : (d : Text) (m : ℕ) → lookup d s.locks ≡ some m → m < s.made
  pub apart : (d e : Text) (m : ℕ) → lookup d s.locks ≡ some m → lookup e s.locks ≡ some m → d ≡ e

-- An entry of the map is the new one or an old one.
entry :
    (d x : Text) (n m : ℕ) (locks : Map Text ℕ)
    → lookup x (insert d n locks) ≡ some m
    → ((d ≡ x) × (n ≡ m)) ⊎ (lookup x locks ≡ some m)
entry d x n m locks h = elim (Bool-cases (text_beq d x)) [
  | inl b ↦ inl ((text_beq_iff d x).0 b, cc (rw (lookup-insert d x n locks, b) at h))
  | inr b ↦ inr (rw (lookup-insert d x n locks, b) at h)
]

create-IsApart :
    (s : Shared) (d : Text)
    → IsApart s
    → IsApart (record s { locks = insert d s.made s.locks; made = s.made + 1 })
create-IsApart s d i = record {
  bounded = λ x m h. elim (entry d x s.made m s.locks h) [
    | inl (e, n) ↦ omega (arith, n)
    | inr o ↦ omega (arith, i.bounded x m o)
  ];
  apart = λ x y m h k. elim (entry d x s.made m s.locks h) [
    | inl (e, n) ↦ elim (entry d y s.made m s.locks k) [
      | inl (e', n') ↦ sym e ∙ e'
      | inr o ↦ absurd (omega (arith, n, i.bounded y m o))
    ]
    | inr o ↦ elim (entry d y s.made m s.locks k) [
      | inl (e', n') ↦ absurd (omega (arith, n', i.bounded x m o))
      | inr o' ↦ i.apart x y m o o'
    ]
  ];
}

Move-IsApart : {s s' : Shared} {v w : Worker} → Move s v s' w → IsApart s → IsApart s'
Move-IsApart (call dirs) i = i
Move-IsApart (enter free) i = record { bounded = i.bounded; apart = i.apart }
Move-IsApart (hit m e) i = i
Move-IsApart (miss e) i = i
Move-IsApart {s} (create {held} {d}) i = create-IsApart s d i
Move-IsApart exit i = record { bounded = i.bounded; apart = i.apart }
Move-IsApart (take free) i = record { bounded = i.bounded; apart = i.apart }
Move-IsApart unlock i = i
Move-IsApart release i = record { bounded = i.bounded; apart = i.apart }
Move-IsApart leave i = i

pub Reach-IsApart : {n : ℕ} {s : System} → Reach n s → IsApart s.shared
unfolding lookup
Reach-IsApart start = record { bounded = λ d m h. cc h; apart = λ d e m h k. cc h }
Reach-IsApart (next r (pick us v w vs e e' mv)) = Move-IsApart mv (Reach-IsApart r)

-- The locks that a goroutine holds and those that it still takes are in ascending order.
abbrev pub InOrder : Worker → Type 0
InOrder outside = Unit {0}
InOrder (turning held wanted) = IsAscending (dirs_of held ++ wanted)
InOrder (looking held d wanted) = IsAscending (dirs_of held ++ d ∷ wanted)
InOrder (creating held d wanted) = IsAscending (dirs_of held ++ d ∷ wanted)
InOrder (found held d m wanted) = IsAscending (dirs_of held ++ d ∷ wanted)
InOrder (taking held d m wanted) = IsAscending (dirs_of held ++ d ∷ wanted)
InOrder (releasing held) = Unit {0}

dirs_of-snoc :
    (held : Held) (d : Text) (m : ℕ) → dirs_of (held ++ (d, m) ∷ []) ≡ dirs_of held ++ d ∷ []
dirs_of-snoc [] d m = refl
dirs_of-snoc ((x, y) ∷ held) d m = ap (λ r. x ∷ r) (dirs_of-snoc held d m)

Move-InOrder : {s s' : Shared} {v w : Worker} → Move s v s' w → InOrder v → InOrder w
Move-InOrder (call dirs) i = lock_order-IsAscending dirs
Move-InOrder (enter free) i = i
Move-InOrder (hit m e) i = i
Move-InOrder (miss e) i = i
Move-InOrder create i = i
Move-InOrder exit i = i
Move-InOrder (take {held} {d} {m} {wanted} free) i =
    rw (dirs_of-snoc held d m, append_assoc (dirs_of held) (d ∷ []) wanted) i
Move-InOrder unlock i = tt
Move-InOrder release i = tt
Move-InOrder leave i = tt

pub Reach-InOrder : {n : ℕ} {s : System} → Reach n s → All InOrder s.workers
Reach-InOrder {n} start = none_yet n
  where
    none_yet : (n : ℕ) → All InOrder (all_outside n)
    none_yet zero = tt
    none_yet (suc n) = (tt, none_yet n)
Reach-InOrder (next r (pick us v w vs e e' mv)) =
    let (b, o, c) = All-around InOrder us v vs (rw e at (Reach-InOrder r)) in
    rw e' (All-joined InOrder us w vs b (Move-InOrder mv o) c)
