-- ===== src/Cmd/Locks/Progress.antt =====
-- cmd/kanly/main.go: `dirLocks` never comes to a deadlock.
use kanly.Base.{
  ℕ, ◌≤◌, ◌≡◌, refl, sym, ap, ◌∙◌, true, false, Text, List, [], ◌∷◌, ◌++◌, some, text_eq, nat_eq,
  text_beq, nat_beq, text_beq_iff, nat_beq_iff, All, any, arith, Bool-cases, inl, inr,
  if◌then◌else◌,
}
use kanly.Base.Map.{lookup}
use kanly.Base.Strings.{text_le, text_le_total, text_le_trans}
use kanly.Cmd.Locks.{
  Held, Worker, outside, turning, looking, creating, found, taking, releasing, Shared, is_taken,
  Move, System, Reach,
}
use kanly.Cmd.Locks.Order.{IsAscending, Below}
use kanly.Cmd.Locks.Invariant.{
  count, bit, dirs_of, held_of, dir_holders, of_mutex, owners, Mapped, Knows,
}
use kanly.Cmd.Locks.Exclusion.{Reach-Inv}
use kanly.Cmd.Locks.Apart.{IsApart, InOrder, Reach-IsApart, Reach-InOrder}
use kanly.Cmd.Locks.Waits.{IsStuck, at_mu, waits, in_call, unless-IsStuck, inside-stuck}

-- A goroutine outside, or one that waits for the mutex of a directory.
data IsWaiting (s : Shared) : Worker → Type 0 where
  away : IsWaiting s outside
  blocked :
      {held : Held} {d : Text} {m : ℕ} {wanted : List Text}
      → is_taken m s.locked ≡ true
      → IsWaiting s (taking held d m wanted)

All-IsWaiting :
    (s : Shared) (ws : List Worker) → s.mu ≡ false → All (IsStuck s) ws → All (IsWaiting s) ws
All-IsWaiting s [] f ks = tt
All-IsWaiting s (outside ∷ ws) f (k, ks) = (away, All-IsWaiting s ws f ks)
All-IsWaiting s (turning held [] ∷ ws) f (k, ks) = elim k [ ]
All-IsWaiting s (turning held (d ∷ wanted) ∷ ws) f (at_mu e, ks) = cc (e, f)
All-IsWaiting s (looking held d wanted ∷ ws) f (k, ks) = elim k [ ]
All-IsWaiting s (creating held d wanted ∷ ws) f (k, ks) = elim k [ ]
All-IsWaiting s (found held d m wanted ∷ ws) f (k, ks) = elim k [ ]
All-IsWaiting s (taking held d m wanted ∷ ws) f (waits e, ks) = (blocked e, All-IsWaiting s ws f ks)
All-IsWaiting s (releasing held ∷ ws) f (k, ks) = elim k [ ]

-- The greatest directory that a goroutine waits for, or `b` where that is greater.
abbrev later_of : Text → Text → Text
later_of b d = if text_le b d then d else b

abbrev greatest : Text → List Worker → Text
greatest b [] = b
greatest b (taking held d m wanted ∷ ws) = greatest (later_of b d) ws
greatest b (_ ∷ ws) = greatest b ws

later_of-le : (b d : Text) → (text_le b (later_of b d) ≡ true) × (text_le d (later_of b d) ≡ true)
later_of-le b d = elim (Bool-cases (text_le b d)) [
  | inl e ↦ rw e (e, le_refl d)
  | inr e ↦ rw e (le_refl b, ground (arith, text_le_total b d))
]
  where
    le_refl : (x : Text) → text_le x x ≡ true
    le_refl x = ground (arith, text_le_total x x)

greatest-le :
    (s : Shared) (b : Text) (ws : List Worker)
    → All (IsWaiting s) ws
    → text_le b (greatest b ws) ≡ true
greatest-le s b [] ks = ground (arith, text_le_total b b)
greatest-le s b (outside ∷ ws) (k, ks) = greatest-le s b ws ks
greatest-le s b (taking held d m wanted ∷ ws) (k, ks) =
    text_le_trans b (later_of b d) (greatest (later_of b d) ws) (later_of-le b d).0
      (greatest-le s (later_of b d) ws ks)
greatest-le s b (turning held wanted ∷ ws) (k, ks) = elim k [ ]
greatest-le s b (looking held d wanted ∷ ws) (k, ks) = elim k [ ]
greatest-le s b (creating held d wanted ∷ ws) (k, ks) = elim k [ ]
greatest-le s b (found held d m wanted ∷ ws) (k, ks) = elim k [ ]
greatest-le s b (releasing held ∷ ws) (k, ks) = elim k [ ]

-- The map has a mutex for the directory, and it is locked.
abbrev Locked : Shared → Text → Type 0
Locked s d = (m : ℕ) × (lookup d s.locks ≡ some m) × (is_taken m s.locked ≡ true)

greatest-Locked :
    (s : Shared) (b : Text) (ws : List Worker)
    → Locked s b
    → All (IsWaiting s) ws
    → All (Knows s.locks) ws
    → Locked s (greatest b ws)
greatest-Locked s b [] l ks a = l
greatest-Locked s b (outside ∷ ws) l (k, ks) (q, a) = greatest-Locked s b ws l ks a
greatest-Locked s b (taking held d m wanted ∷ ws) l (blocked k, ks) (q, a) =
    greatest-Locked s (later_of b d) ws
      (elim (Bool-cases (text_le b d)) [ inl e ↦ rw e (m, q.reads, k) | inr e ↦ rw e l ]) ks a
greatest-Locked s b (turning held wanted ∷ ws) l (k, ks) a = elim k [ ]
greatest-Locked s b (looking held d wanted ∷ ws) l (k, ks) a = elim k [ ]
greatest-Locked s b (creating held d wanted ∷ ws) l (k, ks) a = elim k [ ]
greatest-Locked s b (found held d m wanted ∷ ws) l (k, ks) a = elim k [ ]
greatest-Locked s b (releasing held ∷ ws) l (k, ks) a = elim k [ ]

Below-mid :
    (y : Text) (held : List Text) (d : Text) (wanted : List Text)
    → All (Below y) (held ++ d ∷ wanted)
    → Below y d
Below-mid y [] d wanted a = a.0
Below-mid y (z ∷ held) d wanted a = Below-mid y held d wanted a.1

-- A goroutine holds no directory from the one that it waits for on.
count-ascending :
    (held : List Text) (d : Text) (wanted : List Text) (x : Text)
    → IsAscending (held ++ d ∷ wanted)
    → text_le d x ≡ true
    → count x held ≡ 0
count-ascending [] d wanted x a h = refl
count-ascending (y ∷ held) d wanted x a h =
    let b = Below-mid y held d wanted a.0 in
    omega (arith, not_here b, count-ascending held d wanted x a.1 h)
  where
    not_here : Below y d → bit (text_beq y x) ≡ 0
    not_here b = elim (Bool-cases (text_beq y x)) [
      | inl e ↦ cc (b, rw (sym ((text_beq_iff y x).0 e)) at h)
      | inr e ↦ rw e refl
    ]

holders-greatest :
    (s : Shared) (x : Text) (b : Text) (ws : List Worker)
    → All (IsWaiting s) ws
    → All InOrder ws
    → text_le (greatest b ws) x ≡ true
    → dir_holders x ws ≡ 0
holders-greatest s x b [] ks o h = refl
holders-greatest s x b (outside ∷ ws) (k, ks) o h =
    omega (arith, holders-greatest s x b ws ks o.1 h)
holders-greatest s x b (taking held d m wanted ∷ ws) (k, ks) o h =
    let le = text_le_trans d (later_of b d) x (later_of-le b d).1 (
      text_le_trans (later_of b d) (greatest (later_of b d) ws) x
        (greatest-le s (later_of b d) ws ks) h) in
    omega (
      arith,
      count-ascending (dirs_of held) d wanted x o.0 le,
      holders-greatest s x (later_of b d) ws ks o.1 h,
    )
holders-greatest s x b (turning held wanted ∷ ws) (k, ks) o h = elim k [ ]
holders-greatest s x b (looking held d wanted ∷ ws) (k, ks) o h = elim k [ ]
holders-greatest s x b (creating held d wanted ∷ ws) (k, ks) o h = elim k [ ]
holders-greatest s x b (found held d m wanted ∷ ws) (k, ks) o h = elim k [ ]
holders-greatest s x b (releasing held ∷ ws) (k, ks) o h = elim k [ ]

first_wait :
    (s : Shared) (ws : List Worker)
    → All (IsWaiting s) ws
    → All (Knows s.locks) ws
    → any in_call ws ≡ true
    → (b : Text) × Locked s b
first_wait s [] ks a h = cc
first_wait s (outside ∷ ws) (k, ks) (q, a) h = first_wait s ws ks a h
first_wait s (taking held d m wanted ∷ ws) (blocked l, ks) (q, a) h = (d, (m, q.reads, l))
first_wait s (turning held wanted ∷ ws) (k, ks) a h = elim k [ ]
first_wait s (looking held d wanted ∷ ws) (k, ks) a h = elim k [ ]
first_wait s (creating held d wanted ∷ ws) (k, ks) a h = elim k [ ]
first_wait s (found held d m wanted ∷ ws) (k, ks) a h = elim k [ ]
first_wait s (releasing held ∷ ws) (k, ks) a h = elim k [ ]

-- A mutex is held for the directory that has it in the map.
of_mutex-count :
    (s : Shared) (d : Text) (m : ℕ) (held : Held)
    → IsApart s
    → lookup d s.locks ≡ some m
    → All (Mapped s.locks) held
    → of_mutex m held ≤ count d (dirs_of held)
of_mutex-count s d m [] i e a = omega arith
of_mutex-count s d m ((x, y) ∷ held) i e (h, a) = elim (Bool-cases (nat_beq y m)) [
  | inl b ↦
      let same : x ≡ d = i.apart x d m (h ∙ ap some ((nat_beq_iff y m).0 b)) e in
      rw (b, (text_beq_iff x d).1 same) (omega (arith, of_mutex-count s d m held i e a))
  | inr b ↦ rw b (omega (arith, of_mutex-count s d m held i e a))
]

owners-dir_holders :
    (s : Shared) (d : Text) (m : ℕ) (ws : List Worker)
    → IsApart s
    → lookup d s.locks ≡ some m
    → All (Knows s.locks) ws
    → owners m ws ≤ dir_holders d ws
owners-dir_holders s d m [] i e a = omega arith
owners-dir_holders s d m (w ∷ ws) i e (k, a) =
    omega (arith, of_mutex-count s d m (held_of w) i e k.holds, owners-dir_holders s d m ws i e a)

-- A step of a goroutine that is in `lock`, past it, or in the function that it returned.
pub data Advance (s t : System) : Type 0 where
  advance :
      (us : List Worker) (v w : Worker) (vs : List Worker)
      → in_call v ≡ true
      → s.workers ≡ us ++ v ∷ vs
      → t.workers ≡ us ++ w ∷ vs
      → Move s.shared v t.shared w
      → Advance s t

-- There is no deadlock: in each state that goroutines with any directories reach, in any order, one
-- that has called `lock` and not come back can take its next step, as long as there is one.
pub no_deadlock :
    {n : ℕ} {s : System} → Reach n s → any in_call s.workers ≡ true → (t : System) × Advance s t
no_deadlock {s} r h = elim (unless-IsStuck s.shared s.workers) [
  | inl (us, v, w, vs, s', e, c, mv) ↦
      (record { shared = s'; workers = us ++ w ∷ vs }, advance us v w vs c e refl mv)
  | inr ks ↦
      let i = Reach-Inv r in
      let free : s.shared.mu ≡ false =
        ground (arith, i.section, inside-stuck s.shared s.workers ks) in
      let ks' = All-IsWaiting s.shared s.workers free ks in
      let (b, l) = first_wait s.shared s.workers ks' i.knows h in
      let x = greatest b s.workers in
      let (m, e, locked) = greatest-Locked s.shared b s.workers l ks' i.knows in
      absurd (
        omega (
          arith,
          holders-greatest s.shared x b s.workers ks' (Reach-InOrder r)
              (ground (arith, text_le_total x x)),
          owners-dir_holders s.shared x m s.workers (Reach-IsApart r) e i.knows,
          i.owned m,
          ap bit locked,
        ))
]
