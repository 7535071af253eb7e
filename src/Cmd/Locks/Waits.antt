-- ===== src/Cmd/Locks/Waits.antt =====
-- cmd/kanly/main.go: which goroutines wait for locks of `dirLocks`, and which move on.
use kanly.Base.{
  ℕ, ◌≡◌, refl, ap, ◌⊎◌, Bool, true, false, Text, List, [], ◌∷◌, ◌++◌, Option, none, some, text_eq,
  nat_eq, All, arith, Bool-cases, inl, inr,
}
use kanly.Base.Map.{lookup}
use kanly.Cmd.Locks.{
  Held, Worker, outside, turning, looking, creating, found, taking, releasing, Shared, is_taken,
  Move, enter, hit, miss, create, exit, take, unlock, release, leave,
}
use kanly.Cmd.Locks.Invariant.{inside}

-- A goroutine with nothing to do, or one that waits for `l.mu` or for the mutex of a directory.
pub data IsStuck (s : Shared) : Worker → Type 0 where
  quiet : IsStuck s outside
  at_mu :
      {held : Held} {d : Text} {wanted : List Text}
      → s.mu ≡ true
      → IsStuck s (turning held (d ∷ wanted))
  waits :
      {held : Held} {d : Text} {m : ℕ} {wanted : List Text}
      → is_taken m s.locked ≡ true
      → IsStuck s (taking held d m wanted)

abbrev pub in_call : Worker → Bool
in_call outside = false
in_call _ = true

-- The goroutine can take a step of its call.
abbrev CanMove : Shared → Worker → Type 0
CanMove s w = (s' : Shared) × (w' : Worker) × (in_call w ≡ true) × Move s w s' w'

moves_unless : (s : Shared) (w : Worker) → CanMove s w ⊎ IsStuck s w
moves_unless s outside = inr quiet
moves_unless s (turning held []) = inl (_, _, refl, unlock)
moves_unless s (turning held (d ∷ wanted)) = elim (Bool-cases s.mu) [
  | inl b ↦ inr (at_mu b)
  | inr b ↦ inl (_, _, refl, enter b)
]
moves_unless s (looking held d wanted) = by_entry (lookup d s.locks) refl
  where
    by_entry :
        (o : Option ℕ)
        → lookup d s.locks ≡ o
        → CanMove s (looking held d wanted) ⊎ IsStuck s (looking held d wanted)
    by_entry none e = inl (_, _, refl, miss e)
    by_entry (some m) e = inl (_, _, refl, hit m e)
moves_unless s (creating held d wanted) = inl (_, _, refl, create)
moves_unless s (found held d m wanted) = inl (_, _, refl, exit)
moves_unless s (taking held d m wanted) = elim (Bool-cases (is_taken m s.locked)) [
  | inl b ↦ inr (waits b)
  | inr b ↦ inl (_, _, refl, take b)
]
moves_unless s (releasing []) = inl (_, _, refl, leave)
moves_unless s (releasing ((d, m) ∷ rest)) = inl (_, _, refl, release)

-- Some goroutine of the list moves on.
abbrev pub Moves : Shared → List Worker → Type 0
Moves s ws =
    (us : List Worker) × (v : Worker) × (w : Worker) × (vs : List Worker) × (s' : Shared) × (ws
      ≡ us ++ v ∷ vs)
    × (in_call v ≡ true)
    × Move s v s' w

pub unless-IsStuck : (s : Shared) (ws : List Worker) → Moves s ws ⊎ All (IsStuck s) ws
unless-IsStuck s [] = inr tt
unless-IsStuck s (x ∷ ws) = elim (moves_unless s x) [
  | inl (s', w, c, mv) ↦ inl ([], x, w, ws, s', refl, c, mv)
  | inr k ↦ elim (unless-IsStuck s ws) [
    | inl (us, v, w, vs, s', e, c, mv) ↦ inl (x ∷ us, v, w, vs, s', ap (λ l. x ∷ l) e, c, mv)
    | inr ks ↦ inr (k, ks)
  ]
]

-- No goroutine that waits is in the section of `l.mu`.
pub inside-stuck : (s : Shared) (ws : List Worker) → All (IsStuck s) ws → inside ws ≡ 0
inside-stuck s [] ks = refl
inside-stuck s (outside ∷ ws) (k, ks) = omega (arith, inside-stuck s ws ks)
inside-stuck s (turning held wanted ∷ ws) (k, ks) = omega (arith, inside-stuck s ws ks)
inside-stuck s (looking held d wanted ∷ ws) (k, ks) = elim k [ ]
inside-stuck s (creating held d wanted ∷ ws) (k, ks) = elim k [ ]
inside-stuck s (found held d m wanted ∷ ws) (k, ks) = elim k [ ]
inside-stuck s (taking held d m wanted ∷ ws) (k, ks) = omega (arith, inside-stuck s ws ks)
inside-stuck s (releasing held ∷ ws) (k, ks) = elim k [ ]
