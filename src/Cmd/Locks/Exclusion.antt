-- ===== src/Cmd/Locks/Exclusion.antt =====
-- cmd/kanly/main.go: no directory has two holders, since `l.mu` guards the map of mutexes.
use kanly.Base.{
  ℕ, zero, suc, ◌+◌, ◌≡◌, ◌≤◌, refl, sym, ap, ◌∙◌, Bool, true, false, Text, List, [], ◌∷◌, ◌++◌,
  Option, none, some, text_eq, nat_eq, text_beq, text_beq_iff, nat_beq_iff, beq_refl, All, arith,
  Bool-cases, inl, inr,
}
use kanly.Base.Map.{Map, lookup, lookup-insert}
use kanly.Cmd.Locks.{
  Held, Worker, Shared, is_taken, Move, call, enter, hit, miss, create, exit, take, unlock, release,
  leave, System, Step, pick, all_outside, new_dir_locks, Reach, start, next,
}
use kanly.Cmd.Locks.Invariant.{
  bit, count, dirs_of, held_of, dir_holders, of_mutex, owners, in_section, inside, Mapped, Knows,
  Inv, Move-owned, Move-section, All-Mapped-insert, All-Knows-insert,
}

All-Mapped-snoc :
    (locks : Map Text ℕ) (held : Held) (p : Text × ℕ)
    → All (Mapped locks) held
    → Mapped locks p
    → All (Mapped locks) (held ++ p ∷ [])
All-Mapped-snoc locks [] p a m = (m, tt)
All-Mapped-snoc locks (q ∷ held) p (h, a) m = (h, All-Mapped-snoc locks held p a m)

-- What the goroutine that moves knows.
Move-Knows : {s s' : Shared} {v w : Worker} → Move s v s' w → Knows s.locks v → Knows s'.locks w
Move-Knows (call dirs) k = record { holds = tt; reads = tt }
Move-Knows (enter free) k = record { holds = k.holds; reads = tt }
Move-Knows (hit m e) k = record { holds = k.holds; reads = e }
Move-Knows (miss e) k = record { holds = k.holds; reads = e }
Move-Knows {s} (create {held} {d}) k = record {
  holds = All-Mapped-insert d s.made s.locks held k.reads k.holds;
  reads = rw (lookup-insert d d s.made s.locks, beq_refl d) refl;
}
Move-Knows exit k = record { holds = k.holds; reads = k.reads }
Move-Knows {s} (take {held} {d} {m} free) k = record {
  holds = All-Mapped-snoc s.locks held (d, m) k.holds k.reads;
  reads = tt;
}
Move-Knows unlock k = record { holds = k.holds; reads = tt }
Move-Knows release k = record { holds = k.holds.1; reads = tt }
Move-Knows leave k = record { holds = tt; reads = tt }

-- What the others know, none of whom is in the section while one is that moves.
Move-others :
    {s s' : Shared} {v w : Worker} (ws : List Worker)
    → Move s v s' w
    → Knows s.locks v
    → (in_section v ≡ true → inside ws ≡ 0)
    → All (Knows s.locks) ws
    → All (Knows s'.locks) ws
Move-others ws (call dirs) k f a = a
Move-others ws (enter free) k f a = a
Move-others ws (hit m e) k f a = a
Move-others ws (miss e) k f a = a
Move-others {s} ws (create {held} {d}) k f a =
    All-Knows-insert d s.made s.locks ws k.reads (f refl) a
Move-others ws exit k f a = a
Move-others ws (take free) k f a = a
Move-others ws unlock k f a = a
Move-others ws release k f a = a
Move-others ws leave k f a = a

module _ (P : Worker → Type 0) where
  pub All-around :
      (us : List Worker) (v : Worker) (vs : List Worker)
      → All P (us ++ v ∷ vs)
      → All P us × P v × All P vs
  All-around [] v vs a = (tt, a.0, a.1)
  All-around (u ∷ us) v vs (p, a) = let (b, q, c) = All-around us v vs a in ((p, b), q, c)

  pub All-joined :
      (us : List Worker) (v : Worker) (vs : List Worker)
      → All P us
      → P v
      → All P vs
      → All P (us ++ v ∷ vs)
  All-joined [] v vs b q c = (q, c)
  All-joined (u ∷ us) v vs (p, b) q c = (p, All-joined us v vs b q c)

inside-append :
    (us : List Worker) (v : Worker) (vs : List Worker)
    → inside (us ++ v ∷ vs) ≡ bit (in_section v) + (inside us + inside vs)
inside-append [] v vs = omega arith
inside-append (u ∷ us) v vs = omega (arith, inside-append us v vs)

owners-append :
    (m : ℕ) (us : List Worker) (v : Worker) (vs : List Worker)
    → owners m (us ++ v ∷ vs) ≡ of_mutex m (held_of v) + (owners m us + owners m vs)
owners-append m [] v vs = omega arith
owners-append m (u ∷ us) v vs = omega (arith, owners-append m us v vs)

pub bit-le : (b : Bool) → bit b ≤ 1
bit-le true = omega arith
bit-le false = omega arith

Step-Inv : {s t : System} → Step s t → Inv s → Inv t
Step-Inv {s} {t} (pick us v w vs e e' mv) i =
    let (b, q, c) = All-around (Knows s.shared.locks) us v vs (rw e at i.knows) in
    let sum = sym (inside-append us v vs) ∙ rw e at i.section in
    let alone_us : in_section v ≡ true → inside us ≡ 0 =
      λ k. omega (arith, sum, ap bit k, bit-le s.shared.mu) in
    let alone_vs : in_section v ≡ true → inside vs ≡ 0 =
      λ k. omega (arith, sum, ap bit k, bit-le s.shared.mu) in
    record {
      section = rw (e', inside-append us w vs) (Move-section (inside us + inside vs) mv sum);
      knows = rw e' (
          All-joined (Knows t.shared.locks) us w vs (Move-others us mv q alone_us b)
            (Move-Knows mv q) (Move-others vs mv q alone_vs c));
      owned = λ m.
          rw (e', owners-append m us w vs)
            (Move-owned m (owners m us + owners m vs) mv
              (sym (owners-append m us v vs) ∙ rw e at (i.owned m)));
    }

new_dir_locks-Inv : (n : ℕ) → Inv (new_dir_locks n)
unfolding lookup
new_dir_locks-Inv n = record {
  section = no_section n;
  knows = all_know n;
  owned = λ m. no_owners m n;
}
  where
    no_section : (n : ℕ) → inside (all_outside n) ≡ 0
    no_section zero = refl
    no_section (suc n) = omega (arith, no_section n)

    all_know : (n : ℕ) → All (Knows []) (all_outside n)
    all_know zero = tt
    all_know (suc n) = (record { holds = tt; reads = tt }, all_know n)

    no_owners : (m n : ℕ) → owners m (all_outside n) ≡ 0
    no_owners m zero = refl
    no_owners m (suc n) = omega (arith, no_owners m n)

pub Reach-Inv : {n : ℕ} {s : System} → Reach n s → Inv s
Reach-Inv {n} start = new_dir_locks-Inv n
Reach-Inv (next r t) = Step-Inv t (Reach-Inv r)

-- The mutexes held for a directory are the one that the map has for it.
count-of_mutex :
    (d : Text) (m : ℕ) (locks : Map Text ℕ) (held : Held)
    → lookup d locks ≡ some m
    → All (Mapped locks) held
    → count d (dirs_of held) ≤ of_mutex m held
count-of_mutex d m locks [] e a = omega arith
count-of_mutex d m locks ((x, y) ∷ held) e (h, a) = elim (Bool-cases (text_beq x d)) [
  | inl b ↦
      let same : y ≡ m = cc (h, e, (text_beq_iff x d).0 b) in
      rw (b, (nat_beq_iff y m).1 same) (omega (arith, count-of_mutex d m locks held e a))
  | inr b ↦ rw b (omega (arith, count-of_mutex d m locks held e a))
]

count-unmapped :
    (d : Text) (locks : Map Text ℕ) (held : Held)
    → lookup d locks ≡ none
    → All (Mapped locks) held
    → count d (dirs_of held) ≡ 0
count-unmapped d locks [] e a = refl
count-unmapped d locks ((x, y) ∷ held) e (h, a) = elim (Bool-cases (text_beq x d)) [
  | inl b ↦ cc (h, e, (text_beq_iff x d).0 b)
  | inr b ↦ rw b (omega (arith, count-unmapped d locks held e a))
]

dir_holders-owners :
    (d : Text) (m : ℕ) (locks : Map Text ℕ) (ws : List Worker)
    → lookup d locks ≡ some m
    → All (Knows locks) ws
    → dir_holders d ws ≤ owners m ws
dir_holders-owners d m locks [] e a = omega arith
dir_holders-owners d m locks (t ∷ ws) e (k, a) =
    omega
      (arith, count-of_mutex d m locks (held_of t) e k.holds, dir_holders-owners d m locks ws e a)

dir_holders-unmapped :
    (d : Text) (locks : Map Text ℕ) (ws : List Worker)
    → lookup d locks ≡ none
    → All (Knows locks) ws
    → dir_holders d ws ≡ 0
dir_holders-unmapped d locks [] e a = refl
dir_holders-unmapped d locks (t ∷ ws) e (k, a) =
    omega (arith, count-unmapped d locks (held_of t) e k.holds, dir_holders-unmapped d locks ws e a)

-- In each state that goroutines reach, in any order of their steps, no directory is held twice. A step
-- is one access under `l.mu`, or one `Lock` or `Unlock`, of `l.mu` or of the mutex of a directory, so two
-- goroutines may want a directory for the first time at once.
pub mutual_exclusion : {n : ℕ} {s : System} → Reach n s → (d : Text) → dir_holders d s.workers ≤ 1
mutual_exclusion {s} r d = by_entry (lookup d s.shared.locks) refl
  where
    by_entry : (o : Option ℕ) → lookup d s.shared.locks ≡ o → dir_holders d s.workers ≤ 1
    by_entry none e =
        omega (arith, dir_holders-unmapped d s.shared.locks s.workers e (Reach-Inv r).knows)
    by_entry (some m) e = omega (
      arith,
      dir_holders-owners d m s.shared.locks s.workers e (Reach-Inv r).knows,
      (Reach-Inv r).owned m,
      bit-le (is_taken m s.shared.locked),
    )
