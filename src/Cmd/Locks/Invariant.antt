-- ===== src/Cmd/Locks/Invariant.antt =====
-- cmd/kanly/main.go: what holds of the goroutines of `dirLocks` that share `l.mu` and its map.
use kanly.Base.{
  ℕ, ◌+◌, ◌≡◌, refl, sym, ap, ◌∙◌, Bool, true, false, Text, List, [], ◌∷◌, ◌++◌, none, some, ◌==◌,
  text_eq, nat_eq, text_beq, nat_beq, text_beq_iff, nat_beq_iff, All, arith, Bool-cases, inl, inr,
  if◌then◌else◌,
}
use kanly.Base.Map.{Map, lookup, insert, lookup-insert}
use kanly.Cmd.Locks.{
  Held, Worker, outside, turning, looking, creating, found, taking, releasing, Shared, is_taken,
  Move, call, enter, hit, miss, create, exit, take, unlock, release, leave, System,
}

abbrev pub count : Text → List Text → ℕ
count d [] = 0
count d (x ∷ xs) = (if x == d then 1 else 0) + count d xs

abbrev pub bit : Bool → ℕ
bit b = if b then 1 else 0

pub count-snoc :
    (x d : Text) (xs : List Text) → count x (xs ++ d ∷ []) ≡ count x xs + (if d == x then 1 else 0)
count-snoc x d [] = omega arith
count-snoc x d (y ∷ xs) = omega (arith, count-snoc x d xs)

acquired :
    (c o : ℕ) (q l : Bool)
    → (q ≡ true → l ≡ false)
    → c + o ≡ bit l
    → c + bit q + o ≡ bit (if q then true else l)
acquired c o true l f h = ground (arith, f refl)
acquired c o false l f h = omega (arith, h)

released : (c o : ℕ) (q l : Bool) → bit q + c + o ≡ bit l → c + o ≡ bit (if q then false else l)
released c o true true h = omega (arith, h)
released c o true false h = omega (arith, h)
released c o false l h = omega (arith, h)

abbrev pub held_of : Worker → Held
held_of outside = []
held_of (turning held wanted) = held
held_of (looking held d wanted) = held
held_of (creating held d wanted) = held
held_of (found held d m wanted) = held
held_of (taking held d m wanted) = held
held_of (releasing held) = held

abbrev pub dirs_of : Held → List Text
dirs_of [] = []
dirs_of ((x, m) ∷ held) = x ∷ dirs_of held

-- How many goroutines hold the lock of a directory.
abbrev pub dir_holders : Text → List Worker → ℕ
dir_holders d [] = 0
dir_holders d (t ∷ ws) = count d (dirs_of (held_of t)) + dir_holders d ws

abbrev pub of_mutex : ℕ → Held → ℕ
of_mutex m [] = 0
of_mutex m ((d, x) ∷ held) = (if x == m then 1 else 0) + of_mutex m held

abbrev pub owners : ℕ → List Worker → ℕ
owners m [] = 0
owners m (t ∷ ws) = of_mutex m (held_of t) + owners m ws

-- Between `l.mu.Lock` and `l.mu.Unlock`.
abbrev pub in_section : Worker → Bool
in_section (looking held d wanted) = true
in_section (creating held d wanted) = true
in_section (found held d m wanted) = true
in_section _ = false

abbrev pub inside : List Worker → ℕ
inside [] = 0
inside (t ∷ ws) = bit (in_section t) + inside ws

-- The mutex is the one that the map has for the directory.
abbrev pub Mapped : Map Text ℕ → Text × ℕ → Type 0
Mapped locks (d, m) = lookup d locks ≡ some m

abbrev pub Reads : Map Text ℕ → Worker → Type 0
Reads locks (creating held d wanted) = lookup d locks ≡ none
Reads locks (found held d m wanted) = lookup d locks ≡ some m
Reads locks (taking held d m wanted) = lookup d locks ≡ some m
Reads locks _ = Unit {0}

pub record Knows (locks : Map Text ℕ) (t : Worker) : Type 0 where
  pub holds : All (Mapped locks) (held_of t)
  pub reads : Reads locks t

pub record Inv (s : System) : Type 0 where
  pub section : inside s.workers ≡ bit s.shared.mu
  pub knows : All (Knows s.shared.locks) s.workers
  pub owned : (m : ℕ) → owners m s.workers ≡ bit (is_taken m s.shared.locked)

is_taken-insert :
    (m x : ℕ) (b : Bool) (locked : Map ℕ Bool)
    → is_taken x (insert m b locked) ≡ (if m == x then b else is_taken x locked)
is_taken-insert m x b locked =
    rw (lookup-insert m x b locked)
      (elim (Bool-cases (nat_beq m x)) [ inl e ↦ rw e refl | inr e ↦ rw e refl ])

of_mutex-snoc :
    (x : ℕ) (d : Text) (m : ℕ) (held : Held)
    → of_mutex x (held ++ (d, m) ∷ []) ≡ of_mutex x held + (if m == x then 1 else 0)
of_mutex-snoc x d m [] = omega arith
of_mutex-snoc x d m ((e, y) ∷ held) = omega (arith, of_mutex-snoc x d m held)

pub Move-owned :
    {s s' : Shared} {v w : Worker} (x others : ℕ)
    → Move s v s' w
    → of_mutex x (held_of v) + others ≡ bit (is_taken x s.locked)
    → of_mutex x (held_of w) + others ≡ bit (is_taken x s'.locked)
Move-owned x others (call dirs) h = h
Move-owned x others (enter free) h = h
Move-owned x others (hit m e) h = h
Move-owned x others (miss e) h = h
Move-owned x others create h = h
Move-owned x others exit h = h
Move-owned {s} x others (take {held} {d} {m} free) h =
    rw (is_taken-insert m x true s.locked, of_mutex-snoc x d m held)
      (acquired (of_mutex x held) others (nat_beq m x) (is_taken x s.locked)
        (λ e. ap (λ y. is_taken y s.locked) (sym ((nat_beq_iff m x).0 e)) ∙ free) h)
Move-owned x others unlock h = h
Move-owned {s} x others (release {d} {m} {rest}) h =
    rw (is_taken-insert m x false s.locked)
      (released (of_mutex x rest) others (nat_beq m x) (is_taken x s.locked) h)
Move-owned x others leave h = h

pub Move-section :
    {s s' : Shared} {v w : Worker} (others : ℕ)
    → Move s v s' w
    → bit (in_section v) + others ≡ bit s.mu
    → bit (in_section w) + others ≡ bit s'.mu
Move-section others (call dirs) h = h
Move-section others (enter free) h = omega (arith, h, ap bit free)
Move-section others (hit m e) h = h
Move-section others (miss e) h = h
Move-section others create h = h
Move-section {s} others exit h = elim (Bool-cases s.mu) [
  | inl b ↦ omega (arith, h, ap bit b)
  | inr b ↦ omega (arith, h, ap bit b)
]
Move-section others (take free) h = h
Move-section others unlock h = h
Move-section others release h = h
Move-section others leave h = h

-- A new entry of the map changes none of the others.
pub Mapped-insert :
    (d : Text) (m : ℕ) (locks : Map Text ℕ) (p : Text × ℕ)
    → lookup d locks ≡ none
    → Mapped locks p
    → Mapped (insert d m locks) p
Mapped-insert d m locks (x, y) n h = elim (Bool-cases (text_beq d x)) [
  | inl b ↦ cc (h, n, (text_beq_iff d x).0 b)
  | inr b ↦ rw (lookup-insert d x m locks, b) h
]

pub All-Mapped-insert :
    (d : Text) (m : ℕ) (locks : Map Text ℕ) (held : Held)
    → lookup d locks ≡ none
    → All (Mapped locks) held
    → All (Mapped (insert d m locks)) held
All-Mapped-insert d m locks [] n a = tt
All-Mapped-insert d m locks (p ∷ held) n (h, a) =
    (Mapped-insert d m locks p n h, All-Mapped-insert d m locks held n a)

Reads-insert :
    (d : Text) (m : ℕ) (locks : Map Text ℕ) (t : Worker)
    → lookup d locks ≡ none
    → in_section t ≡ false
    → Reads locks t
    → Reads (insert d m locks) t
Reads-insert d m locks outside n o r = tt
Reads-insert d m locks (turning held wanted) n o r = tt
Reads-insert d m locks (looking held x wanted) n o r = tt
Reads-insert d m locks (creating held x wanted) n o r = cc o
Reads-insert d m locks (found held x y wanted) n o r = cc o
Reads-insert d m locks (taking held x y wanted) n o r = Mapped-insert d m locks (x, y) n r
Reads-insert d m locks (releasing held) n o r = tt

pub All-Knows-insert :
    (d : Text) (m : ℕ) (locks : Map Text ℕ) (ws : List Worker)
    → lookup d locks ≡ none
    → inside ws ≡ 0
    → All (Knows locks) ws
    → All (Knows (insert d m locks)) ws
All-Knows-insert d m locks [] n o a = tt
All-Knows-insert d m locks (t ∷ ws) n o (k, a) = (
  record {
    holds = All-Mapped-insert d m locks (held_of t) n k.holds;
    reads = Reads-insert d m locks t n (ground (arith, o)) k.reads;
  },
  All-Knows-insert d m locks ws n (omega (arith, o)) a,
)
