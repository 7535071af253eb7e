-- ===== src/Schema/IgnoreFile/Laws.antt =====
-- internal/schema/ignorefile.go: the map of `ReadIgnoreFile` beside the lines of the file.
use kanly.Base.{
  ℕ, ◌+◌, ◌≡◌, refl, sym, ◌∙◌, ◌⊎◌, inl, inr, Bool, true, false, ◌&&◌, ◌||◌, Text, List, [], ◌∷◌,
  some, Bool-cases, ◌==◌, text_eq, text_beq_iff, beq_refl, arith, All, any,
}
use kanly.Base.Strings.{is_text}
use kanly.Base.Attempt.{done, >>=-eq-done, done-injective}
use kanly.Base.Map.{Map, lookup, insert, lookup-insert}
use kanly.Schema.Fingerprint.{is_fingerprint}
use kanly.Schema.IgnoreFile.{
  Line, blank, mutant_id, entry, parse_line, has_reason, accept, read_lines, read_ignore_file,
}

-- What a line that is read promises of the map.
abbrev pub Promised : Map Text Text → Line → Type 0
Promised m blank = Unit
Promised m mutant_id = ⊥
Promised m (entry fp reason) =
    (lookup fp m ≡ some reason) × ((is_fingerprint fp ≡ true) × (is_text reason ≡ true))

abbrev pub says : Text → Text → Line → Bool
says fp reason (entry fp' reason') = fp' == fp && reason' == reason
says fp reason _ = false

accept-inv :
    (n : ℕ) (fp reason : Text) (acc m : Map Text Text)
    → accept n fp reason acc ≡ done m
    → ((is_fingerprint fp ≡ true) × (is_text reason ≡ true))
      × ((has_reason (lookup fp acc) ≡ false) × (insert fp reason acc ≡ m))
unfolding accept
accept-inv n fp reason acc m h = ground (arith, done-injective {a = insert fp reason acc} {b = m})

insert-keeps :
    (fp reason k v : Text) (acc : Map Text Text)
    → is_text v ≡ true
    → lookup k acc ≡ some v
    → has_reason (lookup fp acc) ≡ false
    → lookup k (insert fp reason acc) ≡ some v
insert-keeps fp reason k v acc t e f = lookup-insert fp k reason acc ∙ elim (Bool-cases (fp == k)) [
  | inl same ↦ let q : fp ≡ k = (text_beq_iff fp k).0 same in cc (rw (q, e, t) at f)
  | inr other ↦ rw other e
]

accept-keeps :
    (n : ℕ) (fp reason : Text) (acc m : Map Text Text) (k v : Text)
    → is_text v ≡ true
    → lookup k acc ≡ some v
    → accept n fp reason acc ≡ done m
    → lookup k m ≡ some v
accept-keeps n fp reason acc m k v t e h =
    let (_, (f, ins)) = accept-inv n fp reason acc m h in
    rw (sym ins) (insert-keeps fp reason k v acc t e f)

-- What is accepted stays.
read_lines-keeps :
    (n : ℕ) (acc m : Map Text Text) (lines : List Text) (k v : Text)
    → is_text v ≡ true
    → lookup k acc ≡ some v
    → read_lines n acc lines ≡ done m
    → lookup k m ≡ some v
unfolding read_lines
read_lines-keeps n acc m [] k v t e h = rw (done-injective h) at e
read_lines-keeps n acc m (l ∷ lines) k v t e h =
    step (parse_line l) refl (λ more. read_lines-keeps (n + 1) more m lines k v t)
  where
    step :
        (line : Line)
        → parse_line l ≡ line
        → ((more : Map Text Text)
            → lookup k more ≡ some v
            → read_lines (n + 1) more lines ≡ done m
            → lookup k m ≡ some v)
        → lookup k m ≡ some v
    step blank p ih = ih acc e (rw (p, read_lines) at h)
    step mutant_id p ih = cc (rw (p, read_lines) at h)
    step (entry fp reason) p ih =
        let (more, h1, h2) = >>=-eq-done (accept n fp reason acc) _ (rw (p, read_lines) at h) in
        ih more (accept-keeps n fp reason acc more k v t e h1) h2

accept-Promised :
    (n : ℕ) (fp reason : Text) (acc more m : Map Text Text) (lines : List Text)
    → accept n fp reason acc ≡ done more
    → read_lines (n + 1) more lines ≡ done m
    → Promised m (entry fp reason)
accept-Promised n fp reason acc more m lines h k =
    let ((valid, text), (f, ins)) = accept-inv n fp reason acc more h in
    (
      read_lines-keeps (n + 1) more m lines fp reason text
          (rw (sym ins, lookup-insert fp fp reason acc, beq_refl fp) refl) k,
      (valid, text),
    )

read_lines-Promised :
    (n : ℕ) (acc m : Map Text Text) (lines : List Text)
    → read_lines n acc lines ≡ done m
    → All (λ l. Promised m (parse_line l)) lines
unfolding read_lines
read_lines-Promised n acc m [] h = tt
read_lines-Promised n acc m (l ∷ lines) h =
    step (parse_line l) refl (λ more. read_lines-Promised (n + 1) more m lines)
  where
    step :
        (line : Line)
        → parse_line l ≡ line
        → ((more : Map Text Text)
            → read_lines (n + 1) more lines ≡ done m
            → All (λ l. Promised m (parse_line l)) lines)
        → Promised m (parse_line l) × All (λ l. Promised m (parse_line l)) lines
    step blank p ih = rw p (tt, ih acc (rw (p, read_lines) at h))
    step mutant_id p ih = cc (rw (p, read_lines) at h)
    step (entry fp reason) p ih =
        let (more, h1, h2) = >>=-eq-done (accept n fp reason acc) _ (rw (p, read_lines) at h) in
        rw p (accept-Promised n fp reason acc more m lines h1 h2, ih more h2)

accept-says :
    (n : ℕ) (fp reason : Text) (acc more : Map Text Text) (k v : Text)
    → accept n fp reason acc ≡ done more
    → lookup k more ≡ some v
    → (lookup k acc ≡ some v) ⊎ (says k v (entry fp reason) ≡ true)
accept-says n fp reason acc more k v h e =
    let (_, (f, ins)) = accept-inv n fp reason acc more h in
    let e' : lookup k (insert fp reason acc) ≡ some v = rw ins e in
    elim (Bool-cases (fp == k)) [
      | inl same ↦ inr (ground (arith, text_beq_iff reason v, lookup-insert fp k reason acc))
      | inr other ↦ inl (ground (arith, lookup-insert fp k reason acc))
    ]

widen : {A B : Type 0} (a b : Bool) → A ⊎ (b ≡ true) → (A → B ⊎ (a ≡ true)) → B ⊎ ((a || b) ≡ true)
widen true b h f = inr refl
widen false b (inr k) f = inr k
widen false b (inl x) f = elim (f x) [ inl y ↦ inl y | inr k ↦ cc k ]

-- The lines are the only source of what is accepted.
read_lines-says :
    (n : ℕ) (acc m : Map Text Text) (lines : List Text) (k v : Text)
    → read_lines n acc lines ≡ done m
    → lookup k m ≡ some v
    → (lookup k acc ≡ some v) ⊎ (any (λ l. says k v (parse_line l)) lines ≡ true)
unfolding read_lines
read_lines-says n acc m [] k v h e = inl (rw (sym (done-injective h)) at e)
read_lines-says n acc m (l ∷ lines) k v h e =
    step (parse_line l) refl (λ more. read_lines-says (n + 1) more m lines k v)
  where
    step :
        (line : Line)
        → parse_line l ≡ line
        → ((more : Map Text Text)
            → read_lines (n + 1) more lines ≡ done m
            → lookup k m ≡ some v
            → (lookup k more ≡ some v) ⊎ (any (λ l. says k v (parse_line l)) lines ≡ true))
        → (lookup k acc ≡ some v)
          ⊎ ((says k v (parse_line l) || any (λ l. says k v (parse_line l)) lines) ≡ true)
    step blank p ih = rw p (ih acc (rw (p, read_lines) at h) e)
    step mutant_id p ih = cc (rw (p, read_lines) at h)
    step (entry fp reason) p ih =
        let (more, h1, h2) = >>=-eq-done (accept n fp reason acc) _ (rw (p, read_lines) at h) in
        rw p (
          widen (says k v (entry fp reason)) _ (ih more h2 e)
            (λ old. accept-says n fp reason acc more k v h1 old))

-- A file that is read without an error accepts the fingerprint of every line that is neither blank
-- nor a comment, for that line's reason, where the fingerprint is well formed and the reason is not
-- empty; and each fingerprint that is accepted has a line that says so with the same reason.
pub read_ignore_file_lem :
    (lines : List Text) (m : Map Text Text)
    → read_ignore_file (some lines) ≡ done m
    → All (λ l. Promised m (parse_line l)) lines
      × ((fp reason : Text)
          → lookup fp m ≡ some reason
          → any (λ l. says fp reason (parse_line l)) lines ≡ true)
unfolding read_ignore_file lookup
read_ignore_file_lem lines m h = (
  read_lines-Promised 1 [] m lines h,
  λ fp reason e. elim (read_lines-says 1 [] m lines fp reason h e) [ inl old ↦ cc old | inr k ↦ k ],
)
