-- ===== src/Report/TestAxis/Redundant.antt =====
-- internal/report/report.go: the groups of tests that kill the same mutants.
use kanly.Base.{
  ℕ, ◌≡◌, refl, sym, ap, ap₂, ◌∙◌, Bool, true, false, not, ◌&&◌, Text, codes, List, [], ◌∷◌, ◌++◌,
  Option, none, some, ◌==◌, nat_eq, text_eq, text_beq, text_beq_iff, arith, contains, length, All,
  map, keep, Bool-cases, inl, inr, if◌then◌else◌,
}
use mathlib.Core.List.{append_assoc, append-nil}
use kanly.Base.Map.{Map, lookup, update, lookup-update}
use kanly.Base.Decimal.{itoa, digits_value, digits_value-itoa, all_digits, itoa-digits}
use kanly.Base.Strings.{cut_byte, cut_byte-append, split_byte, join}
use kanly.Mutation.{TestStats}
use kanly.Report.TestAxis.{kill_hash, full_name, or_no_names, by_hash}

split_byte-append :
    (b : ℕ) (p s : Text) → contains p b ≡ false → split_byte b (p ++ b ∷ s) ≡ p ∷ split_byte b s
unfolding split_byte
split_byte-append b [] s h = ground arith
split_byte-append b (c ∷ p) s h = ground (arith, split_byte-append b p s)

split_byte-clear : (b : ℕ) (p : Text) → contains p b ≡ false → split_byte b p ≡ p ∷ []
unfolding split_byte
split_byte-clear b [] h = refl
split_byte-clear b (c ∷ p) h = ground (arith, split_byte-clear b p)

digits-clear : (s : Text) → all_digits s ≡ true → contains s b',' ≡ false
digits-clear [] h = refl
digits-clear (c ∷ s) h = ground (arith, digits-clear s)

itoa-clear : (n : ℕ) → contains (itoa n) b',' ≡ false
itoa-clear n = digits-clear (itoa n) (itoa-digits n).0

abbrev or_zero : Option ℕ → ℕ
or_zero none = 0
or_zero (some n) = n

abbrev numbers : List Text → List ℕ
numbers [] = []
numbers (s ∷ ss) = or_zero (digits_value 0 s) ∷ numbers ss

numbers-itoa : (ids : List ℕ) → numbers (map itoa ids) ≡ ids
numbers-itoa [] = refl
numbers-itoa (n ∷ ids) = rw (digits_value-itoa n, numbers-itoa ids) refl

split_byte-join :
    (n : ℕ) (ids : List ℕ)
    → split_byte b',' (join (codes ",") (map itoa (n ∷ ids))) ≡ map itoa (n ∷ ids)
unfolding join
split_byte-join n [] = split_byte-clear b',' (itoa n) (itoa-clear n)
split_byte-join n (m ∷ ids) =
    split_byte-append b',' (itoa n) (join (codes ",") (map itoa (m ∷ ids))) (itoa-clear n)
    ∙ ap (λ ss. itoa n ∷ ss) (split_byte-join m ids)

abbrev ids_of_hash : Text → List ℕ
ids_of_hash s = numbers (split_byte b',' s)

join-ids :
    (ids : List ℕ) → (length ids == 0) ≡ false → ids_of_hash (join (codes ",") (map itoa ids)) ≡ ids
join-ids [] h = cc
join-ids (n ∷ ids) h = ap numbers (split_byte-join n ids) ∙ numbers-itoa (n ∷ ids)

-- What `build_tests` says of a test of a package whose path has no NUL byte.
abbrev pub IsCounted : TestStats → Type 0
IsCounted ts = (contains ts.pkg 0 ≡ false) × (ts.kill_count ≡ length ts.killed_mutants)

kill_hash-injective :
    (a b : TestStats)
    → IsCounted a
    → IsCounted b
    → (a.kill_count == 0) ≡ false
    → (b.kill_count == 0) ≡ false
    → kill_hash a ≡ kill_hash b
    → (a.pkg ≡ b.pkg) × (a.killed_mutants ≡ b.killed_mutants)
kill_hash-injective a b (ca, ka) (cb, kb) na nb h =
    let ja = join (codes ",") (map itoa a.killed_mutants) in
    let jb = join (codes ",") (map itoa b.killed_mutants) in
    let e =
      sym (cut_byte-append 0 a.pkg ja ca) ∙ (ap (cut_byte 0) h ∙ cut_byte-append 0 b.pkg jb cb) in
    let j : ja ≡ jb = cc e in
    (
      cc e,
      sym (join-ids a.killed_mutants (rw ka at na))
          ∙ (ap ids_of_hash j ∙ join-ids b.killed_mutants (rw kb at nb)),
    )

-- The tests of one package that kill the same mutants.
abbrev pub same_kills : TestStats → TestStats → Bool
same_kills t u = u.pkg == t.pkg && u.killed_mutants == t.killed_mutants

abbrev has_hash : Text → TestStats → Bool
has_hash h u = not (u.kill_count == 0) && kill_hash u == h

bool_ext : (a b : Bool) → (a ≡ true → b ≡ true) → (b ≡ true → a ≡ true) → a ≡ b
bool_ext true b f g = sym (f refl)
bool_ext false b f g = elim (Bool-cases b) [ inl e ↦ g e ∙ sym e | inr e ↦ sym e ]

same_kills-eq :
    (t u : TestStats)
    → same_kills t u ≡ true
    → (u.pkg ≡ t.pkg) × (u.killed_mutants ≡ t.killed_mutants)
same_kills-eq t u h = (
  ground (arith, text_beq_iff u.pkg t.pkg),
  ground (arith, text_beq_iff u.killed_mutants t.killed_mutants),
)

same_kills-count :
    (t u : TestStats)
    → IsCounted t
    → IsCounted u
    → same_kills t u ≡ true
    → u.kill_count ≡ t.kill_count
same_kills-count t u (ct, kt) (cu, ku) h = ku ∙ (ap length (same_kills-eq t u h).1 ∙ sym kt)

same_kills-hash : (t u : TestStats) → same_kills t u ≡ true → kill_hash u ≡ kill_hash t
same_kills-hash t u h =
    let (p, k) = same_kills-eq t u h in
    ap₂ (λ (x : Text) (ids : List ℕ). x ++ (0 ∷ join (codes ",") (map itoa ids))) p k

has_hash-same_kills :
    (t u : TestStats)
    → IsCounted t
    → IsCounted u
    → (t.kill_count == 0) ≡ false
    → has_hash (kill_hash t) u ≡ same_kills t u
has_hash-same_kills t u ct cu nt = bool_ext (has_hash (kill_hash t) u) (same_kills t u) to from
  where
    to : has_hash (kill_hash t) u ≡ true → same_kills t u ≡ true
    to h =
        let (p, k) =
          kill_hash-injective u t cu ct (ground arith) nt
            (ground (arith, text_beq_iff (kill_hash u) (kill_hash t))) in
        ground (arith, text_beq_iff u.pkg t.pkg, text_beq_iff u.killed_mutants t.killed_mutants)

    from : same_kills t u ≡ true → has_hash (kill_hash t) u ≡ true
    from h =
        rw (same_kills-count t u ct cu h, nt)
          ((text_beq_iff (kill_hash u) (kill_hash t)).1 (same_kills-hash t u h))

filed :
    (k h q : Text) (groups : Map Text (List Text)) (rest : List Text)
    → or_no_names (lookup h (update k (λ old. or_no_names old ++ q ∷ []) groups)) ++ rest
      ≡ or_no_names (lookup h groups) ++ (if k == h then q ∷ rest else rest)
filed k h q groups rest =
    rw (lookup-update k h (λ old. or_no_names old ++ q ∷ []) groups)
      (elim (Bool-cases (text_beq k h)) [
        | inl b ↦ rw b (
            append_assoc (or_no_names (lookup k groups)) (q ∷ []) rest
            ∙ ap (λ x. or_no_names (lookup x groups) ++ q ∷ rest) ((text_beq_iff k h).0 b))
        | inr b ↦ rw b refl
      ])

by_hash-lookup :
    (h : Text) (tests : List TestStats) (groups : Map Text (List Text))
    → or_no_names (lookup h (by_hash tests groups))
      ≡ or_no_names (lookup h groups) ++ map full_name (keep (has_hash h) tests)
unfolding by_hash
by_hash-lookup h [] groups = sym (append-nil (or_no_names (lookup h groups)))
by_hash-lookup h (u ∷ tests) groups = elim (Bool-cases (u.kill_count == 0)) [
  | inl b ↦ rw b (by_hash-lookup h tests groups)
  | inr b ↦ rw b (
      by_hash-lookup h tests
        (update (kill_hash u) (λ old. or_no_names old ++ full_name u ∷ []) groups)
      ∙ (filed (kill_hash u) h (full_name u) groups (map full_name (keep (has_hash h) tests))
          ∙ ap (λ names. or_no_names (lookup h groups) ++ names)
              (elim (Bool-cases (text_beq (kill_hash u) h)) [
                | inl c ↦ rw c refl
                | inr c ↦ rw c refl
              ])))
]

keep-same_kills :
    (t : TestStats) (tests : List TestStats)
    → IsCounted t
    → (t.kill_count == 0) ≡ false
    → All IsCounted tests
    → keep (has_hash (kill_hash t)) tests ≡ keep (same_kills t) tests
keep-same_kills t [] c n a = refl
keep-same_kills t (u ∷ tests) c n a =
    rw (has_hash-same_kills t u c a.0 n, keep-same_kills t tests c n a.1) refl

-- For tests that kill mutants, of packages whose paths have no NUL byte and with the right number of
-- kills: the names filed under the hash of a test are those of the tests of its package that kill
-- exactly the same mutants, in order.
pub by_hash_lem :
    (t : TestStats) (tests : List TestStats)
    → IsCounted t
    → (t.kill_count == 0) ≡ false
    → All IsCounted tests
    → or_no_names (lookup (kill_hash t) (by_hash tests []))
      ≡ map full_name (keep (same_kills t) tests)
unfolding lookup
by_hash_lem t tests c n a =
    by_hash-lookup (kill_hash t) tests [] ∙ ap (map full_name) (keep-same_kills t tests c n a)
