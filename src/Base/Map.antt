-- ===== src/Base/Map.antt =====
-- A Go map as an association list, newest key last. Ranging over it is the list's order, which
-- the program sorts away.
use kanly.Base.{
  ◌≡◌, Option, none, some, List, [], ◌∷◌, arith, Eq, ◌==◌, if◌then◌else◌, refl, false, Bool-cases,
  inl, inr, contains, Distinct, All, beq_refl,
}

abbrev pub Map {ℓ κ} : Type ℓ → Type κ → Type (ℓ ⊔ κ)
Map K V = List (K × V)

module _ {ℓ κ} {K : Type ℓ} {V : Type κ} ⦃e : Eq K⦄ where
  unfoldable pub lookup : K → Map K V → Option V
  lookup k [] = none
  lookup k ((j, v) ∷ m) = if j == k then some v else lookup k m

  -- `m[k] = f(m[k], ok)`.
  unfoldable pub update : K → (Option V → V) → Map K V → Map K V
  update k f [] = (k, f none) ∷ []
  update k f ((j, v) ∷ m) = if j == k then (j, f (some v)) ∷ m else (j, v) ∷ update k f m

  unfoldable pub insert : K → V → Map K V → Map K V
  unfolding update
  insert k v m = update k (λ _. v) m

  unfoldable pub delete : K → Map K V → Map K V
  delete k [] = []
  delete k ((j, v) ∷ m) = if j == k then delete k m else (j, v) ∷ delete k m

  pub lookup-update :
      (k j : K) (f : Option V → V) (m : Map K V)
      → lookup j (update k f m) ≡ (if k == j then some (f (lookup k m)) else lookup j m)
  unfolding lookup update
  lookup-update k j f [] = ground arith
  lookup-update k j f ((i, v) ∷ m) =
      ground (arith, e.decides k j, e.decides i k, e.decides i j, lookup-update k j f m)

  pub lookup-insert :
      (k j : K) (v : V) (m : Map K V)
      → lookup j (insert k v m) ≡ (if k == j then some v else lookup j m)
  unfolding insert
  lookup-insert k j v m = lookup-update k j (λ _. v) m

  pub lookup-delete :
      (k j : K) (m : Map K V) → lookup j (delete k m) ≡ (if k == j then none else lookup j m)
  unfolding lookup delete
  lookup-delete k j [] = ground arith
  lookup-delete k j ((i, v) ∷ m) =
      ground (arith, e.decides k j, e.decides i k, e.decides i j, lookup-delete k j m)

  abbrev pub keys : Map K V → List K
  keys [] = []
  keys ((k, v) ∷ m) = k ∷ keys m

  contains-keys-update :
      (k j : K) (f : Option V → V) (m : Map K V)
      → (k == j) ≡ false
      → contains (keys (update k f m)) j ≡ contains (keys m) j
  unfolding update
  contains-keys-update k j f [] h = ground arith
  contains-keys-update k j f ((i, v) ∷ m) h =
      ground (arith, e.decides i k, contains-keys-update k j f m h)

  -- No key is held twice.
  pub update-Distinct :
      (k : K) (f : Option V → V) (m : Map K V) → Distinct (keys m) → Distinct (keys (update k f m))
  unfolding update
  update-Distinct k f [] d = (refl, tt)
  update-Distinct k f ((j, v) ∷ m) d = elim (Bool-cases (j == k)) [
    | inl b ↦ rw b d
    | inr b ↦ rw b (
      ground (arith, e.decides k j, e.decides j k, contains-keys-update k j f m),
      update-Distinct k f m d.1,
    )
  ]

  -- The entry is what a lookup of its key finds.
  abbrev pub Found : Map K V → K × V → Type κ
  Found m (k, v) = lookup k m ≡ some v

  All-Found-cons :
      (k : K) (v : V) (m rest : Map K V)
      → contains (keys rest) k ≡ false
      → All (Found m) rest
      → All (Found ((k, v) ∷ m)) rest
  unfolding lookup
  All-Found-cons k v m [] h a = tt
  All-Found-cons k v m ((j, w) ∷ rest) h a = (
    ground (arith, e.decides k j, e.decides j k, a.0),
    All-Found-cons k v m rest (ground arith) a.1,
  )

  pub Distinct-Found : (m : Map K V) → Distinct (keys m) → All (Found m) m
  unfolding lookup
  Distinct-Found [] d = tt
  Distinct-Found ((k, v) ∷ m) d =
      (ground (arith, beq_refl k), All-Found-cons k v m m d.0 (Distinct-Found m d.1))
