-- ===== src/Schema/Rewrite/Shapes.antt =====
-- internal/schema/rewriter.go: the shape-specific rewrites on one node, for operators that agree on
-- the dispatcher of a node.
use mathlib.Core.Path.{subst}
use kanly.Base.{
  ℕ, ◌+◌, ◌≤◌, ◌≡◌, refl, sym, ap, ◌∙◌, true, false, not, ◌&&◌, Text, List, [], ◌∷◌, arith, ◌==◌,
  nat_eq, text_eq, text_beq_iff, keep, any, All, if◌then◌else◌, Bool-cases, inl, inr,
}
use kanly.Base.Sort.{insert, sort}
use kanly.Base.Sort.Laws.{Order, IsSorted, sort-IsSorted}
use kanly.Schema.Rewrite.{Entry}
use kanly.Schema.Rewrite.Groups.{
  Group, in_group, add_entry, group_from, group_entries, wrapper_last, node_groups, clashes,
  has_conflict,
}

abbrev one_shape : Group → ℕ
one_shape g = if g.op.wraps then 0 else 1

abbrev shapes : List Group → ℕ
shapes [] = 0
shapes (g ∷ gs) = one_shape g + shapes gs

-- The groups of shape-specific operators on a node.
abbrev shapes_at : ℕ → List Group → ℕ
shapes_at n [] = 0
shapes_at n (g ∷ gs) = (if g.node == n then one_shape g else 0) + shapes_at n gs

shapes-keep : (n : ℕ) (gs : List Group) → shapes (keep (λ g. g.node == n) gs) ≡ shapes_at n gs
shapes-keep n [] = refl
shapes-keep n (g ∷ gs) = ground (arith, shapes-keep n gs)

shapes-insert :
    (g : Group) (gs : List Group) → shapes (insert wrapper_last g gs) ≡ one_shape g + shapes gs
unfolding insert
shapes-insert g [] = refl
shapes-insert g (h ∷ gs) = ground (arith, shapes-insert g gs)

shapes-sort : (gs : List Group) → shapes (sort wrapper_last gs) ≡ shapes gs
unfolding sort
shapes-sort [] = refl
shapes-sort (g ∷ gs) =
    shapes-insert g (sort wrapper_last gs) ∙ ap (λ n. one_shape g + n) (shapes-sort gs)

wrapper_last-Order : Order wrapper_last
wrapper_last-Order = record { total = λ g h. ground arith; trans = λ g h i p q. ground arith }

clashing : (gs : List Group) → IsSorted wrapper_last gs → clashes gs ≡ true → 2 ≤ shapes gs
clashing [] s c = ground arith
clashing (g ∷ []) s c = ground arith
clashing (g ∷ h ∷ gs) s c = ground arith

module _ (key_at : ℕ → Text) where
  -- A shape-specific operator has the dispatcher of its node.
  abbrev pub Fits : Entry → Type 0
  Fits e = e.op.wraps ≡ false → key_at e.cand.node ≡ e.op.dispatcher_key

  abbrev FitsGroup : Group → Type 0
  FitsGroup g = g.op.wraps ≡ false → key_at g.node ≡ g.dispatcher_key

  add_entry-FitsGroup :
      (e : Entry) (gs : List Group) → Fits e → All FitsGroup gs → All FitsGroup (add_entry e gs)
  unfolding add_entry
  add_entry-FitsGroup e [] f a = (f, tt)
  add_entry-FitsGroup e (g ∷ gs) f (p, a) =
      elim (Bool-cases (in_group e.cand.node e.op.dispatcher_key g)) [
        | inl b ↦ rw b (p, a)
        | inr b ↦ rw b (p, add_entry-FitsGroup e gs f a)
      ]

  shapes_at-other :
      (n : ℕ) (e : Entry) (gs : List Group)
      → (e.cand.node == n && not e.op.wraps) ≡ false
      → shapes_at n (add_entry e gs) ≡ shapes_at n gs
  unfolding add_entry
  shapes_at-other n e [] h = ground arith
  shapes_at-other n e (g ∷ gs) h = elim (Bool-cases (in_group e.cand.node e.op.dispatcher_key g)) [
    | inl b ↦ rw b refl
    | inr b ↦ rw b (ground (arith, shapes_at-other n e gs h))
  ]

  -- A shape-specific group on the entry's node has the entry's dispatcher.
  taken :
      (e : Entry) (g : Group)
      → Fits e
      → e.op.wraps ≡ false
      → FitsGroup g
      → in_group e.cand.node e.op.dispatcher_key g ≡ false
      → (g.node == e.cand.node && not g.op.wraps) ≡ false
  taken e g f w p b = elim (Bool-cases (g.node == e.cand.node && not g.op.wraps)) [
    | inl h ↦
        let n : g.node ≡ e.cand.node = ground arith in
        let w' : g.op.wraps ≡ false = ground arith in
        let k : g.dispatcher_key ≡ e.op.dispatcher_key = sym (p w') ∙ (ap key_at n ∙ f w) in
        absurd (ground (arith, text_beq_iff g.dispatcher_key e.op.dispatcher_key))
    | inr h ↦ h
  ]

  shapes_at-own :
      (e : Entry) (gs : List Group)
      → Fits e
      → e.op.wraps ≡ false
      → All FitsGroup gs
      → shapes_at e.cand.node gs ≤ 1
      → shapes_at e.cand.node (add_entry e gs) ≤ 1
  unfolding add_entry
  shapes_at-own e [] f w a h = ground arith
  shapes_at-own e (g ∷ gs) f w (p, a) h =
      elim (Bool-cases (in_group e.cand.node e.op.dispatcher_key g)) [
        | inl b ↦ rw b h
        | inr b ↦ rw b (
            let rest = shapes_at-own e gs f w a (ground arith) in
            let other = taken e g f w p b in ground arith)
      ]

  add_entry-shapes :
      (n : ℕ) (e : Entry) (gs : List Group)
      → Fits e
      → All FitsGroup gs
      → shapes_at n gs ≤ 1
      → shapes_at n (add_entry e gs) ≤ 1
  add_entry-shapes n e gs f a h = elim (Bool-cases (e.cand.node == n && not e.op.wraps)) [
    | inl b ↦
        let own : e.cand.node ≡ n = ground arith in
        let w : e.op.wraps ≡ false = ground arith in
        subst (λ n. shapes_at n (add_entry e gs) ≤ 1) own
          (shapes_at-own e gs f w a (subst (λ n. shapes_at n gs ≤ 1) (sym own) h))
    | inr b ↦ omega (arith, shapes_at-other n e gs b)
  ]

  group_from-shapes :
      (n : ℕ) (gs : List Group) (es : List Entry)
      → All Fits es
      → All FitsGroup gs
      → shapes_at n gs ≤ 1
      → shapes_at n (group_from gs es) ≤ 1
  unfolding group_from
  group_from-shapes n gs [] f a h = h
  group_from-shapes n gs (e ∷ es) (f, fs) a h =
      group_from-shapes n (add_entry e gs) es fs (add_entry-FitsGroup e gs f a)
        (add_entry-shapes n e gs f a h)

  -- No node has two groups of shape-specific operators.
  pub no_conflict : (es : List Entry) → All Fits es → has_conflict (group_entries es) ≡ false
  unfolding has_conflict group_entries node_groups
  no_conflict es fs = never (group_entries es)
    where
      apart : (n : ℕ) → clashes (node_groups (group_entries es) n) ≡ false
      apart n = elim (Bool-cases (clashes (node_groups (group_entries es) n))) [
        | inl b ↦ absurd (
            omega (
              arith,
              clashing (node_groups (group_entries es) n)
                  (sort-IsSorted wrapper_last wrapper_last-Order
                    (keep (λ g. g.node == n) (group_entries es)))
                  b,
              shapes-sort (keep (λ g. g.node == n) (group_entries es)),
              shapes-keep n (group_entries es),
              group_from-shapes n [] es fs tt (omega arith),
            ))
        | inr b ↦ b
      ]

      never :
          (gs : List Group) → any (λ g. clashes (node_groups (group_entries es) g.node)) gs ≡ false
      never [] = refl
      never (g ∷ gs) = rw (apart g.node) (never gs)
