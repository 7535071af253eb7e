-- ===== src/Cmd/Agent/Laws.antt =====
-- cmd/kanly/agent.go: the fields of an object, and the groups of hooks when the hook is set twice.
use kanly.Base.{
  ◌≡◌, refl, ap, ap₂, true, false, ◌||◌, Text, codes, ◌==◌, text_eq, arith, Bool-cases, inl, inr,
  text_beq, beq_refl,
}
use kanly.Cmd.Agent.{
  Json, null, boolean, number, string, array, object, Items, no_items, item, Fields, no_fields,
  field, get, put, append_item, is_kanly_stop_hook, is_kanly_hook, hook_entry, replace_hooks,
  any_kanly_hook, in_hooks, replace_in_group, any_in_list, any_in_group, replace_groups, any_group,
  hook_group, set_groups,
}

pub get-put : (key : Text) (v : Json) (fs : Fields) → get key (put key v fs) ≡ v
unfolding get put
get-put key v no_fields = rw (beq_refl key) refl
get-put key v (field k w fs) = elim (Bool-cases (k == key)) [
  | inl b ↦ rw (b, b) refl
  | inr b ↦ rw (b, b) (get-put key v fs)
]

pub put-put : (key : Text) (v w : Json) (fs : Fields) → put key v (put key w fs) ≡ put key v fs
unfolding put
put-put key v w no_fields = rw (beq_refl key) refl
put-put key v w (field k u fs) = elim (Bool-cases (k == key)) [
  | inl b ↦ rw (b, b) refl
  | inr b ↦ rw (b, b) (ap (λ r. field k u r) (put-put key v w fs))
]

pub get-put-other :
    (key other : Text) (v : Json) (fs : Fields)
    → text_beq key other ≡ false
    → get other (put key v fs) ≡ get other fs
unfolding get put
get-put-other key other v no_fields h = rw h refl
get-put-other key other v (field k w fs) h = ground (
  arith,
  text_eq.decides k key,
  text_eq.decides k other,
  text_eq.decides key other,
  get-put-other key other v fs h,
)

module _ (c d : Text) (k : is_kanly_stop_hook c ≡ true) where
  is_kanly_hook-entry : is_kanly_hook (hook_entry c) ≡ true
  unfolding get text_beq
  is_kanly_hook-entry = k

  replace_hooks-again :
      (hs : Items)
      → replace_hooks (hook_entry d) (replace_hooks (hook_entry c) hs)
        ≡ replace_hooks (hook_entry d) hs
  unfolding replace_hooks
  replace_hooks-again no_items = refl
  replace_hooks-again (item h hs) = elim (Bool-cases (is_kanly_hook h)) [
    | inl b ↦ rw (b, is_kanly_hook-entry) (ap (item (hook_entry d)) (replace_hooks-again hs))
    | inr b ↦ rw (b, b) (ap (item h) (replace_hooks-again hs))
  ]

  any_kanly_hook-replace :
      (hs : Items) → any_kanly_hook (replace_hooks (hook_entry c) hs) ≡ any_kanly_hook hs
  unfolding replace_hooks any_kanly_hook
  any_kanly_hook-replace no_items = refl
  any_kanly_hook-replace (item h hs) = elim (Bool-cases (is_kanly_hook h)) [
    | inl b ↦ rw (b, is_kanly_hook-entry) refl
    | inr b ↦ rw (b, b) (any_kanly_hook-replace hs)
  ]

  in_hooks-again :
      (group : Fields) (j : Json)
      → get (codes "hooks") group ≡ j
      → in_hooks
          (hook_entry d)
          (in_hooks (hook_entry c) group j)
          (get (codes "hooks") (in_hooks (hook_entry c) group j))
        ≡ in_hooks (hook_entry d) group j
  in_hooks-again group (array hs) e =
      rw
        (
          get-put (codes "hooks") (array (replace_hooks (hook_entry c) hs)) group,
          replace_hooks-again hs,
        )
        (put-put _ _ _ group)
  in_hooks-again group null e = rw e refl
  in_hooks-again group (boolean b) e = rw e refl
  in_hooks-again group (number n) e = rw e refl
  in_hooks-again group (string s) e = rw e refl
  in_hooks-again group (object fs) e = rw e refl

  any_in_list-replace :
      (group : Fields) (j : Json)
      → get (codes "hooks") group ≡ j
      → any_in_list (get (codes "hooks") (in_hooks (hook_entry c) group j)) ≡ any_in_list j
  any_in_list-replace group (array hs) e =
      rw (get-put (codes "hooks") (array (replace_hooks (hook_entry c) hs)) group)
        (any_kanly_hook-replace hs)
  any_in_list-replace group null e = ap any_in_list e
  any_in_list-replace group (boolean b) e = ap any_in_list e
  any_in_list-replace group (number n) e = ap any_in_list e
  any_in_list-replace group (string s) e = ap any_in_list e
  any_in_list-replace group (object fs) e = ap any_in_list e

  replace_in_group-again :
      (g : Json)
      → replace_in_group (hook_entry d) (replace_in_group (hook_entry c) g)
        ≡ replace_in_group (hook_entry d) g
  replace_in_group-again (object group) = ap object (in_hooks-again group _ refl)
  replace_in_group-again (array hs) = refl
  replace_in_group-again null = refl
  replace_in_group-again (boolean b) = refl
  replace_in_group-again (number n) = refl
  replace_in_group-again (string s) = refl

  any_in_group-replace :
      (g : Json) → any_in_group (replace_in_group (hook_entry c) g) ≡ any_in_group g
  any_in_group-replace (object group) = any_in_list-replace group _ refl
  any_in_group-replace (array hs) = refl
  any_in_group-replace null = refl
  any_in_group-replace (boolean b) = refl
  any_in_group-replace (number n) = refl
  any_in_group-replace (string s) = refl

  replace_groups-again :
      (gs : Items)
      → replace_groups (hook_entry d) (replace_groups (hook_entry c) gs)
        ≡ replace_groups (hook_entry d) gs
  unfolding replace_groups
  replace_groups-again no_items = refl
  replace_groups-again (item g gs) =
      ap₂ (λ x xs. item x xs) (replace_in_group-again g) (replace_groups-again gs)

  any_group-replace : (gs : Items) → any_group (replace_groups (hook_entry c) gs) ≡ any_group gs
  unfolding replace_groups any_group
  any_group-replace no_items = refl
  any_group-replace (item g gs) =
      ap₂ (λ x y. x || y) (any_in_group-replace g) (any_group-replace gs)

  any_group-append : (gs : Items) → any_group (append_item gs (hook_group (hook_entry c))) ≡ true
  unfolding any_group append_item get any_kanly_hook text_beq
  any_group-append no_items = rw is_kanly_hook-entry refl
  any_group-append (item g gs) = rw (any_group-append gs) (ground arith)

  replace_groups-append :
      (gs : Items)
      → replace_groups (hook_entry d) (append_item gs (hook_group (hook_entry c)))
        ≡ append_item (replace_groups (hook_entry d) gs) (hook_group (hook_entry d))
  unfolding replace_groups append_item get put replace_hooks text_beq
  replace_groups-append no_items = rw is_kanly_hook-entry refl
  replace_groups-append (item g gs) =
      ap (item (replace_in_group (hook_entry d) g)) (replace_groups-append gs)

  pub set_groups-again :
      (gs : Items)
      → set_groups (hook_entry d) (set_groups (hook_entry c) gs) ≡ set_groups (hook_entry d) gs
  unfolding set_groups
  set_groups-again gs = elim (Bool-cases (any_group gs)) [
    | inl b ↦ rw (b, any_group-replace gs, b) (replace_groups-again gs)
    | inr b ↦
        rw
          (
            b,
            any_group-append (replace_groups (hook_entry c) gs),
            replace_groups-append (replace_groups (hook_entry c) gs),
            replace_groups-again gs,
          )
          refl
  ]
