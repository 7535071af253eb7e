-- ===== src/Cmd/Agent/Hooks.antt =====
-- cmd/kanly/agent.go: the hooks of the groups, before and after the stop hook is set.
use mathlib.Core.List.{append_assoc, append-nil}
use kanly.Base.{
  ◌≡◌, refl, sym, ap, ap₂, ◌∙◌, Bool, false, ◌||◌, codes, List, [], ◌∷◌, ◌++◌, map, text_beq,
  text_eq, if◌then◌else◌, Bool-cases, inl, inr, arith,
}
use kanly.Cmd.Agent.{
  Json, null, boolean, number, string, array, object, Items, no_items, item, Fields, get,
  append_item, is_kanly_hook, replace_hooks, any_kanly_hook, in_hooks, replace_in_group,
  any_in_list, any_in_group, replace_groups, any_group, hook_group, set_groups,
}
use kanly.Cmd.Agent.Laws.{get-put}

abbrev items : Items → List Json
items no_items = []
items (item j js) = j ∷ items js

abbrev list_hooks : Json → List Json
list_hooks (array hs) = items hs
list_hooks _ = []

abbrev group_hooks : Json → List Json
group_hooks (object group) = list_hooks (get (codes "hooks") group)
group_hooks _ = []

-- The hooks of all groups, in order.
abbrev pub all_hooks : Items → List Json
all_hooks no_items = []
all_hooks (item g gs) = group_hooks g ++ all_hooks gs

abbrev has_kanly : List Json → Bool
has_kanly [] = false
has_kanly (h ∷ hs) = is_kanly_hook h || has_kanly hs

-- The hooks with a hook of Kanly's with_replaced by the entry, and the entry at the end if there is none.
abbrev with_replaced : Json → List Json → List Json
with_replaced entry hs = map (λ h. if is_kanly_hook h then entry else h) hs

abbrev pub with_hook : Json → List Json → List Json
with_hook entry hs = with_replaced entry hs ++ (if has_kanly hs then [] else entry ∷ [])

with_replaced-append :
    (entry : Json) (xs ys : List Json)
    → with_replaced entry (xs ++ ys) ≡ with_replaced entry xs ++ with_replaced entry ys
with_replaced-append entry [] ys = refl
with_replaced-append entry (x ∷ xs) ys =
    ap (λ r. (if is_kanly_hook x then entry else x) ∷ r) (with_replaced-append entry xs ys)

has_kanly-append : (xs ys : List Json) → has_kanly (xs ++ ys) ≡ (has_kanly xs || has_kanly ys)
has_kanly-append [] ys = refl
has_kanly-append (x ∷ xs) ys = ground (arith, has_kanly-append xs ys)

any_kanly_hook-items : (hs : Items) → any_kanly_hook hs ≡ has_kanly (items hs)
unfolding any_kanly_hook
any_kanly_hook-items no_items = refl
any_kanly_hook-items (item h hs) = ap (λ b. is_kanly_hook h || b) (any_kanly_hook-items hs)

any_in_list-hooks : (j : Json) → any_in_list j ≡ has_kanly (list_hooks j)
any_in_list-hooks (array hs) = any_kanly_hook-items hs
any_in_list-hooks null = refl
any_in_list-hooks (boolean b) = refl
any_in_list-hooks (number n) = refl
any_in_list-hooks (string s) = refl
any_in_list-hooks (object fs) = refl

any_in_group-hooks : (g : Json) → any_in_group g ≡ has_kanly (group_hooks g)
any_in_group-hooks (object group) = any_in_list-hooks (get (codes "hooks") group)
any_in_group-hooks (array hs) = refl
any_in_group-hooks null = refl
any_in_group-hooks (boolean b) = refl
any_in_group-hooks (number n) = refl
any_in_group-hooks (string s) = refl

any_group-hooks : (gs : Items) → any_group gs ≡ has_kanly (all_hooks gs)
unfolding any_group
any_group-hooks no_items = refl
any_group-hooks (item g gs) =
    ap₂ (λ x y. x || y) (any_in_group-hooks g) (any_group-hooks gs)
    ∙ sym (has_kanly-append (group_hooks g) (all_hooks gs))

module _ (entry : Json) where
  replace_hooks-items :
      (hs : Items) → items (replace_hooks entry hs) ≡ with_replaced entry (items hs)
  unfolding replace_hooks
  replace_hooks-items no_items = refl
  replace_hooks-items (item h hs) =
      ap (λ r. (if is_kanly_hook h then entry else h) ∷ r) (replace_hooks-items hs)

  in_hooks-list :
      (group : Fields) (j : Json)
      → get (codes "hooks") group ≡ j
      → list_hooks (get (codes "hooks") (in_hooks entry group j))
        ≡ with_replaced entry (list_hooks j)
  in_hooks-list group (array hs) e =
      rw (get-put (codes "hooks") (array (replace_hooks entry hs)) group) (replace_hooks-items hs)
  in_hooks-list group null e = ap list_hooks e
  in_hooks-list group (boolean b) e = ap list_hooks e
  in_hooks-list group (number n) e = ap list_hooks e
  in_hooks-list group (string s) e = ap list_hooks e
  in_hooks-list group (object fs) e = ap list_hooks e

  replace_in_group-hooks :
      (g : Json) → group_hooks (replace_in_group entry g) ≡ with_replaced entry (group_hooks g)
  replace_in_group-hooks (object group) = in_hooks-list group _ refl
  replace_in_group-hooks (array hs) = refl
  replace_in_group-hooks null = refl
  replace_in_group-hooks (boolean b) = refl
  replace_in_group-hooks (number n) = refl
  replace_in_group-hooks (string s) = refl

  replace_groups-hooks :
      (gs : Items) → all_hooks (replace_groups entry gs) ≡ with_replaced entry (all_hooks gs)
  unfolding replace_groups
  replace_groups-hooks no_items = refl
  replace_groups-hooks (item g gs) =
      ap₂ (λ xs ys. xs ++ ys) (replace_in_group-hooks g) (replace_groups-hooks gs)
      ∙ sym (with_replaced-append entry (group_hooks g) (all_hooks gs))

  append_item-hooks :
      (gs : Items) → all_hooks (append_item gs (hook_group entry)) ≡ all_hooks gs ++ entry ∷ []
  unfolding append_item get text_beq
  append_item-hooks no_items = refl
  append_item-hooks (item g gs) =
      ap (λ r. group_hooks g ++ r) (append_item-hooks gs)
      ∙ sym (append_assoc (group_hooks g) (all_hooks gs) (entry ∷ []))

  pub set_groups-hooks :
      (gs : Items) → all_hooks (set_groups entry gs) ≡ with_hook entry (all_hooks gs)
  unfolding set_groups
  set_groups-hooks gs = elim (Bool-cases (any_group gs)) [
    | inl b ↦
        rw (b, sym (any_group-hooks gs) ∙ b)
          (replace_groups-hooks gs ∙ sym (append-nil (with_replaced entry (all_hooks gs))))
    | inr b ↦
        rw (b, sym (any_group-hooks gs) ∙ b)
          (append_item-hooks (replace_groups entry gs)
            ∙ ap (λ r. r ++ entry ∷ []) (replace_groups-hooks gs))
  ]
