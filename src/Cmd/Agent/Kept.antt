-- ===== src/Cmd/Agent/Kept.antt =====
-- cmd/kanly/agent.go: what `kanly init` changes in settings, and what it keeps.
use mathlib.Core.Path.{subst}
use kanly.Base.{◌≡◌, sym, ap, ◌∙◌, false, Text, codes, List, text_beq, text_eq}
use kanly.Base.Attempt.{done}
use kanly.Go.{value}
use kanly.Cmd.Agent.{
  Json, null, boolean, number, string, array, object, Items, no_items, Fields, no_fields, get, put,
  Reading, absent, unreadable, malformed, content, hook_entry, set_groups, hooks_of, groups_of,
  set_stop_hook, add_stop_hook,
}
use kanly.Cmd.Agent.Laws.{get-put, get-put-other}
use kanly.Cmd.Agent.Again.{value-injective, with_groups, set_stop_hook-done}
use kanly.Cmd.Agent.Hooks.{all_hooks, with_hook, set_groups-hooks}

abbrev object_of : Json → Fields
object_of (object fs) = fs
object_of _ = no_fields

abbrev list_of : Json → Items
list_of (array js) = js
list_of _ = no_items

-- What the settings hold before, with no fields where there is no file.
abbrev pub settings_of : Reading → Json
settings_of (content j) = j
settings_of _ = null

abbrev pub setting : Text → Json → Json
setting key j = get key (object_of j)

abbrev pub event_hooks : Text → Json → Json
event_hooks key j = get key (object_of (setting (codes "hooks") j))

abbrev pub stop_hooks : Json → List Json
stop_hooks j = all_hooks (list_of (event_hooks (codes "Stop") j))

hooks_of-object : (j : Json) (hooks : Fields) → hooks_of j ≡ done hooks → object_of j ≡ hooks
hooks_of-object (object fs) hooks h = cc
hooks_of-object null hooks h = cc
hooks_of-object (array js) hooks h = cc
hooks_of-object (boolean b) hooks h = cc
hooks_of-object (number n) hooks h = cc
hooks_of-object (string s) hooks h = cc

groups_of-list : (j : Json) (gs : Items) → groups_of j ≡ done gs → list_of j ≡ gs
groups_of-list (array js) gs h = cc
groups_of-list null gs h = cc
groups_of-list (object fs) gs h = cc
groups_of-list (boolean b) gs h = cc
groups_of-list (number n) gs h = cc
groups_of-list (string s) gs h = cc

module _ (entry : Json) (key other : Text) (h : text_beq (codes "hooks") key ≡ false)
    (o : text_beq (codes "Stop") other ≡ false) where
  abbrev Kept : Json → Json → Type 0
  Kept before after =
      (stop_hooks after ≡ with_hook entry (stop_hooks before))
      × (event_hooks other after ≡ event_hooks other before)
      × (setting key after ≡ setting key before)

  with_groups-Kept :
      (settings hooks : Fields) (gs : Items)
      → object_of (get (codes "hooks") settings) ≡ hooks
      → list_of (get (codes "Stop") hooks) ≡ gs
      → Kept (object settings) (object (with_groups settings hooks (set_groups entry gs)))
  with_groups-Kept settings hooks gs e g =
      let written = put (codes "Stop") (array (set_groups entry gs)) hooks in
      let same = get-put (codes "hooks") (object written) settings in
      (
        ap (λ j. all_hooks (list_of (get (codes "Stop") (object_of j)))) same
            ∙ (ap (λ j. all_hooks (list_of j))
                  (get-put (codes "Stop") (array (set_groups entry gs)) hooks)
                ∙ (set_groups-hooks entry gs
                    ∙ ap (λ is. with_hook entry (all_hooks is))
                        (sym g ∙ ap (λ fs. list_of (get (codes "Stop") fs)) (sym e)))),
        ap (λ j. get other (object_of j)) same
            ∙ (get-put-other (codes "Stop") other _ hooks o ∙ ap (get other) (sym e)),
        get-put-other (codes "hooks") key _ settings h,
      )

  settings-Kept :
      (settings : Fields) (after : Json)
      → set_stop_hook entry settings ≡ done after
      → Kept (object settings) after
  settings-Kept settings after w =
      let (hooks, gs, e, g, j) = set_stop_hook-done entry settings after w in
      subst (Kept (object settings)) (sym j)
        (with_groups-Kept settings hooks gs (hooks_of-object _ hooks e) (groups_of-list _ gs g))

-- Where the stop hook is set, the hooks of the Stop groups are those of before in the same order, each of
-- Kanly's replaced by the new one, which stands at the end where there was none. The hooks of every
-- other event and every other setting are what they were.
pub add_stop_hook-kept :
    (reading : Reading) (command key other : Text) (after : Json)
    → text_beq (codes "hooks") key ≡ false
    → text_beq (codes "Stop") other ≡ false
    → add_stop_hook reading command ≡ value (done after)
    → (stop_hooks after ≡ with_hook (hook_entry command) (stop_hooks (settings_of reading)))
      × (event_hooks other after ≡ event_hooks other (settings_of reading))
      × (setting key after ≡ setting key (settings_of reading))
unfolding add_stop_hook
add_stop_hook-kept absent c key other j h o w =
    settings-Kept (hook_entry c) key other h o no_fields j (value-injective w)
add_stop_hook-kept (unreadable e) c key other j h o w = cc
add_stop_hook-kept malformed c key other j h o w = cc
add_stop_hook-kept (content (object settings)) c key other j h o w =
    settings-Kept (hook_entry c) key other h o settings j (value-injective w)
add_stop_hook-kept (content null) c key other j h o w = cc
add_stop_hook-kept (content (boolean b)) c key other j h o w = cc
add_stop_hook-kept (content (number n)) c key other j h o w = cc
add_stop_hook-kept (content (string s)) c key other j h o w = cc
add_stop_hook-kept (content (array js)) c key other j h o w = cc
