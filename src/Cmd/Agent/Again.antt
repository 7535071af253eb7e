-- ===== src/Cmd/Agent/Again.antt =====
-- cmd/kanly/agent.go: `kanly init` on settings that it has written before.
use kanly.Base.{◌≡◌, refl, sym, ap, ◌∙◌, true, Text, codes, text_eq}
use kanly.Base.Attempt.{Attempt, done, failed, done-injective, ◌>>=◌}
use kanly.Go.{Outcome, value}
use kanly.Cmd.Agent.{
  Json, null, boolean, number, string, array, object, Items, Fields, no_fields, get, put, Reading,
  absent, unreadable, malformed, content, SettingsError, is_kanly_stop_hook, hook_entry, set_groups,
  hooks_of, groups_of, set_stop_hook, add_stop_hook,
}
use kanly.Cmd.Agent.Laws.{get-put, put-put, set_groups-again}

pub value-injective : {A : Type 0} {a b : A} → ◌≡◌ {A = Outcome A} (value a) (value b) → a ≡ b
value-injective h = cc

-- What is written: the settings with these hooks and groups.
abbrev pub with_groups : Fields → Fields → Items → Fields
with_groups settings hooks gs =
    put (codes "hooks") (object (put (codes "Stop") (array gs) hooks)) settings

pub set_stop_hook-groups :
    (entry : Json) (settings hooks : Fields) (gs : Items)
    → hooks_of (get (codes "hooks") settings) ≡ done hooks
    → groups_of (get (codes "Stop") hooks) ≡ done gs
    → set_stop_hook entry settings
      ≡ done (object (with_groups settings hooks (set_groups entry gs)))
unfolding set_stop_hook
set_stop_hook-groups entry settings hooks gs h g = rw (h, g) refl

-- A write rests on hooks and groups that the settings hold.
pub set_stop_hook-done :
    (entry : Json) (settings : Fields) (j : Json)
    → set_stop_hook entry settings ≡ done j
    → (hooks : Fields) × (gs : Items) × (hooks_of (get (codes "hooks") settings) ≡ done hooks)
      × (groups_of (get (codes "Stop") hooks) ≡ done gs)
      × (j ≡ object (with_groups settings hooks (set_groups entry gs)))
unfolding set_stop_hook
set_stop_hook-done entry settings j h = by_hooks (hooks_of (get (codes "hooks") settings)) refl h
  where
    by_groups :
        (hooks : Fields) (o : Attempt SettingsError Items)
        → hooks_of (get (codes "hooks") settings) ≡ done hooks
        → groups_of (get (codes "Stop") hooks) ≡ o
        → (o >>= (λ gs. done (object (with_groups settings hooks (set_groups entry gs))))) ≡ done j
        → (hooks : Fields) × (gs : Items) × (hooks_of (get (codes "hooks") settings) ≡ done hooks)
          × (groups_of (get (codes "Stop") hooks) ≡ done gs)
          × (j ≡ object (with_groups settings hooks (set_groups entry gs)))
    by_groups hooks (done gs) e g h = (hooks, gs, e, g, sym (done-injective h))
    by_groups hooks (failed x) e g h = cc

    by_hooks :
        (o : Attempt SettingsError Fields)
        → hooks_of (get (codes "hooks") settings) ≡ o
        → (o >>= (λ hooks.
            groups_of (get (codes "Stop") hooks)
            >>= (λ gs. done (object (with_groups settings hooks (set_groups entry gs))))))
          ≡ done j
        → (hooks : Fields) × (gs : Items) × (hooks_of (get (codes "hooks") settings) ≡ done hooks)
          × (groups_of (get (codes "Stop") hooks) ≡ done gs)
          × (j ≡ object (with_groups settings hooks (set_groups entry gs)))
    by_hooks (done hooks) e h = by_groups hooks (groups_of (get (codes "Stop") hooks)) e refl h
    by_hooks (failed x) e h = cc

module _ (c d : Text) (k : is_kanly_stop_hook c ≡ true) where
  set_stop_hook-again :
      (settings hooks : Fields) (gs : Items)
      → set_stop_hook (hook_entry d) (with_groups settings hooks (set_groups (hook_entry c) gs))
        ≡ done (object (with_groups settings hooks (set_groups (hook_entry d) gs)))
  set_stop_hook-again settings hooks gs =
      let written = put (codes "Stop") (array (set_groups (hook_entry c) gs)) hooks in
      set_stop_hook-groups (hook_entry d) _ written (set_groups (hook_entry c) gs)
        (ap hooks_of (get-put (codes "hooks") (object written) settings))
        (ap groups_of (get-put (codes "Stop") (array (set_groups (hook_entry c) gs)) hooks))
      ∙ ap (λ fs. done (object fs))
          (put-put (codes "hooks") _ (object written) settings
            ∙ ap (λ fs. put (codes "hooks") (object fs) settings)
                (put-put (codes "Stop") _ _ hooks
                  ∙ ap (λ is. put (codes "Stop") (array is) hooks) (set_groups-again c d k gs)))

  settings-again :
      (settings : Fields) (j : Json)
      → set_stop_hook (hook_entry c) settings ≡ done j
      → add_stop_hook (content j) d ≡ value (set_stop_hook (hook_entry d) settings)
  unfolding add_stop_hook
  settings-again settings j h =
      let (hooks, gs, e, g, w) = set_stop_hook-done (hook_entry c) settings j h in
      ap (λ i. add_stop_hook (content i) d) w
      ∙ ap value (
          set_stop_hook-again settings hooks gs
          ∙ sym (set_stop_hook-groups (hook_entry d) settings hooks gs e g))

-- A second hook set in the settings that were written for one of Kanly's gives the settings that it would
-- have given in the first place: it stands where the first one stood, and nothing of that one is left.
pub add_stop_hook-again :
    (reading : Reading) (c d : Text) (j : Json)
    → is_kanly_stop_hook c ≡ true
    → add_stop_hook reading c ≡ value (done j)
    → add_stop_hook (content j) d ≡ add_stop_hook reading d
unfolding add_stop_hook
add_stop_hook-again absent c d j k h = settings-again c d k no_fields j (value-injective h)
add_stop_hook-again (unreadable e) c d j k h = cc
add_stop_hook-again malformed c d j k h = cc
add_stop_hook-again (content (object settings)) c d j k h =
    settings-again c d k settings j (value-injective h)
add_stop_hook-again (content null) c d j k h = cc
add_stop_hook-again (content (boolean b)) c d j k h = cc
add_stop_hook-again (content (number n)) c d j k h = cc
add_stop_hook-again (content (string s)) c d j k h = cc
add_stop_hook-again (content (array js)) c d j k h = cc
