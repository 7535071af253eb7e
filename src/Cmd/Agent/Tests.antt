-- ===== src/Cmd/Agent/Tests.antt =====
-- cmd/kanly/agent.go: settings with a model and one stop hook of the user.
use kanly.Base.{◌≡◌, refl, Text, codes, text_eq, text_beq, [], ◌∷◌}
use kanly.Base.Attempt.{done}
use kanly.Go.{value, panic}
use kanly.Cmd.Agent.{
  Json, null, string, array, object, no_items, item, no_fields, field, Reading, content,
  is_kanly_stop_hook, hook_entry, hook_group, add_stop_hook, Items,
}
use kanly.Cmd.Agent.Again.{add_stop_hook-again}
use kanly.Cmd.Agent.Kept.{add_stop_hook-kept, stop_hooks, event_hooks, setting}

abbrev lint_hook : Json
lint_hook = object (field (codes "command") (string (codes "lint")) no_fields)

abbrev with_stop : Items → Json
with_stop gs = object (
    field (codes "model") (string (codes "m"))
      (field (codes "hooks") (object (field (codes "Stop") (array gs) no_fields)) no_fields))

abbrev user_settings : Reading
user_settings = content (with_stop (item (hook_group lint_hook) no_items))

abbrev first_command : Text
first_command = codes "kanly hook stop"

abbrev next_command : Text
next_command = codes "go run ./cmd/kanly hook stop"

abbrev written : Text → Json
written command =
    with_stop (item (hook_group lint_hook) (item (hook_group (hook_entry command)) no_items))

first_written : add_stop_hook user_settings first_command ≡ value (done (written first_command))
unfolding add_stop_hook is_kanly_stop_hook text_beq
first_written = refl

add_stop_hook-again_example :
    add_stop_hook (content (written first_command)) next_command
    ≡ value (done (written next_command))
unfolding add_stop_hook is_kanly_stop_hook text_beq
add_stop_hook-again_example =
    add_stop_hook-again user_settings first_command next_command (written first_command) refl refl

add_stop_hook-kept_example :
    (stop_hooks (written first_command) ≡ lint_hook ∷ hook_entry first_command ∷ [])
    × (event_hooks (codes "PreToolUse") (written first_command) ≡ null)
    × (setting (codes "model") (written first_command) ≡ string (codes "m"))
unfolding add_stop_hook is_kanly_stop_hook text_beq
add_stop_hook-kept_example =
    add_stop_hook-kept user_settings first_command (codes "model") (codes "PreToolUse")
      (written first_command) refl refl refl

-- A settings file that holds null decodes to the nil map, which cannot be assigned to.
null_panics :
    add_stop_hook (content null) first_command ≡ panic (codes "assignment to entry in nil map")
unfolding add_stop_hook
null_panics = refl
