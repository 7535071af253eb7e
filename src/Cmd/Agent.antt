-- ===== src/Cmd/Agent.antt =====
-- cmd/kanly/agent.go: the stop hook in the settings of a coding agent, and the answer of that hook.
pub mod Laws
pub mod Again
pub mod Hooks
pub mod Kept
pub mod Tests
use kanly.Base.{Bool, true, false, ◌||◌, Text, codes, [], ◌==◌, text_eq, if◌then◌else◌}
use kanly.Base.Strings.{contains_text}
use kanly.Base.Attempt.{Attempt, done, failed, ◌>>=◌}
use kanly.Go.{Outcome, value, panic}

-- A decoded JSON value; a number stands as it is printed.
mutual
  pub data Json : Type 0 where
    null : Json
    boolean : Bool → Json
    number : Text → Json
    string : Text → Json
    array : Items → Json
    object : Fields → Json

  pub data Items : Type 0 where
    no_items : Items
    item : Json → Items → Items

  pub data Fields : Type 0 where
    no_fields : Fields
    field : Text → Json → Fields → Fields

-- `m[key]` of a `map[string]any`: nil for a missing key as for a null.
unfoldable pub get : Text → Fields → Json
get key no_fields = null
get key (field k v fs) = if k == key then v else get key fs

unfoldable pub put : Text → Json → Fields → Fields
put key w no_fields = field key w no_fields
put key w (field k v fs) = if k == key then field k w fs else field k v (put key w fs)

unfoldable pub append_item : Items → Json → Items
append_item no_items j = item j no_items
append_item (item i is) j = item i (append_item is j)

-- What `os.ReadFile` answers for the settings, with the JSON that the bytes hold.
pub data Reading : Type 0 where
  absent : Reading
  unreadable : Text → Reading
  malformed : Reading
  content : Json → Reading

pub data SettingsError : Type 0 where
  read_failed : Text → SettingsError
  not_settings hooks_no_object stop_no_array : SettingsError

-- `isKanlyStopHook`.
unfoldable pub is_kanly_stop_hook : Text → Bool
unfolding contains_text
is_kanly_stop_hook command = contains_text command (codes " hook stop")

abbrev pub string_or_empty : Json → Text
string_or_empty (string s) = s
string_or_empty _ = []

abbrev pub is_kanly_hook : Json → Bool
is_kanly_hook (object hook) = is_kanly_stop_hook (string_or_empty (get (codes "command") hook))
is_kanly_hook _ = false

abbrev pub hook_timeout_seconds : Text
hook_timeout_seconds = codes "900"

abbrev pub hook_entry : Text → Json
hook_entry command = object (
    field (codes "type") (string (codes "command")) (
      field (codes "command") (string command)
        (field (codes "timeout") (number hook_timeout_seconds) no_fields)))

-- The loop over the hooks of a group: the list that it leaves, and `replaced`.
unfoldable pub replace_hooks : Json → Items → Items
replace_hooks entry no_items = no_items
replace_hooks entry (item h hs) =
    item (if is_kanly_hook h then entry else h) (replace_hooks entry hs)

unfoldable pub any_kanly_hook : Items → Bool
any_kanly_hook no_items = false
any_kanly_hook (item h hs) = is_kanly_hook h || any_kanly_hook hs

abbrev pub in_hooks : Json → Fields → Json → Fields
in_hooks entry group (array hs) = put (codes "hooks") (array (replace_hooks entry hs)) group
in_hooks entry group _ = group

abbrev pub replace_in_group : Json → Json → Json
replace_in_group entry (object group) = object (in_hooks entry group (get (codes "hooks") group))
replace_in_group entry g = g

abbrev pub any_in_list : Json → Bool
any_in_list (array hs) = any_kanly_hook hs
any_in_list _ = false

abbrev pub any_in_group : Json → Bool
any_in_group (object group) = any_in_list (get (codes "hooks") group)
any_in_group _ = false

unfoldable pub replace_groups : Json → Items → Items
unfolding replace_hooks
replace_groups entry no_items = no_items
replace_groups entry (item g gs) = item (replace_in_group entry g) (replace_groups entry gs)

unfoldable pub any_group : Items → Bool
unfolding any_kanly_hook
any_group no_items = false
any_group (item g gs) = any_in_group g || any_group gs

abbrev pub hook_group : Json → Json
hook_group entry = object (field (codes "hooks") (array (item entry no_items)) no_fields)

unfoldable pub set_groups : Json → Items → Items
unfolding replace_groups any_group append_item
set_groups entry gs =
    if any_group gs
    then replace_groups entry gs
    else append_item (replace_groups entry gs) (hook_group entry)

abbrev pub hooks_of : Json → Attempt SettingsError Fields
hooks_of (object hooks) = done hooks
hooks_of null = done no_fields
hooks_of _ = failed hooks_no_object

abbrev pub groups_of : Json → Attempt SettingsError Items
groups_of (array gs) = done gs
groups_of null = done no_items
groups_of _ = failed stop_no_array

unfoldable pub set_stop_hook : Json → Fields → Attempt SettingsError Json
unfolding get put set_groups
set_stop_hook entry settings = hooks_of (get (codes "hooks") settings) >>= (λ hooks.
    groups_of (get (codes "Stop") hooks) >>= (λ gs. done (
      object (
        put (codes "hooks") (object (put (codes "Stop") (array (set_groups entry gs)) hooks))
          settings))))

-- `addStopHook` between reading the settings and writing them. A JSON null decodes to the nil map.
unfoldable pub add_stop_hook : Reading → Text → Outcome (Attempt SettingsError Json)
unfolding set_stop_hook
add_stop_hook absent command = value (set_stop_hook (hook_entry command) no_fields)
add_stop_hook (unreadable e) command = value (failed (read_failed e))
add_stop_hook malformed command = value (failed not_settings)
add_stop_hook (content (object settings)) command =
    value (set_stop_hook (hook_entry command) settings)
add_stop_hook (content null) command = panic (codes "assignment to entry in nil map")
add_stop_hook (content (boolean b)) command = value (failed not_settings)
add_stop_hook (content (number n)) command = value (failed not_settings)
add_stop_hook (content (string s)) command = value (failed not_settings)
add_stop_hook (content (array js)) command = value (failed not_settings)
