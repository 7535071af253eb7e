-- ===== src/Selector.antt =====
-- internal/selector/selector.go: positional arguments `<package>[:<func-list>]`.
pub mod Match
pub mod Parse
mod Tests
use kanly.Base.{
  ℕ, ◌+◌, ◌-◌, Bool, true, false, not, ◌&&◌, ◌||◌, Text, codes, List, [], ◌∷◌, ◌++◌, Option, none,
  some, ltb, nat_beq, text_eq, ◌==◌, take, drop, any, if◌then◌else◌,
}
use kanly.Base.Attempt.{Attempt, done, failed, ◌>>=◌}
use kanly.Base.Strings.{trim_space, contains_text, has_prefix, cut_prefix}

pub record Spec : Type 0 where
  pub pattern : Text
  pub funcs : List Text

pub data SelectorError : Type 0 where
  empty_pattern empty_list glob unbalanced_open unbalanced_close empty_name : SelectorError

-- How a byte changes the depth of the parentheses.
abbrev pub depth_after : ℕ → ℕ → ℕ
depth_after depth c =
    if nat_beq c b'(' then depth + 1 else if nat_beq c b')' then depth - 1 else depth

abbrev is_paren : ℕ → Bool
is_paren c = nat_beq c b'(' || nat_beq c b')'

-- `split_from` is at the index `i`; `none` is the source's -1.
unfoldable pub split_from : ℕ → ℕ → ℕ → Text → Option ℕ
split_from sep depth i [] = none
split_from sep depth i (c ∷ s) =
    let next = split_from sep (depth_after depth c) (i + 1) s in
    if not (is_paren c) && (nat_beq c sep && nat_beq depth 0) then some i else next

unfoldable pub split_outside_parens : Text → ℕ → Option ℕ
unfolding split_from
split_outside_parens s sep = split_from sep 0 0 s

-- What one byte of a function list does: the name ends, its parenthesis has no partner, or the
-- name goes on.
pub data Move : Type 0 where
  ends unbalanced goes_on : Move

abbrev pub move : ℕ → ℕ → Move
move depth c =
    if nat_beq c b')' && nat_beq depth 0
    then unbalanced
    else if nat_beq c b',' && nat_beq depth 0
    then ends
    else goes_on

abbrev pub checked_name : Text → Attempt SelectorError Text
checked_name [] = failed empty_name
checked_name (c ∷ s) = done (c ∷ s)

-- `part` is the text since the last separator.
unfoldable pub list_from : List Text → Text → ℕ → Text → Attempt SelectorError (List Text)
unfolding trim_space
list_from parts part depth [] =
    if nat_beq depth 0
    then (do p ← checked_name (trim_space part); done (parts ++ p ∷ []))
    else failed unbalanced_open
list_from parts part depth (c ∷ s) = elim (move depth c) [
  | unbalanced ↦ failed unbalanced_close
  | ends ↦ do p ← checked_name (trim_space part); list_from (parts ++ p ∷ []) [] depth s
  | goes_on ↦ list_from parts (part ++ c ∷ []) (depth_after depth c) s
]

unfoldable pub split_func_list : Text → Attempt SelectorError (List Text)
split_func_list s = list_from [] [] 0 s

-- The guards of `parseOne` behind its colon, in order.
unfoldable pub check_spec : Text → Text → Attempt SelectorError Spec
unfolding contains_text
check_spec [] rest = failed empty_pattern
check_spec (c ∷ pattern) [] = failed empty_list
check_spec (c ∷ pattern) (d ∷ rest) =
    if contains_text (c ∷ pattern) (codes "...") then failed glob else (do
      funcs ← split_func_list (d ∷ rest)
      done (record { pattern = c ∷ pattern; funcs = funcs }))

unfoldable pub parse_one : Text → Attempt SelectorError Spec
parse_one arg = elim (split_outside_parens arg b':') [
  | none ↦ done (record { pattern = arg; funcs = [] })
  | some idx ↦ check_spec (trim_space (take idx arg)) (trim_space (drop (idx + 1) arg))
]

unfoldable pub parse : List Text → Attempt SelectorError (List Spec)
parse [] = done []
parse (a ∷ args) = do s ← parse_one a; rest ← parse args; done (s ∷ rest)

-- The name up to the first `.` and the name behind it.
unfoldable pub cut_dot : Text → Option (Text × Text)
cut_dot [] = none
cut_dot (c ∷ s) =
    let rest = cut_dot s in
    if nat_beq c b'.'
    then some ([], s)
    else elim rest [ none ↦ none | some (recv, method) ↦ some (c ∷ recv, method) ]

abbrev pub by_value : Text → Text → Text
by_value recv method = codes "(" ++ (recv ++ (codes ")." ++ method))

abbrev pub by_pointer : Text → Text → Text
by_pointer recv method = codes "(*" ++ (recv ++ (codes ")." ++ method))

-- The forms without a parenthesis, by their first byte.
unfoldable pub match_unqualified : Text → Text → Bool
unfolding cut_dot
match_unqualified user_entry canonical = elim (cut_prefix user_entry (codes "*")) [
  | some starred ↦ elim (cut_dot starred) [
    | none ↦ false
    | some (recv, method) ↦ canonical == by_pointer recv method
  ]
  | none ↦ elim (cut_dot user_entry) [
    | none ↦ false
    | some ([], method) ↦ false
    | some (c ∷ recv, method) ↦
        canonical == by_value (c ∷ recv) method || canonical == by_pointer (c ∷ recv) method
  ]
]

unfoldable pub match_func : Text → Text → Bool
match_func user_entry canonical =
    if user_entry == canonical
    then true
    else if has_prefix user_entry (codes "(")
    then false
    else match_unqualified user_entry canonical

unfoldable pub any_match : List Text → Text → Bool
unfolding match_func
any_match entries canonical = any (λ e. match_func e canonical) entries
