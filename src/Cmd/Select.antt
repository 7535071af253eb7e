-- ===== src/Cmd/Select.antt =====
-- cmd/kanly/main.go and inspect.go: which mutants and operators a run is asked for.
pub mod Laws
use kanly.Base.{
  ℕ, zero, suc, ◌+◌, Bool, true, false, not, ◌&&◌, ◌||◌, Text, codes, List, [], ◌∷◌, ◌++◌, Option,
  none, some, ◌==◌, nat_eq, text_eq, contains, keep, if◌then◌else◌,
}
use kanly.Base.Attempt.{Attempt, done, failed, ◌>>=◌}
use kanly.Base.Decimal.{atoi}
use kanly.Base.Int.{ℤ, pos, negsuc, leb_ℤ}
use kanly.Base.Strings.{trim_space, split_byte, is_text}
use kanly.Mutation.{Mutation}
use kanly.Schema.Fingerprint.{is_fingerprint}
use kanly.Selector.{any_match}

-- The combined filter; `none` is the nil function, of which the rewriter keeps every candidate.
abbrev passes_diff : Option (Text → ℕ → Bool) → Text → ℕ → Bool
passes_diff none file line = true
passes_diff (some pred) file line = pred file line

abbrev passes_exclude : Option (Text → Bool) → Text → Bool
passes_exclude none file = true
passes_exclude (some exclude) file = not (exclude file)

abbrev passes_funcs : List Text → Text → Bool
passes_funcs [] name = true
passes_funcs (f ∷ funcs) name = any_match (f ∷ funcs) name

abbrev composed :
    Option (Text → ℕ → Bool) → Option (Text → Bool) → List Text → Text → ℕ → Text → Bool
composed diff exclude funcs file line name =
    if not (passes_diff diff file line)
    then false
    else if not (passes_exclude exclude file)
    then false
    else passes_funcs funcs name

unfoldable pub compose_filter :
    Option (Text → ℕ → Bool) → Option (Text → Bool) → List Text → Option (Text → ℕ → Text → Bool)
compose_filter none none [] = none
compose_filter diff exclude funcs = some (composed diff exclude funcs)

pub data SelectError : Type 0 where
  unknown_operator no_operator empty_id invalid_id not_found : SelectError

-- The closure `parse`: the names of a list that are not empty, each of which must be known.
unfoldable pub parse_names : List Text → List Text → Attempt SelectError (List Text)
parse_names known [] = done []
parse_names known (part ∷ parts) =
    let rest = parse_names known parts in
    elim (trim_space part) [
      | [] ↦ rest
      | c ∷ n ↦ elim (contains known (c ∷ n)) [
        | false ↦ failed unknown_operator
        | true ↦ do names ← rest; done ((c ∷ n) ∷ names)
      ]
    ]

abbrev pub parse_list : List Text → Text → Attempt SelectError (List Text)
parse_list known list = parse_names known (split_byte b',' list)

abbrev pub not_empty : List Text → Attempt SelectError (Option (List Text))
not_empty [] = failed no_operator
not_empty (n ∷ names) = done (some (n ∷ names))

abbrev pub selected_of : List Text → Text → Attempt SelectError (List Text)
selected_of known [] = done known
selected_of known (c ∷ only) = parse_list known (c ∷ only)

-- A set is a list here; `none` is every operator.
unfoldable pub select_operators : List Text → Text → Text → Attempt SelectError (Option (List Text))
select_operators known only skip =
    if not (is_text only) && not (is_text skip) then done none else (do
      selected ← selected_of known only
      skipped ← parse_list known skip
      not_empty (keep (λ n. not (contains skipped n)) selected))

pub record MutantSet : Type 0 where
  pub ids : List ℕ
  pub fps : List Text

unfoldable pub has : MutantSet → Mutation → Bool
has s m = contains s.ids m.id || (is_text m.fingerprint && contains s.fps m.fingerprint)

-- An ID that is positive.
abbrev pub id_of : ℤ → Attempt SelectError ℕ
id_of (pos zero) = failed invalid_id
id_of (pos (suc n)) = done (suc n)
id_of (negsuc n) = failed invalid_id

abbrev pub numeral : Text → Attempt SelectError ℕ
numeral part = elim (atoi part) [ none ↦ failed invalid_id | some v ↦ id_of v ]

abbrev pub add_entry : Text → MutantSet → Attempt SelectError MutantSet
add_entry [] set = failed empty_id
add_entry (c ∷ part) set =
    if is_fingerprint (c ∷ part)
    then done (record set { fps = set.fps ++ (c ∷ part) ∷ [] })
    else (do id ← numeral (c ∷ part); done (record set { ids = set.ids ++ id ∷ [] }))

unfoldable pub parse_parts : MutantSet → List Text → Attempt SelectError MutantSet
parse_parts set [] = done set
parse_parts set (part ∷ parts) = do more ← add_entry (trim_space part) set; parse_parts more parts

unfoldable pub parse_mutants : Text → Attempt SelectError (Option MutantSet)
parse_mutants s =
    if not (is_text (trim_space s))
    then done none
    else (do set ← parse_parts (record { ids = []; fps = [] }) (split_byte b',' s); done (some set))

-- The first mutation that a reference names.
unfoldable pub first_of : MutantSet → List Mutation → Option Mutation
first_of set [] = none
first_of set (m ∷ muts) = let next = first_of set muts in if has set m then some m else next

-- An entry of the list that is no reference is one error, whatever is wrong with it.
abbrev pub one_of :
    Attempt SelectError (Option MutantSet) → List Mutation → Attempt SelectError Mutation
one_of (done (some set)) muts = elim (first_of set muts) [
  | none ↦ failed not_found
  | some m ↦ done m
]
one_of _ muts = failed invalid_id

unfoldable pub find_mutants : List Mutation → List Text → Attempt SelectError (List Mutation)
find_mutants muts [] = done []
find_mutants muts (ref ∷ refs) = do
  m ← one_of (parse_mutants ref) muts
  rest ← find_mutants muts refs
  done (m ∷ rest)
