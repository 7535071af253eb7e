-- ===== src/Report/Survivors.antt =====
-- internal/report/report.go: mutants grouped by function, and results in the order of the text
-- report.
pub mod Laws
use kanly.Base.{
  ℕ, Bool, true, false, not, ◌&&◌, ◌||◌, Text, codes, List, [], ◌∷◌, ◌++◌, ◌==◌, nat_eq, text_eq,
  length, ltb, map, any, keep, contains, if◌then◌else◌,
}
use kanly.Base.Sort.{sort}
use kanly.Base.Strings.{text_le}
use kanly.Mutation.{Status, status_eq, survived, Mutation, Result, FunctionSurvivors}

abbrev pub file_scope_func : Text
file_scope_func = codes "<file-scope>"

abbrev named_or_file : Text → Text
named_or_file [] = file_scope_func
named_or_file (c ∷ s) = c ∷ s

abbrev pub function_of : Mutation → Text
function_of m = named_or_file m.function

abbrev pub in_function : Text → Text → FunctionSurvivors → Bool
in_function pkg fn g = g.pkg == pkg && g.function == fn

-- The group of the mutation's package and function, extended, or a new one. The order of the
-- groups, which in Go is a map's, is sorted away.
unfoldable pub add_mutation : Mutation → List FunctionSurvivors → List FunctionSurvivors
add_mutation m [] = record { pkg = m.pkg; function = function_of m; mutations = m ∷ [] } ∷ []
add_mutation m (g ∷ groups) =
    let rest = add_mutation m groups in
    if in_function m.pkg (function_of m) g
    then record g { mutations = g.mutations ++ m ∷ [] } ∷ groups
    else g ∷ rest

unfoldable pub collect_groups :
    Status → List FunctionSurvivors → List Result → List FunctionSurvivors
collect_groups want groups [] = groups
collect_groups want groups (r ∷ results) =
    collect_groups want (if r.status == want then add_mutation r.mutation groups else groups)
      results

-- Each order is the `!less(b, a)` of the comparison that the source sorts by.
abbrev pub by_position : Mutation → Mutation → Bool
by_position a b =
    if not (b.line == a.line) then not (ltb b.line a.line) else not (ltb b.column a.column)

abbrev text_lt : Text → Text → Bool
text_lt s t = not (text_le t s)

abbrev pub by_name : FunctionSurvivors → FunctionSurvivors → Bool
by_name g h =
    if not (h.pkg == g.pkg) then not (text_lt h.pkg g.pkg) else not (text_lt h.function g.function)

-- The functions with the most mutants first.
abbrev pub by_size : FunctionSurvivors → FunctionSurvivors → Bool
by_size g h =
    if not (length h.mutations == length g.mutations)
    then not (ltb (length g.mutations) (length h.mutations))
    else by_name g h

abbrev pub in_order : FunctionSurvivors → FunctionSurvivors
in_order g = record g { mutations = sort by_position g.mutations }

unfoldable pub group_by_function : List Result → Status → List FunctionSurvivors
group_by_function results want = sort by_size (map in_order (collect_groups want [] results))

unfoldable pub build_survivors_by_function : List Result → List FunctionSurvivors
build_survivors_by_function results =
    sort by_name (map in_order (collect_groups survived [] results))

abbrev pub by_location : Result → Result → Bool
by_location r s =
    let a = r.mutation in
    let b = s.mutation in
    if not (b.file == a.file)
    then not (text_lt b.file a.file)
    else if not (b.line == a.line)
    then not (ltb b.line a.line)
    else if not (b.column == a.column)
    then not (ltb b.column a.column)
    else not (ltb b.id a.id)

unfoldable pub sorted_by_location : List Result → List Status → List Result
sorted_by_location results statuses =
    sort by_location (keep (λ r. contains statuses r.status) results)
