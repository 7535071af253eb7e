-- ===== src/Report/Survivors/Laws.antt =====
-- internal/report/report.go: the contents of the groups of `groupByFunction`.
use mathlib.Core.List.{Perm, append_assoc, append-nil, perm_middle}
use mathlib.Core.List.Perm
use kanly.Base.{
  ◌≡◌, refl, Bool, List, [], ◌∷◌, ◌++◌, arith, ◌==◌, text_eq, nat_eq, text_beq_iff, keep, map, All,
  Bool-cases, inl, inr,
}
use kanly.Base.Sort.{insert, sort}
use kanly.Base.Sort.Laws.{sort-perm, All-sort}
use kanly.Mutation.{Status, status_eq, Mutation, Result, FunctionSurvivors}
use kanly.Report.Survivors.{
  function_of, in_function, add_mutation, collect_groups, by_position, by_size, in_order,
  group_by_function,
}

abbrev pub flatten : List FunctionSurvivors → List Mutation
flatten [] = []
flatten (g ∷ groups) = g.mutations ++ flatten groups

-- The mutants with one status, in the order of the results.
abbrev pub wanted : Status → List Result → List Mutation
wanted want results = map (λ r. r.mutation) (keep (λ r. r.status == want) results)

flatten-add :
    (m : Mutation) (groups : List FunctionSurvivors)
    → Perm (flatten (add_mutation m groups)) (m ∷ flatten groups)
unfolding add_mutation
flatten-add m [] = Perm.refl (m ∷ [])
flatten-add m (g ∷ groups) = elim (Bool-cases (in_function m.pkg (function_of m) g)) [
  | inl b ↦
      rw (b, append_assoc g.mutations (m ∷ []) (flatten groups))
        (perm_middle g.mutations (flatten groups))
  | inr b ↦ rw b (
      Perm.trans (Perm.append_left g.mutations (flatten-add m groups))
        (perm_middle g.mutations (flatten groups)))
]

flatten-collect :
    (want : Status) (groups : List FunctionSurvivors) (results : List Result)
    → Perm (flatten (collect_groups want groups results)) (flatten groups ++ wanted want results)
unfolding collect_groups
flatten-collect want groups [] = rw (append-nil (flatten groups)) (Perm.refl (flatten groups))
flatten-collect want groups (r ∷ results) = elim (Bool-cases (r.status == want)) [
  | inl b ↦ rw b (
      Perm.trans (flatten-collect want (add_mutation r.mutation groups) results) (
        Perm.trans (Perm.append_right (wanted want results) (flatten-add r.mutation groups))
          (Perm.symm (perm_middle (flatten groups) (wanted want results)))))
  | inr b ↦ rw b (flatten-collect want groups results)
]

swap_blocks : (xs ys zs : List Mutation) → Perm (xs ++ (ys ++ zs)) (ys ++ (xs ++ zs))
swap_blocks [] ys zs = Perm.refl (ys ++ zs)
swap_blocks (x ∷ xs) ys zs =
    Perm.trans (Perm.cons x (swap_blocks xs ys zs)) (Perm.symm (perm_middle ys (xs ++ zs)))

module _ (le : FunctionSurvivors → FunctionSurvivors → Bool) where
  flatten-insert :
      (g : FunctionSurvivors) (groups : List FunctionSurvivors)
      → Perm (flatten (insert le g groups)) (g.mutations ++ flatten groups)
  unfolding insert
  flatten-insert g [] = Perm.refl (g.mutations ++ [])
  flatten-insert g (h ∷ groups) = elim (Bool-cases (le g h)) [
    | inl b ↦ rw b (Perm.refl (g.mutations ++ (h.mutations ++ flatten groups)))
    | inr b ↦ rw b (
        Perm.trans (Perm.append_left h.mutations (flatten-insert g groups))
          (swap_blocks h.mutations g.mutations (flatten groups)))
  ]

  flatten-sort :
      (groups : List FunctionSurvivors) → Perm (flatten (sort le groups)) (flatten groups)
  unfolding sort
  flatten-sort [] = Perm.refl []
  flatten-sort (g ∷ groups) =
      Perm.trans (flatten-insert g (sort le groups))
        (Perm.append_left g.mutations (flatten-sort groups))

flatten-in_order :
    (groups : List FunctionSurvivors) → Perm (flatten (map in_order groups)) (flatten groups)
flatten-in_order [] = Perm.refl []
flatten-in_order (g ∷ groups) =
    Perm.append (sort-perm by_position g.mutations) (flatten-in_order groups)

-- The mutant is of the group's package and function.
abbrev pub Member : FunctionSurvivors → Mutation → Type 0
Member g m = (m.pkg ≡ g.pkg) × (function_of m ≡ g.function)

abbrev pub Uniform : FunctionSurvivors → Type 0
Uniform g = All (Member g) g.mutations

All-snoc :
    (P : Mutation → Type 0) (ms : List Mutation) (m : Mutation)
    → All P ms
    → P m
    → All P (ms ++ m ∷ [])
All-snoc P [] m a p = (p, tt)
All-snoc P (n ∷ ms) m a p = (a.0, All-snoc P ms m a.1 p)

add_mutation-Uniform :
    (m : Mutation) (groups : List FunctionSurvivors)
    → All Uniform groups
    → All Uniform (add_mutation m groups)
unfolding add_mutation
add_mutation-Uniform m [] a = (((refl, refl), tt), tt)
add_mutation-Uniform m (g ∷ groups) a = elim (Bool-cases (in_function m.pkg (function_of m) g)) [
  | inl b ↦ rw b (
    All-snoc (Member g) g.mutations m a.0 (
      ground (arith, text_beq_iff g.pkg m.pkg),
      ground (arith, text_beq_iff g.function (function_of m)),
    ),
    a.1,
  )
  | inr b ↦ rw b (a.0, add_mutation-Uniform m groups a.1)
]

collect_groups-Uniform :
    (want : Status) (groups : List FunctionSurvivors) (results : List Result)
    → All Uniform groups
    → All Uniform (collect_groups want groups results)
unfolding collect_groups
collect_groups-Uniform want groups [] a = a
collect_groups-Uniform want groups (r ∷ results) a = elim (Bool-cases (r.status == want)) [
  | inl b ↦ rw b (
      collect_groups-Uniform want (add_mutation r.mutation groups) results
        (add_mutation-Uniform r.mutation groups a))
  | inr b ↦ rw b (collect_groups-Uniform want groups results a)
]

map-Uniform :
    (groups : List FunctionSurvivors) → All Uniform groups → All Uniform (map in_order groups)
map-Uniform [] a = tt
map-Uniform (g ∷ groups) a =
    (All-sort by_position (Member g) g.mutations a.0, map-Uniform groups a.1)

-- The groups of a status hold the mutants with that status, each as often as the results do, and
-- every mutant stands in a group of its own package and function.
pub group_by_function_lem :
    (results : List Result) (want : Status)
    → Perm (flatten (group_by_function results want)) (wanted want results)
      × All Uniform (group_by_function results want)
unfolding group_by_function
group_by_function_lem results want =
    let groups = collect_groups want [] results in
    (
      Perm.trans (flatten-sort by_size (map in_order groups))
          (Perm.trans (flatten-in_order groups) (flatten-collect want [] results)),
      All-sort by_size Uniform (map in_order groups)
          (map-Uniform groups (collect_groups-Uniform want [] results tt)),
    )
