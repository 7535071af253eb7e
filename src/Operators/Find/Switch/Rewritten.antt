-- ===== src/Operators/Find/Switch/Rewritten.antt =====
-- internal/operators/switch_case.go: a switch that is rewritten with all the mutants that `Find` returns
-- on it.
use mathlib.Core.Path.{subst}
use mathlib.Core.List.{append-nil}
use kanly.Base.{
  ℕ, ◌≤◌, ◌≡◌, refl, sym, ap, ◌∙◌, Bool, true, false, ◌||◌, List, [], ◌++◌, nat_eq, arith, length,
  All, Distinct, if◌then◌else◌,
}
use kanly.Base.Int.{ℤ}
use kanly.Operators.Tree.{Meta, Node, node, Nodes, nil, cons, switch_stmt, block_stmt}
use kanly.Operators.Types.{Info}
use kanly.Operators.Check.{contains_recover}
use kanly.Operators.SwitchCase.{Switch, run_switch, rewrite_group}
use kanly.Operators.SwitchCase.Collect.{candidates, positions, IsPlaced, active_mutant}
use kanly.Operators.SwitchCase.Select.{defaults}
use kanly.Operators.SwitchCase.Mutate.{mutate, length-positions}
use kanly.Operators.SwitchCase.Laws.{rewrite_group-run_switch}
use kanly.Operators.Find.Switch.{
  has_default, clauses_recover, drop_candidates, swap_candidates, switch_case_at,
}
use kanly.Operators.Find.Switch.Mutants.{
  Shape, fill, numbered, numbered-fill, Matches, Matches-append, length-Matches, ids-fill,
  drop_shapes, swap_shapes, case_positions, all-Stands, drop-Matches, swap-Matches,
}
use kanly.Operators.Find.Switch.Placed.{
  All-append, Placed, dropped, drop_shapes-Placed, swap_shapes-Placed, fill-IsPlaced,
  dropped-swap_shapes, dropped-append, dropped_clauses-fill, dropped-Distinct,
}

-- A drop of each clause that may be dropped, and a swap of each two neighbours that differ.
abbrev pub clause_shapes : Nodes → List Shape
clause_shapes clauses = drop_shapes 0 (has_default clauses) clauses ++ swap_shapes 0 clauses

-- None where the tag or a case expression calls `recover`.
abbrev pub switch_shapes : Info → Node → Nodes → List Shape
switch_shapes info tag clauses =
    if contains_recover info tag || clauses_recover info clauses then [] else clause_shapes clauses

abbrev pub switch_node : Meta → Node → Node → Meta → Nodes → Node
switch_node m init tag b clauses =
    node m switch_stmt (cons init (cons tag nil)) (cons (node b block_stmt clauses nil) nil)

shapes-Placed :
    (clauses : Nodes) → All (Placed (length (case_positions clauses))) (clause_shapes clauses)
shapes-Placed clauses =
    All-append (Placed _) _ (swap_shapes 0 clauses)
      (drop_shapes-Placed _ 0 (has_default clauses) clauses (omega arith))
      (swap_shapes-Placed _ 0 clauses (omega arith))

shapes-Distinct : (clauses : Nodes) → Distinct (dropped (clause_shapes clauses))
shapes-Distinct clauses =
    subst Distinct
      (sym (
        dropped-append (drop_shapes 0 (has_default clauses) clauses) (swap_shapes 0 clauses)
        ∙ (ap (λ r. dropped (drop_shapes 0 (has_default clauses) clauses) ++ r)
              (dropped-swap_shapes 0 clauses)
            ∙ append-nil _)))
      (dropped-Distinct 0 (has_default clauses) clauses)

module _ (info : Info) (m b : Meta) (init tag : Node) (clauses : Nodes) where
  switch_case_at-Matches :
      Matches
        (case_positions clauses)
        (switch_case_at info (switch_node m init tag b clauses))
        (switch_shapes info tag clauses)
  unfolding switch_case_at
  switch_case_at-Matches = unless (contains_recover info tag || clauses_recover info clauses)
    where
      unless :
          (skipped : Bool)
          → Matches
              (case_positions clauses)
              (if skipped
                then []
                else drop_candidates m.id (has_default clauses) clauses
                  ++ swap_candidates m.id clauses)
              (if skipped then [] else clause_shapes clauses)
      unless true = tt
      unless false =
          Matches-append (case_positions clauses) _ (swap_candidates m.id clauses) _
            (swap_shapes 0 clauses)
            (drop-Matches (case_positions clauses) m.id 0 (has_default clauses) clauses
              (all-Stands [] 0 clauses refl))
            (swap-Matches (case_positions clauses) m.id 0 clauses (all-Stands [] 0 clauses refl))

  switch_shapes-Placed :
      All (Placed (length (case_positions clauses))) (switch_shapes info tag clauses)
  switch_shapes-Placed = unless (contains_recover info tag || clauses_recover info clauses)
    where
      unless :
          (skipped : Bool)
          → All
              (Placed (length (case_positions clauses)))
              (if skipped then [] else clause_shapes clauses)
      unless true = tt
      unless false = shapes-Placed clauses

  switch_shapes-Distinct : Distinct (dropped (switch_shapes info tag clauses))
  switch_shapes-Distinct = unless (contains_recover info tag || clauses_recover info clauses)
    where
      unless : (skipped : Bool) → Distinct (dropped (if skipped then [] else clause_shapes clauses))
      unless true = tt
      unless false = shapes-Distinct clauses

-- A switch is rewritten with all the mutants that `Find` returns on it, which have distinct IDs. Its
-- clauses stand at the positions of the syntax tree's clauses, which are distinct, at most one of them
-- the default. It then runs as the switch does that the active mutant describes, the state and the
-- panics included. A mutant drops the expressions of a clause that is neither the default nor an empty
-- last one of a switch without a default, or swaps the bodies of two neighbours that print differently;
-- there is none where the tag or a case expression calls `recover`.
pub switch_case_at-run_switch :
    {S V B : Type 0} (active : ℤ) (info : Info) (m b : Meta) (init tag : Node) (clauses : Nodes)
    (sw : Switch S V B) (rest : List ℕ) (s : S)
    → positions sw.clauses ≡ case_positions clauses
    → Distinct (case_positions clauses)
    → defaults sw.clauses ≤ 1
    → length rest ≡ length (switch_case_at info (switch_node m init tag b clauses))
    → Distinct rest
    → run_switch
        (rewrite_group active sw
          (numbered (switch_case_at info (switch_node m init tag b clauses)) rest))
        s
      ≡ run_switch
          (record {
            tag = sw.tag;
            clauses =
                mutate
                  (active_mutant active (fill (switch_shapes info tag clauses) rest))
                  sw.clauses;
          })
          s
switch_case_at-run_switch active info m b init tag clauses sw rest s p d one l e =
    let found = switch_case_at-Matches info m b init tag clauses in
    let ms = fill (switch_shapes info tag clauses) rest in
    let same = length-Matches _ _ _ found ∙ sym l in
    ap (λ cands. run_switch (rewrite_group active sw cands) s)
      (numbered-fill (case_positions clauses) _ _ rest found ∙ ap (λ ps. candidates ps ms) (sym p))
    ∙ rewrite_group-run_switch active sw ms s (subst Distinct (sym p) d) one
        (subst (λ n. All (IsPlaced n) ms) (ap length (sym p) ∙ length-positions sw.clauses)
          (fill-IsPlaced _ _ rest (switch_shapes-Placed info m b init tag clauses)))
        (subst Distinct (sym (ids-fill _ rest same)) e)
        (subst Distinct (sym (dropped_clauses-fill _ rest same))
          (switch_shapes-Distinct info m b init tag clauses))
