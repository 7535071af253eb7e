-- ===== src/Schema/Rewrite/Groups/Laws.antt =====
-- Which mutants share a call site, and which groups a node has.
use mathlib.Core.List.{append-nil, append_assoc}
use kanly.Base.{
  ℕ, ◌≡◌, refl, sym, ◌∙◌, Bool, ◌&&◌, Text, List, [], ◌∷◌, ◌++◌, arith, ◌==◌, nat_eq, text_eq, keep,
  map, if◌then◌else◌, Bool-cases, inl, inr, text_beq_iff,
}
use kanly.Schema.Rewrite.{Entry}
use kanly.Schema.Rewrite.Groups.{Group, in_group, add_entry, group_from, group_entries}

-- The IDs at the call site of a dispatcher on a node.
abbrev pub ids_at : ℕ → Text → List Group → List ℕ
ids_at node key [] = []
ids_at node key (g ∷ groups) = if in_group node key g then g.mut_ids else ids_at node key groups

abbrev pub meets : ℕ → Text → Entry → Bool
meets node key e = e.cand.node == node && e.op.dispatcher_key == key

ids_at-add_entry :
    (node : ℕ) (key : Text) (e : Entry) (groups : List Group)
    → ids_at node key (add_entry e groups)
      ≡ (if meets node key e then ids_at node key groups ++ e.id ∷ [] else ids_at node key groups)
unfolding add_entry
ids_at-add_entry node key e [] = ground arith
ids_at-add_entry node key e (g ∷ groups) = ground (
  arith,
  ids_at-add_entry node key e groups,
  text_beq_iff g.dispatcher_key key,
  text_beq_iff g.dispatcher_key e.op.dispatcher_key,
  text_beq_iff e.op.dispatcher_key key,
)

ids_at-group_from :
    (node : ℕ) (key : Text) (groups : List Group) (entries : List Entry)
    → ids_at node key (group_from groups entries)
      ≡ ids_at node key groups ++ map (λ e. e.id) (keep (meets node key) entries)
unfolding group_from
ids_at-group_from node key groups [] = sym (append-nil _)
ids_at-group_from node key groups (e ∷ entries) = elim (Bool-cases (meets node key e)) [
  | inl b ↦
      ids_at-group_from node key (add_entry e groups) entries
      ∙ rw (ids_at-add_entry node key e groups, b)
          (append_assoc (ids_at node key groups) (e.id ∷ [])
            (map (λ e. e.id) (keep (meets node key) entries)))
  | inr b ↦
      ids_at-group_from node key (add_entry e groups) entries
      ∙ rw (ids_at-add_entry node key e groups, b) refl
]

-- The call site of a dispatcher on a node carries exactly the reported mutants of that node and
-- dispatcher, in the order in which they were numbered.
pub group_entries_lem :
    (node : ℕ) (key : Text) (entries : List Entry)
    → ids_at node key (group_entries entries) ≡ map (λ e. e.id) (keep (meets node key) entries)
unfolding group_entries
group_entries_lem node key entries = ids_at-group_from node key [] entries
