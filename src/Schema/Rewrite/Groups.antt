-- ===== src/Schema/Rewrite/Groups.antt =====
-- internal/schema/rewriter.go: the candidates of a file grouped into call sites.
pub mod Laws
use kanly.Base.{
  ℕ, Bool, false, not, ◌&&◌, Text, List, [], ◌∷◌, ◌++◌, ◌==◌, nat_eq, text_eq, keep, any,
  if◌then◌else◌,
}
use kanly.Base.Sort.{sort}
use kanly.Schema.Rewrite.{Candidate, Operator, Entry}

pub record Group : Type 0 where
  pub node : ℕ
  pub dispatcher_key : Text
  pub op : Operator
  pub mut_ids : List ℕ
  pub cands : List Candidate

abbrev pub in_group : ℕ → Text → Group → Bool
in_group node key g = g.node == node && g.dispatcher_key == key

abbrev extend : Entry → Group → Group
extend e g = record g { mut_ids = g.mut_ids ++ e.id ∷ []; cands = g.cands ++ e.cand ∷ [] }

-- The group of the entry's node and dispatcher, extended, or a new group at the end.
unfoldable pub add_entry : Entry → List Group → List Group
add_entry e [] =
    record {
      node = e.cand.node;
      dispatcher_key = e.op.dispatcher_key;
      op = e.op;
      mut_ids = e.id ∷ [];
      cands = e.cand ∷ [];
    }
    ∷ []
add_entry e (g ∷ groups) =
    if in_group e.cand.node e.op.dispatcher_key g
    then extend e g ∷ groups
    else g ∷ add_entry e groups

unfoldable pub group_from : List Group → List Entry → List Group
unfolding add_entry
group_from groups [] = groups
group_from groups (e ∷ entries) = group_from (add_entry e groups) entries

unfoldable pub group_entries : List Entry → List Group
unfolding group_from
group_entries entries = group_from [] entries

-- Shape-specific rewrites come before wrappers.
abbrev pub wrapper_last : Group → Group → Bool
wrapper_last g h = not (not h.op.wraps && g.op.wraps)

-- The groups on one node, in the order in which they are applied.
unfoldable pub node_groups : List Group → ℕ → List Group
unfolding sort
node_groups groups node = sort wrapper_last (keep (λ g. g.node == node) groups)

abbrev pub clashes : List Group → Bool
clashes (g ∷ h ∷ gs) = not h.op.wraps
clashes _ = false

-- Two shape-specific rewrites on one node.
unfoldable pub has_conflict : List Group → Bool
unfolding node_groups
has_conflict groups = any (λ g. clashes (node_groups groups g.node)) groups
