-- ===== src/Workflow/Branches.antt =====
-- `_branch_sets` of workflows/validator.py: the nodes of each split branch, with the entry node of
-- the branch. `none` means that the fuel of a worklist ran out.
pub mod Members
use ritesmith.Prelude.{
  String, Bool, true, false, Option, none, some, List, [], ◌∷◌, ◌++◌, present, text_or, elem,
  if◌then◌else◌,
}
use ritesmith.Json.{Value, texts}
use ritesmith.Workflow.Worklist.{collect, enough}
use ritesmith.Workflow.Graph.{text_field, list_field, has_kind, v2_successors, find_node, node_ids}

unfoldable pub branches_of : Value → List String
unfolding list_field texts
branches_of node = texts (list_field "branches" node)

-- `t in node_map`
unfoldable pub is_node : List Value → String → Bool
is_node nodes t = present (find_node t nodes)

unfoldable pub only_nodes : List Value → List String → List String
only_nodes nodes [] = []
only_nodes nodes (t ∷ ts) =
    let rest = only_nodes nodes ts in if is_node nodes t then t ∷ rest else rest

-- The edges within a branch: those of a nested split stay inside, its join is left out.
branch_next : Option Value → List String
branch_next none = []
branch_next (some node) = if has_kind "split" node then branches_of node else v2_successors node

unfoldable pub inside_edges : List Value → String → List String
unfolding branch_next only_nodes
inside_edges nodes nid = only_nodes nodes (branch_next (find_node nid nodes))

unfoldable pub members_of : List Value → String → Option (List String)
members_of nodes entry =
    collect (is_node nodes) (inside_edges nodes)
      (enough (is_node nodes) (inside_edges nodes) (node_ids nodes)) (entry ∷ []) []

-- A set of nodes for each entry.
abbrev pub Branches : Type 0
Branches = List (String × List String)

add_branch : String → Option (List String) → Option Branches → Option Branches
add_branch entry (some members) (some rest) = some ((entry, members) ∷ rest)
add_branch entry _ _ = none

unfoldable pub entry_sets : List Value → List String → Option Branches
unfolding add_branch
entry_sets nodes [] = some []
entry_sets nodes (entry ∷ entries) =
    let rest = entry_sets nodes entries in
    if is_node nodes entry then add_branch entry (members_of nodes entry) rest else rest

-- The keys of `node_map`: each id once, in the order in which they first came.
unfoldable pub map_keys : List String → List String → List String
map_keys seen [] = []
map_keys seen (s ∷ ss) =
    let old = map_keys seen ss in
    let new = s ∷ map_keys (s ∷ seen) ss in if elem s seen then old else new

unfoldable pub entries_at : Option Value → List String
entries_at none = []
entries_at (some node) = if has_kind "split" node then branches_of node else []

unfoldable pub entries_of : List Value → List String → List String
unfolding entries_at
entries_of nodes [] = []
entries_of nodes (nid ∷ nids) = entries_at (find_node nid nodes) ++ entries_of nodes nids

-- The entries of the splits in `node_map.values()`.
unfoldable pub split_entries : List Value → List String
unfolding map_keys entries_of
split_entries nodes = entries_of nodes (map_keys [] (node_ids nodes))

unfoldable pub branch_sets : List Value → Option Branches
branch_sets nodes = entry_sets nodes (split_entries nodes)

-- `set().union(*branch_sets.values())`
unfoldable pub all_members : Branches → List String
all_members [] = []
all_members ((entry, members) ∷ sets) = members ++ all_members sets

-- `branch_node_ids`
abbrev option_members : Option Branches → Option (List String)
option_members none = none
option_members (some sets) = some (all_members sets)

unfoldable pub branch_node_ids : List Value → Option (List String)
branch_node_ids nodes = option_members (branch_sets nodes)
