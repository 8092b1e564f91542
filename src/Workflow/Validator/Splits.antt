-- ===== src/Workflow/Validator/Splits.antt =====
-- `_validate_split_join` of workflows/validator.py. `node_refs` stands for the ids that
-- `_NODE_REF.findall` finds in the texts of a node.
use Prim.Native.String.{compare}
use Prim.Native.Nat.{Ordering}
use ritesmith.Prelude.{
  String, Bool, false, not, ◌&&◌, Option, none, some, List, [], ◌∷◌, ◌++◌, ◌==◌, elem, length,
  nat_eq, text_or, is_text, if◌then◌else◌,
}
use ritesmith.Json.{Value, Items, Fields, text, arr, obj, nil, cons, end, field}
use ritesmith.Workflow.Problems.{
  Problem, join_is_no_join, join_owners, routes_into_join, sees_branch_node, cannot_see_node,
}
use ritesmith.Workflow.Graph.{text_field, has_kind, v2_successors}
use ritesmith.Workflow.Branches.{Branches, is_node, branch_sets, all_members}

-- `_data_strings`: the texts of a value, but those of a protected literal.
hides : Fields → Bool
hides (field k v end) = k == "__trama_literal_json__"
hides _ = false

unfoldable mutual
  unfolding hides

  pub data_strings : Value → List String
  data_strings (text s) = s ∷ []
  data_strings (arr vs) = item_strings vs
  data_strings (obj fs) = let inside = field_strings fs in if hides fs then [] else inside
  data_strings _ = []

  pub item_strings : Items → List String
  item_strings nil = []
  item_strings (cons v vs) = data_strings v ++ item_strings vs

  pub field_strings : Fields → List String
  field_strings end = []
  field_strings (field k v fs) = data_strings v ++ field_strings fs

-- `sorted(set(l))`
unfoldable pub insert_sorted : String → List String → List String
insert_sorted s [] = s ∷ []
insert_sorted s (t ∷ ts) =
    let later = t ∷ insert_sorted s ts in
    elim (compare s t) [ Ordering.lt ↦ s ∷ t ∷ ts | Ordering.eq ↦ t ∷ ts | Ordering.gt ↦ later ]

unfoldable pub sorted_set : List String → List String
unfolding insert_sorted
sorted_set [] = []
sorted_set (s ∷ ss) = insert_sorted s (sorted_set ss)

abbrev id_of : Value → String
id_of node = text_or (text_field "id" node) ""

-- The ids of the join nodes.
unfoldable pub join_ids : List Value → List String
join_ids [] = []
join_ids (n ∷ ns) = let rest = join_ids ns in if has_kind "join" n then id_of n ∷ rest else rest

-- `owners.get(join, [])`: the splits whose `join` it is.
unfoldable pub owners_of : String → List Value → List String
owners_of join [] = []
owners_of join (n ∷ ns) =
    let rest = owners_of join ns in
    if has_kind "split" n && is_text (text_field "join" n) join then id_of n ∷ rest else rest

unfoldable pub join_kind_errors : List Value → List Value → List Problem
join_kind_errors nodes [] = []
join_kind_errors nodes (n ∷ ns) =
    let rest = join_kind_errors nodes ns in
    let join = text_or (text_field "join" n) "" in
    if has_kind "split" n && is_node nodes join && not (elem join (join_ids nodes))
    then join_is_no_join (id_of n) ∷ rest
    else rest

unfoldable pub owner_errors : List Value → List String → List Problem
owner_errors nodes [] = []
owner_errors nodes (join ∷ joins) =
    let rest = owner_errors nodes joins in
    if nat_eq (length (owners_of join nodes)) 1
    then rest
    else join_owners join (owners_of join nodes) ∷ rest

-- Only the `join` field of the owning split may point at a join.
unfoldable pub route_errors : List String → Value → List String → List Problem
route_errors joins node [] = []
route_errors joins node (t ∷ ts) =
    let rest = route_errors joins node ts in
    if elem t joins && not (has_kind "split" node && is_text (text_field "join" node) t)
    then routes_into_join (id_of node) t ∷ rest
    else rest

unfoldable pub routing_errors : List String → List Value → List Problem
routing_errors joins [] = []
routing_errors joins (n ∷ ns) = route_errors joins n (v2_successors n) ++ routing_errors joins ns

-- The members of all branches that hold a node.
unfoldable pub same_branch : String → Branches → List String
same_branch nid [] = []
same_branch nid ((entry, members) ∷ sets) =
    let rest = same_branch nid sets in if elem nid members then members ++ rest else rest

map_refs : (String → Problem) → (String → Bool) → List String → List Problem
map_refs p keep [] = []
map_refs p keep (r ∷ rs) = let rest = map_refs p keep rs in if keep r then p r ∷ rest else rest

module _ (node_refs : List String → List String) where
  unfoldable pub sight_errors : List Value → Branches → Value → List Problem
  unfolding map_refs
  sight_errors nodes sets node =
      let refs = sorted_set (node_refs (data_strings node)) in
      let inside = all_members sets in
      if not (elem (id_of node) inside)
      then map_refs (sees_branch_node (id_of node)) (λ r. is_node nodes r && elem r inside) refs
      else map_refs (cannot_see_node (id_of node))
          (λ r. is_node nodes r && not (elem r (same_branch (id_of node) sets))) refs

  unfoldable pub all_sight_errors : List Value → Branches → List Value → List Problem
  all_sight_errors nodes sets [] = []
  all_sight_errors nodes sets (n ∷ ns) = sight_errors nodes sets n ++ all_sight_errors nodes sets ns

  unfoldable pub with_branches : List Value → Option Branches → Option (List Problem)
  with_branches nodes none = none
  with_branches nodes (some sets) = some (
      join_kind_errors nodes nodes
      ++ owner_errors nodes (sorted_set (join_ids nodes))
      ++ routing_errors (join_ids nodes) nodes
      ++ all_sight_errors nodes sets nodes)

  unfoldable pub validate_split_join : List Value → Option (List Problem)
  unfolding with_branches
  validate_split_join nodes = with_branches nodes (branch_sets nodes)
