-- ===== src/Workflow/Validator/Accepted.antt =====
-- What holds of a v2 definition in which the validation finds no problem.
use text.Mathlib.TextEquality.{path_by_compare}
use ritesmith.Prelude.{
  String, ◌≡◌, ◌⊎◌, refl, true, ◌||◌, Option, none, some, List, [], ◌∷◌, ◌++◌, ◌==◌, arith, elem,
  length, Option-cases, inl, inr, append-eq-nil, eq_iff, text_or, is_text,
}
use ritesmith.Json.{Value, null, get}
use ritesmith.Workflow.Problems.{Problem}
use ritesmith.Workflow.Graph.{
  text_field, list_field, has_kind, v2_successors, find_under, find_node, node_ids, successors,
  successors_of,
}
use ritesmith.Workflow.Cycles.{detect_v2_cycles}
use ritesmith.Workflow.Cycles.V2.{HasCycle, detect_v2_cycles-decides}
use ritesmith.Workflow.Branches.{Branches, branch_sets}
use ritesmith.Workflow.Worklist.Reach.{starts_known}
use ritesmith.Workflow.Validator.Node.{validate_v2_node}
use ritesmith.Workflow.Validator.Splits.{
  join_ids, owners_of, owner_errors, sorted_set, insert_sorted, route_errors, routing_errors,
  validate_split_join, with_branches, join_kind_errors, all_sight_errors,
}
use ritesmith.Workflow.Validator.Targets.{v2_successors-Within}
use ritesmith.Workflow.Validator.{
  then_check, then_on, both, nodes_errors, node_conditions, loop_errors, cycle_report, check_graph,
  validate_v2,
}

then_check-eq-nil :
    (ps : List Problem) (o : Option (List Problem))
    → then_check ps o ≡ some []
    → (ps ≡ []) × (o ≡ some [])
unfolding then_check
then_check-eq-nil [] o h = (refl, h)
then_check-eq-nil (p ∷ ps) o h = absurd (ground arith)

then_on-eq-nil :
    (m o : Option (List Problem)) → then_on m o ≡ some [] → (m ≡ some []) × (o ≡ some [])
unfolding then_on
then_on-eq-nil none o h = absurd (ground arith)
then_on-eq-nil (some ps) o h = let (e, e') = then_check-eq-nil ps o h in (rw e, e')

both-eq-nil : (m o : Option (List Problem)) → both m o ≡ some [] → (m ≡ some []) × (o ≡ some [])
unfolding both
both-eq-nil none o h = absurd (ground arith)
both-eq-nil (some ps) none h = absurd (ground arith)
both-eq-nil (some ps) (some qs) h =
    let (e, e') = append-eq-nil ps qs (ground arith) in (rw e, rw e')

nodes_errors-at :
    (key k : String) (ns : List Value) (ids : List String) (n : Value)
    → nodes_errors ns ids ≡ []
    → find_under key k ns ≡ some n
    → validate_v2_node n ids ≡ []
unfolding nodes_errors find_under
nodes_errors-at key k [] ids n h e = absurd (ground arith)
nodes_errors-at key k (m ∷ ns) ids n h e =
    let (first, rest) =
      append-eq-nil (validate_v2_node m ids ++ node_conditions m) (nodes_errors ns ids) h in
    let (mine, _) = append-eq-nil (validate_v2_node m ids) (node_conditions m) first in
    ground (arith, nodes_errors-at key k ns ids n rest)

routing_errors-at :
    (key k : String) (joins : List String) (ns : List Value) (n : Value)
    → routing_errors joins ns ≡ []
    → find_under key k ns ≡ some n
    → route_errors joins n (v2_successors n) ≡ []
unfolding routing_errors find_under
routing_errors-at key k joins [] n h e = absurd (ground arith)
routing_errors-at key k joins (m ∷ ns) n h e =
    let (mine, rest) =
      append-eq-nil (route_errors joins m (v2_successors m)) (routing_errors joins ns) h in
    ground (arith, routing_errors-at key k joins ns n rest)

route_errors-at :
    (joins : List String) (n : Value) (ts : List String) (t : String)
    → route_errors joins n ts ≡ []
    → elem t ts ≡ true
    → elem t joins ≡ true
    → (has_kind "split" n ≡ true) × (is_text (text_field "join" n) t ≡ true)
unfolding route_errors elem
route_errors-at joins n [] t h m j = absurd (ground arith)
route_errors-at joins n (u ∷ ts) t h m j = ground (arith, route_errors-at joins n ts t, eq_iff t u)

elem-insert_sorted :
    (s t : String) (l : List String) → elem s (insert_sorted t l) ≡ ((s == t) || elem s l)
unfolding elem insert_sorted
elem-insert_sorted s t [] = refl
elem-insert_sorted s t (u ∷ l) =
    ground (arith, elem-insert_sorted s t l, path_by_compare t u, eq_iff s t, eq_iff s u)

elem-sorted_set : (s : String) (l : List String) → elem s (sorted_set l) ≡ elem s l
unfolding elem sorted_set
elem-sorted_set s [] = refl
elem-sorted_set s (t ∷ l) =
    ground (arith, elem-insert_sorted s t (sorted_set l), elem-sorted_set s l)

owner_errors-at :
    (nodes : List Value) (joins : List String) (j : String)
    → owner_errors nodes joins ≡ []
    → elem j joins ≡ true
    → length (owners_of j nodes) ≡ 1
unfolding owner_errors elem
owner_errors-at nodes [] j h m = absurd (ground arith)
owner_errors-at nodes (k ∷ joins) j h m = ground (arith, owner_errors-at nodes joins j, eq_iff j k)

-- The joins among the nodes, and who may lead to them.
pub record Joined (nodes : List Value) : Type 0 where
  pub owned : (j : String) → elem j (join_ids nodes) ≡ true → length (owners_of j nodes) ≡ 1
  pub entered :
      (nid j : String) (n : Value)
      → find_node nid nodes ≡ some n
      → elem j (v2_successors n) ≡ true
      → elem j (join_ids nodes) ≡ true
      → (has_kind "split" n ≡ true) × (is_text (text_field "join" n) j ≡ true)

abbrev pub nodes_of : Value → List Value
nodes_of definition = list_field "nodes" definition

abbrev pub entrypoint_of : Value → String
entrypoint_of definition = text_or (text_field "entrypoint" definition) ""

-- Nothing bounds the number of rounds.
abbrev pub Unbounded : Value → Type 0
Unbounded definition =
    (get "max_iterations" definition ≡ none) ⊎ (get "max_iterations" definition ≡ some null)

module _ (node_refs template_refs : List String → List String) (registry : List String)
    (definition : Value)
    (accepted : validate_v2 node_refs template_refs registry definition ≡ some []) where
  -- The checks, one by one.
  record Parts : Type 0 where
    nodes_fine : nodes_errors (nodes_of definition) (node_ids (nodes_of definition)) ≡ []
    splits_fine : validate_split_join node_refs (nodes_of definition) ≡ some []
    loops_fine :
        loop_errors
          (get "max_iterations" definition)
          (nodes_of definition)
          (entrypoint_of definition)
          (node_ids (nodes_of definition))
        ≡ some []

  parts : Parts
  unfolding validate_v2 check_graph
  parts =
      let (_, graph) = then_check-eq-nil _ _ accepted in
      let (checked, looped) = then_on-eq-nil _ _ graph in
      let (nodes_fine, splits_fine) = then_check-eq-nil _ _ checked in
      let (loops_fine, _) = both-eq-nil _ _ looped in
      record { nodes_fine = nodes_fine; splits_fine = splits_fine; loops_fine = loops_fine }

  -- In an accepted v2 definition every edge of a node leads to a node of the definition.
  pub validate_v2-closed :
      (nid t : String)
      → elem t (successors (nodes_of definition) nid) ≡ true
      → elem t (node_ids (nodes_of definition)) ≡ true
  unfolding successors successors_of find_node
  validate_v2-closed nid t h = elim (Option-cases (find_under "id" nid (nodes_of definition))) [
    | inl missing ↦ absurd (unfold elem in ground arith)
    | inr (n, e) ↦
        v2_successors-Within n (node_ids (nodes_of definition))
          (nodes_errors-at "id" nid (nodes_of definition) (node_ids (nodes_of definition)) n
            parts.nodes_fine e)
          t (rw e at h)
  ]

  -- In an accepted v2 definition whose `max_iterations` is absent or null, no walk from the
  -- entrypoint leads to a node and back to it.
  pub validate_v2-acyclic :
      Unbounded definition
      → ¬ HasCycle (nodes_of definition) (node_ids (nodes_of definition)) (entrypoint_of definition)
  unfolding loop_errors cycle_report
  validate_v2-acyclic free c = elim free [
    | inl absent ↦ no_report (rw absent at parts.loops_fine)
    | inr is_null ↦ no_report (rw is_null at parts.loops_fine)
  ]
    where
      no_report : ¬ (
          cycle_report (
            detect_v2_cycles
              (nodes_of definition)
              (entrypoint_of definition)
              (node_ids (nodes_of definition)))
          ≡ some [])
      no_report h =
          let (b, e, iff) =
            detect_v2_cycles-decides (nodes_of definition) (entrypoint_of definition)
              (node_ids (nodes_of definition)) in
          let found = iff.1 (starts_known _ _ c.reached c.edge.0, c) in ground arith

  -- In an accepted v2 definition each join node is named as `join` by exactly one split, and every
  -- node with an edge to it is a split that names it.
  pub validate_v2-Joined : Joined (nodes_of definition)
  unfolding validate_split_join
  validate_v2-Joined = elim (Option-cases (branch_sets nodes)) [
    | inl missing ↦ absurd (unfold with_branches in ground (arith, parts.splits_fine))
    | inr (sets, e) ↦ of_sets sets (rw e at parts.splits_fine)
  ]
    where
      nodes : List Value
      nodes = nodes_of definition

      of_sets :
          (sets : Branches) → with_branches node_refs nodes (some sets) ≡ some [] → Joined nodes
      of_sets sets h =
          let (before, _) =
            append-eq-nil
              (join_kind_errors nodes nodes
                ++ owner_errors nodes (sorted_set (join_ids nodes))
                ++ routing_errors (join_ids nodes) nodes)
              (all_sight_errors node_refs nodes sets nodes)
              (unfold with_branches in ground arith) in
          let (owning, routing) =
            append-eq-nil
              (join_kind_errors nodes nodes ++ owner_errors nodes (sorted_set (join_ids nodes)))
              (routing_errors (join_ids nodes) nodes) before in
          let (_, owners) =
            append-eq-nil (join_kind_errors nodes nodes)
              (owner_errors nodes (sorted_set (join_ids nodes))) owning in
          record {
            owned = λ j m.
                owner_errors-at nodes (sorted_set (join_ids nodes)) j owners (rw elem-sorted_set m);
            entered = λ nid j n found edge m.
                route_errors-at (join_ids nodes) n (v2_successors n) j
                  (routing_errors-at "id" nid (join_ids nodes) nodes n routing
                    (unfold find_node in found))
                  edge m;
          }
