-- ===== src/Workflow/Tests.antt =====
-- Small workflows, what the checks find in them, and the theorems at them.
use ritesmith.Prelude.{
  All, String, ◌≡◌, ◌↔◌, ◌⊎◌, refl, Bool, true, none, some, List, [], ◌∷◌, elem, discard, inl,
}
use ritesmith.Json.{
  Value, Items, pos, null, int, text, arr, obj, nil, cons, end, field, get, lookup, elements,
  entries, texts, truthy,
}
use ritesmith.Workflow.Problems.{unknown_capability, cycle_detected, unknown_next}
use ritesmith.Workflow.Dfs.{enter, go_on, scan, leave, dfs}
use ritesmith.Workflow.Worklist.{collect, edges, enough}
use ritesmith.Workflow.Expressions.{expression_errors, operator_errors}
use ritesmith.Workflow.Expressions.WellFormed.{WellFormed, expression_errors_iff}
use ritesmith.Workflow.Graph.{
  text_field, list_field, or_end, inner, has_kind, targets, v2_successors, ids_under, node_ids,
  newest, find_under, find_node, successors_of, successors,
}
use ritesmith.Workflow.Cycles.{detect_v2_cycles}
use ritesmith.Workflow.Cycles.V2.{HasCycle, detect_v2_cycles-decides}
use ritesmith.Workflow.Branches.{
  Branches, is_node, only_nodes, branches_of, inside_edges, members_of, entry_sets, split_entries,
  map_keys, entries_at, entries_of, branch_sets, all_members,
}
use ritesmith.Workflow.Branches.Members.{InSplit, branch_sets-Covers}
use ritesmith.Workflow.Validator.Node.{
  validate_v2_node, task_errors, switch_errors, split_errors, join_node_errors, sleep_errors,
}
use ritesmith.Workflow.Validator.Splits.{
  data_strings, insert_sorted, sorted_set, join_ids, owners_of, join_kind_errors, owner_errors,
  route_errors, routing_errors, same_branch, sight_errors, all_sight_errors, with_branches,
  validate_split_join,
}
use ritesmith.Workflow.Validator.{
  is_hashable, body_of, id_errors, node_conditions, nodes_errors, both, loop_errors, then_check,
  then_on, layer2_errors, check_graph, validate_v2,
}
use ritesmith.Workflow.Validator.Total.{names_key, IsReturned, validate_v2-IsReturned}
use ritesmith.Workflow.Validator.Accepted.{
  Joined, nodes_of, entrypoint_of, validate_v2-closed, validate_v2-acyclic, validate_v2-Joined,
}

-- The program, for tests by evaluation.
program : Unit {0}
unfolding elem discard get lookup elements entries texts truthy enter go_on scan leave dfs collect
    edges enough expression_errors operator_errors text_field list_field or_end inner has_kind
    targets v2_successors ids_under node_ids newest find_under find_node successors_of successors
    detect_v2_cycles is_node only_nodes branches_of inside_edges members_of entry_sets map_keys
    entries_at entries_of split_entries branch_sets all_members validate_v2_node task_errors
    switch_errors split_errors join_node_errors sleep_errors data_strings insert_sorted sorted_set
    join_ids owners_of join_kind_errors owner_errors route_errors routing_errors same_branch
    sight_errors all_sight_errors with_branches validate_split_join is_hashable body_of names_key
    id_errors node_conditions nodes_errors both loop_errors then_check then_on layer2_errors
    check_graph validate_v2
program = tt

abbrev action : Value
action = obj (field "mode" (text "sync") end)

abbrev task : String → String → Value
task nid next = obj (
    field "id" (text nid)
      (field "kind" (text "task") (field "action" action (field "next" (text next) end))))

abbrev workflow : Items → Value
workflow nodes = obj (field "entrypoint" (text "a") (field "nodes" (arr nodes) end))

-- A split into two tasks and its join.
abbrev split_flow : Value
split_flow = workflow (
    cons
      (obj (
        field "id" (text "a") (
          field "kind" (text "split") (
            field "branches" (arr (cons (text "b") (cons (text "c") nil)))
              (field "join" (text "j") end)))))
      (cons (task "b" "end") (
        cons (task "c" "end") (
          cons
            (obj (field "id" (text "j") (field "kind" (text "join") (field "next" (text "d") end))))
            (cons (task "d" "end") nil)))))

abbrev cyclic_flow : Value
cyclic_flow = workflow (cons (task "a" "b") (cons (task "b" "a") nil))

abbrev no_refs : List String → List String
no_refs _ = []

split_flow-accepted : validate_v2 no_refs no_refs [] split_flow ≡ some []
unfolding program
split_flow-accepted = refl

cyclic_flow-refused : validate_v2 no_refs no_refs [] cyclic_flow ≡ some (cycle_detected ∷ [])
unfolding program
cyclic_flow-refused = refl

dangling-refused :
    validate_v2 no_refs no_refs [] (workflow (cons (task "a" "b") nil))
    ≡ some (unknown_next "a" "b" ∷ [])
unfolding program
dangling-refused = refl

branch_sets-split_flow :
    branch_sets (nodes_of split_flow) ≡ some (("b", "b" ∷ []) ∷ ("c", "c" ∷ []) ∷ [])
unfolding program
branch_sets-split_flow = refl

-- A split that names its own join among its branches is let through.
abbrev own_join_flow : Value
own_join_flow = workflow (
    cons
      (obj (
        field "id" (text "a") (
          field "kind" (text "split") (
            field "branches" (arr (cons (text "b") (cons (text "j") nil)))
              (field "join" (text "j") end)))))
      (cons (task "b" "end") (
        cons
          (obj (field "id" (text "j") (field "kind" (text "join") (field "next" (text "end") end))))
          nil)))

own_join_flow-accepted : validate_v2 no_refs no_refs [] own_join_flow ≡ some []
unfolding program
own_join_flow-accepted = refl

validate_v2-acyclic_example :
    ¬ HasCycle (nodes_of split_flow) (node_ids (nodes_of split_flow)) (entrypoint_of split_flow)
validate_v2-acyclic_example =
    validate_v2-acyclic no_refs no_refs [] split_flow split_flow-accepted no_bound
  where
    no_bound :
        (get "max_iterations" split_flow ≡ none) ⊎ (get "max_iterations" split_flow ≡ some null)
    no_bound = unfold get lookup in inl refl

d_follows : elem "d" (successors (nodes_of split_flow) "j") ≡ true
unfolding program
d_follows = refl

validate_v2-closed_example : elem "d" (node_ids (nodes_of split_flow)) ≡ true
validate_v2-closed_example =
    validate_v2-closed no_refs no_refs [] split_flow split_flow-accepted "j" "d" d_follows

validate_v2-Joined_example : Joined (nodes_of split_flow)
validate_v2-Joined_example = validate_v2-Joined no_refs no_refs [] split_flow split_flow-accepted

-- A task that asks for a capability.
abbrev asking : Value → Value
asking name = workflow (
    cons
      (obj (
        field "id" (text "a") (
          field "kind" (text "task") (
            field "next" (text "end") (
              field "action"
                (obj (
                  field "mode" (text "sync") (
                    field "request"
                      (obj (field "body" (obj (field "capability_name" name end)) end)) end)))
                end)))))
      nil)

-- A name that is no text is unknown, and a list for a name is an exception.
asking-number :
    validate_v2 no_refs no_refs ("mail" ∷ []) (asking (int (pos 1)))
    ≡ some (unknown_capability "a" (int (pos 1)) ∷ [])
unfolding program
asking-number = refl

asking-list : validate_v2 no_refs no_refs ("mail" ∷ []) (asking (arr (cons null nil))) ≡ none
unfolding program
asking-list = refl

validate_v2-IsReturned_example :
    IsReturned (validate_v2 no_refs no_refs ("mail" ∷ []) (asking (text "post")))
validate_v2-IsReturned_example =
    validate_v2-IsReturned no_refs no_refs ("mail" ∷ []) (asking (text "post")) names
  where
    names : All (λ n. names_key n ≡ true) (nodes_of (asking (text "post")))
    names = unfold program in (refl, tt)

detect_v2_cycles-decides_example :
    (b : Bool) × (detect_v2_cycles (nodes_of cyclic_flow) "a" ("a" ∷ "b" ∷ []) ≡ some b)
    × ((b ≡ true)
        ↔ (elem "a" ("a" ∷ "b" ∷ []) ≡ true) × HasCycle (nodes_of cyclic_flow) ("a" ∷ "b" ∷ []) "a")
detect_v2_cycles-decides_example =
    detect_v2_cycles-decides (nodes_of cyclic_flow) "a" ("a" ∷ "b" ∷ [])

branch_sets-Covers_example :
    (sets : Branches) × (branch_sets (nodes_of split_flow) ≡ some sets)
    × ((v : String) → (elem v (all_members sets) ≡ true) ↔ InSplit (nodes_of split_flow) v)
branch_sets-Covers_example = branch_sets-Covers (nodes_of split_flow)

abbrev condition : Value
condition =
    obj (field ">=" (arr (cons (int (pos 3)) (cons (obj (field "var" (text "x") end)) nil))) end)

expression_errors_iff_example : (expression_errors condition ≡ []) ↔ WellFormed condition
expression_errors_iff_example = expression_errors_iff condition
