-- ===== src/Workflow/Validator.antt =====
-- `WorkflowValidator` of workflows/validator.py for the v2 format, after the shape check. The
-- regular expressions are arguments: `node_refs` finds the ids behind `nodes.` in the texts of a
-- node (`_NODE_REF.findall`), `template_refs` those in the templates of a body.
pub mod Node
pub mod Splits
pub mod Total
pub mod Targets
pub mod Accepted
use ritesmith.Prelude.{
  ℕ, zero, suc, String, Bool, true, false, not, ◌&&◌, ◌||◌, Option, none, some, List, [], ◌∷◌, ◌++◌,
  ◌==◌, elem, length, ltb, nat_eq, present, text_or, if◌then◌else◌,
}
use ritesmith.Json.{
  ℤ, pos, negsuc, Value, Items, Fields, null, boolean, int, decimal, text, arr, obj, end, get,
  elements, entries, lookup, is_truthy, truthy, as_text, as_list, texts,
}
use ritesmith.Workflow.Problems.{
  Problem, node_without_id, entrypoint_required, duplicate_id, unknown_entrypoint,
  bad_max_iterations, cycle_detected, unknown_capability, undefined_template_node,
}
use ritesmith.Workflow.Shape.{native_shape_errors}
use ritesmith.Workflow.Graph.{text_field, list_field, has_kind, node_ids}
use ritesmith.Workflow.Cycles.{detect_v2_cycles}
use ritesmith.Workflow.Expressions.{expression_errors}
use ritesmith.Workflow.Validator.Node.{validate_v2_node, object_or_empty, object_at}
use ritesmith.Workflow.Validator.Splits.{validate_split_join, data_strings}

-- The loop over the ids: `seen` is `node_ids` so far.
unfoldable pub id_errors : List String → List Value → List Problem
unfolding text_field
id_errors seen [] = []
id_errors seen (n ∷ ns) =
    let nid = text_or (text_field "id" n) "" in
    let anonymous = node_without_id ∷ id_errors seen ns in
    let named = id_errors (nid ∷ seen) ns in
    if nid == "" then anonymous else if elem nid seen then duplicate_id nid ∷ named else named

entrypoint_errors : String → List String → List Problem
entrypoint_errors entrypoint ids =
    if entrypoint == ""
    then entrypoint_required ∷ []
    else if not (elem entrypoint ids) && not (entrypoint == "end")
    then unknown_entrypoint entrypoint ∷ []
    else []

optional_errors : Option Value → List Problem
unfolding expression_errors
optional_errors none = []
optional_errors (some v) = expression_errors v

condition_errors : List Value → List Problem
unfolding optional_errors get
condition_errors [] = []
condition_errors (c ∷ cs) = optional_errors (get "when" c) ++ condition_errors cs

-- The conditions of a node: of a switch's cases, and of a callback.
unfoldable pub node_conditions : Value → List Problem
unfolding condition_errors optional_errors object_or_empty object_at get list_field has_kind
node_conditions node =
    let callback = object_at "callback" (object_or_empty (get "action" node)) in
    (if has_kind "switch" node then condition_errors (list_field "cases" node) else [])
    ++ optional_errors (get "successWhen" callback)
    ++ optional_errors (get "failureWhen" callback)

unfoldable pub nodes_errors : List Value → List String → List Problem
nodes_errors [] ids = []
nodes_errors (n ∷ ns) ids = validate_v2_node n ids ++ node_conditions n ++ nodes_errors ns ids

-- `isinstance(max_iterations, int)` and at least 1; a Boolean is an `int`.
positive_int : Value → Bool
positive_int (int (pos (suc n))) = true
positive_int (boolean b) = b
positive_int _ = false

-- Two results in a row; `none` is an exception, or a fuel that ran out.
unfoldable pub both : Option (List Problem) → Option (List Problem) → Option (List Problem)
both (some ps) (some qs) = some (ps ++ qs)
both _ _ = none

cycle_report : Option Bool → Option (List Problem)
cycle_report none = none
cycle_report (some true) = some (cycle_detected ∷ [])
cycle_report (some false) = some []

-- A workflow bounds its loops by `max_iterations`, or has none.
unfoldable pub loop_errors :
    Option Value → List Value → String → List String → Option (List Problem)
unfolding positive_int cycle_report
loop_errors (some null) nodes entrypoint ids = cycle_report (detect_v2_cycles nodes entrypoint ids)
loop_errors none nodes entrypoint ids = cycle_report (detect_v2_cycles nodes entrypoint ids)
loop_errors (some v) nodes entrypoint ids =
    some (if positive_int v then [] else bad_max_iterations ∷ [])

-- `if not errors: errors.extend(more)`
unfoldable pub then_check : List Problem → Option (List Problem) → Option (List Problem)
then_check [] more = more
then_check (p ∷ ps) more = some (p ∷ ps)

unfoldable pub then_on : Option (List Problem) → Option (List Problem) → Option (List Problem)
unfolding then_check
then_on none more = none
then_on (some ps) more = then_check ps more

undefined_refs : String → List String → List String → List Problem
undefined_refs nid ids [] = []
undefined_refs nid ids (r ∷ rs) =
    let rest = undefined_refs nid ids rs in
    if elem r ids then rest else undefined_template_node nid r ∷ rest

unfoldable pub body_of : Value → Value
body_of node =
    object_or_empty (get "body" (object_at "request" (object_or_empty (get "action" node))))

-- A list or a dictionary cannot be looked up in a dictionary: TypeError.
unfoldable pub is_hashable : Value → Bool
is_hashable (arr _) = false
is_hashable (obj _) = false
is_hashable _ = true

-- The names in the registry are texts.
registered : List String → Value → Bool
registered registry (text c) = elem c registry
registered registry _ = false

-- `cap_name and cap_name not in self.capability_registry`; `none` is the TypeError.
capability_errors : String → List String → Option Value → Option (List Problem)
unfolding registered
capability_errors nid registry none = some []
capability_errors nid registry (some v) =
    if not (truthy v)
    then some []
    else if not (is_hashable v)
    then none
    else some (if registered registry v then [] else unknown_capability nid v ∷ [])

module _ (node_refs template_refs : List String → List String) (registry : List String) where
  unfoldable pub layer2_errors : List String → List Value → Option (List Problem)
  unfolding undefined_refs body_of capability_errors
  layer2_errors ids [] = some []
  layer2_errors ids (n ∷ ns) =
      let rest = layer2_errors ids ns in
      if has_kind "task" n
      then both
          (capability_errors (text_or (text_field "id" n) "<unknown>") registry
            (get "capability_name" (body_of n)))
          (both
            (some (
              undefined_refs (text_or (text_field "id" n) "<unknown>") ids
                (template_refs (data_strings (body_of n)))))
            rest)
      else rest

  -- An empty registry skips the second layer.
  layer2_v2 : List Value → List String → Option (List Problem)
  unfolding layer2_errors
  layer2_v2 nodes ids = elim registry [ [] ↦ some [] | _ ∷ _ ↦ layer2_errors ids nodes ]

  -- What stands after the early return.
  unfoldable pub check_graph :
      Option Value → String → List Value → List String → Option (List Problem)
  unfolding layer2_v2
  check_graph max_iterations entrypoint nodes ids =
      then_on (then_check (nodes_errors nodes ids) (validate_split_join node_refs nodes))
        (both (loop_errors max_iterations nodes entrypoint ids) (layer2_v2 nodes ids))

  unfoldable pub validate_v2 : Value → Option (List Problem)
  unfolding entrypoint_errors
  validate_v2 definition =
      let nodes = list_field "nodes" definition in
      let ids = node_ids nodes in
      let entrypoint = text_or (text_field "entrypoint" definition) "" in
      then_check (id_errors [] nodes ++ entrypoint_errors entrypoint ids)
        (check_graph (get "max_iterations" definition) entrypoint nodes ids)
