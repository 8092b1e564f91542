-- ===== src/Workflow/Validator/Total.antt =====
-- When the v2 validation returns a list: no loop of it runs for ever, and which lookup can raise.
use ritesmith.Prelude.{
  String, ◌≡◌, refl, Bool, true, false, not, ◌||◌, Option, none, some, List, [], ◌∷◌, ◌++◌, All,
  Bool-cases, inl, inr, arith,
}
use ritesmith.Json.{Value, null, get, truthy}
use ritesmith.Workflow.Graph.{list_field, has_kind}
use ritesmith.Workflow.Problems.{Problem}
use ritesmith.Workflow.Cycles.{detect_v2_cycles}
use ritesmith.Workflow.Cycles.V2.{detect_v2_cycles-decides}
use ritesmith.Workflow.Branches.Members.{branch_sets-Covers}
use ritesmith.Workflow.Validator.Splits.{validate_split_join, with_branches}
use ritesmith.Workflow.Validator.{
  is_hashable, body_of, capability_errors, layer2_errors, layer2_v2, then_check, then_on, both,
  loop_errors, cycle_report, check_graph, validate_v2,
}

-- A list is returned.
abbrev pub IsReturned : Option (List Problem) → Type 0
IsReturned o = (ps : List Problem) × (o ≡ some ps)

then_check-IsReturned :
    (ps : List Problem) (o : Option (List Problem)) → IsReturned o → IsReturned (then_check ps o)
unfolding then_check
then_check-IsReturned [] o r = r
then_check-IsReturned (p ∷ ps) o r = (p ∷ ps, refl)

then_on-IsReturned :
    (m o : Option (List Problem)) → IsReturned m → IsReturned o → IsReturned (then_on m o)
unfolding then_on
then_on-IsReturned m o (ps, e) r = rw e (then_check-IsReturned ps o r)

both-IsReturned :
    (m o : Option (List Problem)) → IsReturned m → IsReturned o → IsReturned (both m o)
unfolding both
both-IsReturned m o (ps, e) (qs, e') = (ps ++ qs, rw (e, e'))

cycle_report-IsReturned : (b : Bool) → IsReturned (cycle_report (some b))
unfolding cycle_report
cycle_report-IsReturned true = (_, refl)
cycle_report-IsReturned false = (_, refl)

searched :
    (nodes : List Value) (entrypoint : String) (ids : List String)
    → IsReturned (cycle_report (detect_v2_cycles nodes entrypoint ids))
searched nodes entrypoint ids =
    let (b, e, _) = detect_v2_cycles-decides nodes entrypoint ids in
    rw e (cycle_report-IsReturned b)

loop_errors-IsReturned :
    (v : Option Value) (nodes : List Value) (entrypoint : String) (ids : List String)
    → IsReturned (loop_errors v nodes entrypoint ids)
unfolding loop_errors
loop_errors-IsReturned none nodes entrypoint ids = searched nodes entrypoint ids
loop_errors-IsReturned (some null) nodes entrypoint ids = searched nodes entrypoint ids
loop_errors-IsReturned (some _) nodes entrypoint ids = (_, refl)

-- The name of the capability that a node asks for is absent, false in a test, or a key that a
-- dictionary can be asked for.
is_key : Option Value → Bool
is_key none = true
is_key (some v) = not (truthy v) || is_hashable v

unfoldable pub names_key : Value → Bool
unfolding is_key body_of
names_key n = is_key (get "capability_name" (body_of n))

capability_errors-IsReturned :
    (nid : String) (registry : List String) (name : Option Value)
    → is_key name ≡ true
    → IsReturned (capability_errors nid registry name)
unfolding capability_errors is_key
capability_errors-IsReturned nid registry none h = (_, refl)
capability_errors-IsReturned nid registry (some v) h = elim (Bool-cases (truthy v)) [
  | inl on ↦ elim (Bool-cases (is_hashable v)) [
    | inl key ↦ rw (on, key) (_, refl)
    | inr no_key ↦ absurd (ground (arith, on, no_key, h))
  ]
  | inr off ↦ rw off (_, refl)
]

module _ (node_refs template_refs : List String → List String) (registry : List String) where
  validate_split_join-IsReturned :
      (nodes : List Value) → IsReturned (validate_split_join node_refs nodes)
  unfolding validate_split_join
  validate_split_join-IsReturned nodes =
      let (sets, e, _) = branch_sets-Covers nodes in rw (e, with_branches) (_, refl)

  layer2_errors-IsReturned :
      (ids : List String) (nodes : List Value)
      → All (λ n. names_key n ≡ true) nodes
      → IsReturned (layer2_errors node_refs template_refs registry ids nodes)
  unfolding layer2_errors names_key
  layer2_errors-IsReturned ids [] h = (_, refl)
  layer2_errors-IsReturned ids (n ∷ ns) h = elim (Bool-cases (has_kind "task" n)) [
    | inl on ↦ rw on (
        both-IsReturned _ _
          (capability_errors-IsReturned _ registry (get "capability_name" (body_of n)) h.0)
          (both-IsReturned _ _ (_, refl) (layer2_errors-IsReturned ids ns h.1)))
    | inr off ↦ rw off (layer2_errors-IsReturned ids ns h.1)
  ]

layer2_v2-IsReturned :
    (node_refs template_refs : List String → List String) (registry ids : List String)
    (nodes : List Value)
    → All (λ n. names_key n ≡ true) nodes
    → IsReturned (layer2_v2 node_refs template_refs registry nodes ids)
unfolding layer2_v2
layer2_v2-IsReturned node_refs template_refs [] ids nodes h = (_, refl)
layer2_v2-IsReturned node_refs template_refs (r ∷ rs) ids nodes h =
    layer2_errors-IsReturned node_refs template_refs (r ∷ rs) ids nodes h

-- The v2 validation returns a list of problems for every definition in which no node names a list
-- or a dictionary as its capability: no loop of it runs for ever, and no lookup raises.
pub validate_v2-IsReturned :
    (node_refs template_refs : List String → List String) (registry : List String)
    (definition : Value)
    → All (λ n. names_key n ≡ true) (list_field "nodes" definition)
    → IsReturned (validate_v2 node_refs template_refs registry definition)
unfolding validate_v2 check_graph
validate_v2-IsReturned node_refs template_refs registry definition h = then_check-IsReturned _ _ (
    then_on-IsReturned _ _
      (then_check-IsReturned _ _
        (validate_split_join-IsReturned node_refs template_refs registry _))
      (both-IsReturned _ _ (loop_errors-IsReturned _ _ _ _)
        (layer2_v2-IsReturned node_refs template_refs registry _ _ h)))
