-- ===== src/Workflow/Validator/Node.antt =====
-- `_validate_v2_node` of workflows/validator.py: the checks of one node.
use ritesmith.Prelude.{
  suc, String, Bool, true, false, not, ◌&&◌, Option, none, some, List, [], ◌∷◌, ◌++◌, ◌==◌, elem,
  length, ltb, text_or, is_text, if◌then◌else◌,
}
use ritesmith.Json.{
  pos, Value, null, boolean, int, decimal, obj, end, get, is_truthy, truthy, texts,
}
use ritesmith.Workflow.Problems.{
  Problem, invalid_kind, missing_action, missing_next, unknown_next, missing_timeout,
  missing_success_when, missing_cases, case_without_target, case_without_when, unknown_target,
  missing_default, unknown_default, too_few_branches, unknown_branch, missing_join, unknown_join,
  missing_duration, bad_duration,
}
use ritesmith.Workflow.Graph.{text_field, list_field, has_kind}

-- `v or {}`
unfoldable pub object_or_empty : Option Value → Value
unfolding truthy
object_or_empty none = obj end
object_or_empty (some v) = if truthy v then v else obj end

-- `v.get(key, {})`
unfoldable pub object_at : String → Value → Value
unfolding get
object_at key v = elim (get key v) [ none ↦ obj end | some w ↦ w ]

-- A reference that must be given, and be "end" or a node.
unfoldable pub check_target :
    Option String → List String → Problem → (String → Problem) → List Problem
check_target none ids missing unknown = missing ∷ []
check_target (some t) ids missing unknown =
    if t == ""
    then missing ∷ []
    else if not (t == "end") && not (elem t ids)
    then unknown t ∷ []
    else []

check_callback : String → Value → List Problem
unfolding get
check_callback nid callback =
    (if is_truthy (get "timeoutMillis" callback) then [] else missing_timeout nid ∷ [])
    ++ (if is_truthy (get "successWhen" callback) then [] else missing_success_when nid ∷ [])

unfoldable pub task_errors : String → Value → List String → List Problem
unfolding check_target check_callback object_or_empty object_at get text_field
task_errors nid node ids =
    (if is_truthy (get "action" node) then [] else missing_action nid ∷ [])
    ++ check_target (text_field "next" node) ids (missing_next nid) (unknown_next nid)
    ++ (if is_text (text_field "mode" (object_or_empty (get "action" node))) "async-http-callback"
        then check_callback nid (object_at "callback" (object_or_empty (get "action" node)))
        else [])

unfoldable pub case_errors : String → List String → List Value → List Problem
unfolding check_target text_field get
case_errors nid ids [] = []
case_errors nid ids (c ∷ cs) =
    check_target (text_field "target" c) ids (case_without_target nid) (unknown_target nid)
    ++ (if is_truthy (get "when" c) then [] else case_without_when nid ∷ [])
    ++ case_errors nid ids cs

-- `not cases or not isinstance(cases, list)` is an empty list here.
unfoldable pub cases_errors : String → List String → List Value → List Problem
unfolding case_errors
cases_errors nid ids [] = missing_cases nid ∷ []
cases_errors nid ids (c ∷ cs) = case_errors nid ids (c ∷ cs)

unfoldable pub switch_errors : String → Value → List String → List Problem
unfolding cases_errors check_target text_field list_field
switch_errors nid node ids =
    cases_errors nid ids (list_field "cases" node)
    ++ check_target (text_field "default" node) ids (missing_default nid) (unknown_default nid)

unfoldable pub branch_errors : String → List String → List String → List Problem
branch_errors nid ids [] = []
branch_errors nid ids (b ∷ bs) =
    let rest = branch_errors nid ids bs in if elem b ids then rest else unknown_branch nid b ∷ rest

-- The join of a split must be a node; "end" is not one.
unfoldable pub join_errors : String → List String → Option String → List Problem
join_errors nid ids none = missing_join nid ∷ []
join_errors nid ids (some j) =
    if j == ""
    then missing_join nid ∷ []
    else if not (elem j ids)
    then unknown_join nid j ∷ []
    else []

unfoldable pub split_errors : String → Value → List String → List Problem
unfolding branch_errors join_errors list_field text_field texts
split_errors nid node ids =
    (if ltb (length (list_field "branches" node)) 2
      then too_few_branches nid ∷ []
      else branch_errors nid ids (texts (list_field "branches" node)))
    ++ join_errors nid ids (text_field "join" node)

-- The `next` of a join may be left out.
unfoldable pub optional_target : Option String → List String → (String → Problem) → List Problem
optional_target none ids unknown = []
optional_target (some t) ids unknown =
    if not (t == "") && not (t == "end") && not (elem t ids) then unknown t ∷ [] else []

unfoldable pub join_node_errors : String → Value → List String → List Problem
unfolding optional_target text_field
join_node_errors nid node ids = optional_target (text_field "next" node) ids (unknown_next nid)

-- `isinstance(v, (int, float)) and v > 0`; a Boolean is an `int`.
positive : Value → Bool
positive (int (pos (suc n))) = true
positive (decimal (pos (suc m)) e) = true
positive (boolean b) = b
positive _ = false

duration_errors : String → Option Value → List Problem
unfolding positive
duration_errors nid none = missing_duration nid ∷ []
duration_errors nid (some null) = missing_duration nid ∷ []
duration_errors nid (some v) = if positive v then [] else bad_duration nid ∷ []

unfoldable pub sleep_errors : String → Value → List String → List Problem
unfolding duration_errors check_target text_field get
sleep_errors nid node ids =
    duration_errors nid (get "durationSeconds" node)
    ++ check_target (text_field "next" node) ids (missing_next nid) (unknown_next nid)

unfoldable pub validate_v2_node : Value → List String → List Problem
validate_v2_node node ids =
    let nid = text_or (text_field "id" node) "<unknown>" in
    if has_kind "task" node
    then task_errors nid node ids
    else if has_kind "switch" node
    then switch_errors nid node ids
    else if has_kind "split" node
    then split_errors nid node ids
    else if has_kind "join" node
    then join_node_errors nid node ids
    else if has_kind "sleep" node
    then sleep_errors nid node ids
    else invalid_kind nid ∷ []
