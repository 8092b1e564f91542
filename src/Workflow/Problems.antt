-- ===== src/Workflow/Problems.antt =====
-- The error messages of workflows/validator.py, a constructor for each message with what it names.
use ritesmith.Prelude.{ℕ, String, List}
use ritesmith.Json.{Value}

pub data Problem : Type 0 where
  -- native_shape_errors; the number is the index of the node
  definition_not_object nodes_not_list entrypoint_not_text : Problem
  node_not_object id_not_text kind_not_text branches_not_texts cases_not_list : ℕ → Problem
  field_not_text : ℕ → String → Problem
  case_not_object case_target_not_text : ℕ → ℕ → Problem
  action_not_object request_not_object url_not_template headers_not_templates : ℕ → String → Problem
  callback_not_object : ℕ → Problem
  -- _validate_v2
  node_without_id entrypoint_required : Problem
  duplicate_id unknown_entrypoint : String → Problem
  bad_max_iterations cycle_detected : Problem
  -- _validate_v2_node; the first text is the id of the node
  invalid_kind missing_action missing_next : String → Problem
  unknown_next : String → String → Problem
  missing_timeout missing_success_when : String → Problem
  missing_cases case_without_target case_without_when : String → Problem
  unknown_target : String → String → Problem
  missing_default : String → Problem
  unknown_default : String → String → Problem
  too_few_branches : String → Problem
  unknown_branch : String → String → Problem
  missing_join : String → Problem
  unknown_join : String → String → Problem
  missing_duration bad_duration : String → Problem
  -- expression_errors; the texts are the location
  operator_count unsupported_operator : Problem
  -- _validate_split_join
  join_is_no_join : String → Problem
  join_owners : String → List String → Problem
  routes_into_join : String → String → Problem
  sees_branch_node cannot_see_node : String → String → Problem
  -- _layer2_v2
  unknown_capability : String → Value → Problem
  undefined_template_node : String → String → Problem
