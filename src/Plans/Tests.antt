-- ===== src/Plans/Tests.antt =====
-- A service with two plans, one of them held by an approval and one failed, and the theorems at it.
mod Building
use mathlib.Core.Option.{none-ne-some}
use ritesmith.Prelude.{
  ◌≤◌, String, ◌≡◌, refl, ap, ◌∙◌, Bool, true, false, Option, none, some, List, [], ◌∷◌, elem,
  arith, length, ltb, All, ◌-◌, ◌==◌,
}
use ritesmith.Json.{Value, obj, arr, text, Fields, end, field, nil, cons, lookup}
use ritesmith.Registry.{
  Artifact, ArtifactVersion, Db, find_artifact, find_version, get_artifact,
  get_artifact_with_version, create_artifact, add_artifact, add_version, new_artifact, version_row,
  expiry,
}
use ritesmith.Registry.Versions.{IsConsistent, current}
use ritesmith.Policy.{
  evaluate, effective_risk, decide_on, index_of, max_risk, profile_risk_floor, Decision,
  require_approval,
}
use ritesmith.Execution
use ritesmith.Execution.{Environment, Settings, Execution, waiting, returns}
use ritesmith.Execution.Script.{log_event}
use ritesmith.Execution.Delegated.{
  set_field, with_plan_header, url_of, bind_request, bind_action, bind_node, bind_nodes, bind_all,
  with_callback, bind_to_plan,
}
use ritesmith.Execution.Stamped.{request_in, plan_header, nodes_in}
use ritesmith.Execution.Create.{
  metadata_of, text_or_none, policy_request, decision, profile_of, done,
}
use ritesmith.Plans.{
  PlanStatus, approved, executing, failed, cancelled, completed, superseded, Plan, State, find_plan,
  write_plan, get_orm, assert_transition, allowed,
}
use ritesmith.Plans.Lifecycle.{store_plan, log_plan}
use ritesmith.Plans.Board.{Op, approve, cancel, complete, persist, Board, board, play, run, step}
use ritesmith.Plans.Refined.{run_refines}
use ritesmith.Plans.Ends.{run-ended, run-revived}
use ritesmith.Plans.Callback.{fire_callback, is_safe_callback_url, Retried, fire_callback-Retried}
use ritesmith.Plans.Running.{
  TramaExecuteRequest, http, trama_execute, auto_execute, continuation, continuation_input,
}
use ritesmith.Plans.Stopped.{bind_to_plan-cancelled}
use ritesmith.Plans.Held.{held, auto_execute-held}
use ritesmith.Plans.Build.{
  Draft, Step, BuildProgress, no_progress, handle_all, handle, note, note_handled, note_decision,
  plan_request, plan_status, ordered_types,
}
use ritesmith.Plans.Persist.{
  Saved, save_all, persisted_id, rename_step, save, save_content, bound_content, stored, content_of,
  description_of,
}
use ritesmith.Plans.Decided.{IsAllowed, verdict}
use ritesmith.Plans.Stored.{save_all-IsConsistent}
use ritesmith.Plans.Created.{
  CreatePlanRequest, GenerationMode, saves, add_plan, rename_steps, plan_row, finish_build,
  saved_artifacts, build_with, IntentAnalysis, Planner, Built, build_plan,
}
use ritesmith.Plans.Built.{build_plan-Built}
use ritesmith.Plans.Replans.{
  Replanned, replanned, limit_reached, next_count, replan_count, new_context, fields_or, built_or,
  successor, superseded_by, replan_row, replan,
}
use ritesmith.Plans.Attempts.{replan-Superseded, replan-Attempts, Counts, over, again}

abbrev art : Artifact
art = record {
  artifact_id = "art";
  name = "n";
  artifact_type = "luau_script";
  current_version = 1;
  status = "active";
  description = none;
  usage_description = none;
  tags = none;
  content_hash = "f";
  generated_by_plan_id = none;
  created_at = 1;
  updated_at = 1;
  expires_at = none;
}

abbrev version_one : ArtifactVersion
version_one = record {
  artifact_id = "art";
  version = 1;
  content = "f";
  input_schema = none;
  output_schema = none;
  risk_level = some "high";
  requires_approval = false;
  metadata = none;
}

abbrev env : Environment
env = record {
  hmac = λ k m. m;
  ephemeral_secret = "k";
  str = λ n. "1";
  replace = λ a b s. s;
  json_loads = λ s. none;
  is_ascii = λ s. true;
  mentions_execute = λ v. true;
  execute = λ luau c i o p. returns (record { output = some i; error = none; timed_out = false });
  delegate = λ v i. returns "id";
  python_error = "error";
}

abbrev settings : Settings
settings = record {
  policy = record { allow_unapproved_low_risk = true; policy_default = "deny" };
  approval_secret = none;
  api_token = none;
  trama_token = some "token";
  public_url = none;
  workflow_delegation_enabled = false;
  workflow_engine_url = none;
  audited = false;
}

abbrev plan_with : String → PlanStatus → Plan
plan_with k status = record {
  plan_id = k;
  status = status;
  intent = "report";
  summary = none;
  context = none;
  artifact_ids = "art" ∷ [];
  callback_url = some "https://example.org";
  created_at = 1;
  updated_at = 1;
  approved_at = none;
}

abbrev service : Execution.State
service = record {
  db = record { artifacts = art ∷ []; versions = version_one ∷ [] };
  executions = [];
  repair_in_flight = [];
  tasks = [];
  events = [];
}

abbrev state : State
state = record {
  plans = plan_with "a" approved ∷ plan_with "f" failed ∷ plan_with "c" cancelled ∷ [];
  service = service;
  notices = [];
}

abbrev requests : List Op
requests = complete "a" "completed" none ∷ approve "a" ∷ cancel "c" none ∷ []

played : (play requests (board state)).0 ≡ true ∷ false ∷ false ∷ []
unfolding play step allowed find_plan
played = refl

-- The plan is completed, and the two requests after that are refused.
run-requests : (run settings 100 requests state).0 ≡ true ∷ false ∷ false ∷ []
run-requests = ap (λ q. q.0) (run_refines settings 100 requests state) ∙ played

run_refines_example :
    let (granted, s') = run settings 100 requests state in
    ◌≡◌ {A = List Bool × Board} (granted, board s') (play requests (board state))
run_refines_example = run_refines settings 100 requests state

cancelled-state : board state "c" ≡ some cancelled
unfolding find_plan
cancelled-state = refl

run-ended_example : board ((run settings 100 requests state).1) "c" ≡ some cancelled
run-ended_example =
    run-ended settings 100 "c" requests cancelled state refl (refl, (refl, (refl, tt)))
      cancelled-state

run-revived_example :
    ((run settings 100 (persist "c" ∷ complete "c" "completed" none ∷ []) state).0
      ≡ true ∷ true ∷ [])
    × (board ((run settings 100 (persist "c" ∷ complete "c" "completed" none ∷ []) state).1) "c"
        ≡ some completed)
run-revived_example = run-revived settings 100 "c" cancelled state cancelled-state

-- A host in 172.16.0.0/12 that no prefix covers.
is_safe_callback_url-172 : is_safe_callback_url (λ u. none) "http://172.20.0.1/" [] ≡ true
unfolding is_safe_callback_url
is_safe_callback_url-172 = refl

fire_callback-Retried_example :
    let sent = fire_callback (λ u. none) (λ n. some 503) "https://example.org" [] in
    (length sent ≤ 3)
    × Retried sent
    × (is_safe_callback_url (λ u. none) "https://example.org" [] ≡ false → sent ≡ [])
fire_callback-Retried_example =
    fire_callback-Retried (λ u. none) (λ n. some 503) "https://example.org" []

abbrev call : TramaExecuteRequest
call = record { capability_name = some "notify"; artifact_id = none; input = none }

abbrev request_to : Fields → Value
request_to rest = obj (
    field "action"
      (obj (field "request" (obj (field "url" (text "https://rs/trama/execute") rest)) end)) end)

abbrev flow : Fields
flow = field "nodes" (arr (cons (request_to end) nil)) end

abbrev flow_sent : Fields
flow_sent =
    field "nodes"
      (arr (cons (request_to (field "headers" (obj (field "X-RS-Plan" (text "c") end)) end)) nil))
      end

bind_to_plan-flow : bind_to_plan env "c" none flow ≡ returns flow_sent
unfolding bind_to_plan bind_all bind_nodes bind_node bind_action bind_request with_plan_header
    with_callback set_field lookup
bind_to_plan-flow = refl

bind_to_plan-cancelled_example :
    let s' = (run settings 100 requests state).1 in
    All
      (λ node.
        (r : Fields)
        → request_in node ≡ some r
        → env.mentions_execute (url_of env "c" r) ≡ true
        → trama_execute env settings
            (λ n. none)
            "exec"
            "trama"
            200
            call
            "Bearer token"
            (plan_header r)
            s'
          ≡ (http 409, s'))
      (nodes_in flow_sent)
bind_to_plan-cancelled_example =
    bind_to_plan-cancelled env settings (λ n. none) "exec" "trama" 100 200 requests call "c" none
      flow flow_sent state bind_to_plan-flow refl refl cancelled-state (refl, (refl, (refl, tt)))

-- The policy asks for an approval of a script of high risk.
abbrev asked : Decision
asked = record {
  value = require_approval;
  reason = "High risk artifacts require approval before execution";
}

program : Unit {0}
unfolding find_artifact find_version get_artifact get_artifact_with_version evaluate effective_risk
    decide_on index_of max_risk profile_risk_floor metadata_of text_or_none policy_request decision
    profile_of elem lookup find_plan continuation continuation_input
program = tt

decision-asked : decision settings art version_one ≡ done asked
unfolding program
decision-asked = refl

found-art : get_artifact_with_version "art" none state.service.db ≡ some (art, version_one)
unfolding program
found-art = refl

found-plan : find_plan "a" state.plans ≡ some (plan_with "a" approved)
unfolding program
found-plan = refl

continuation_input-none :
    continuation_input (continuation (some (plan_with "a" approved))) ≡ some none
unfolding program
continuation_input-none = refl

auto_execute-held_example :
    let s' = auto_execute env settings (λ n. none) "exec" "trama" 100 (λ r. none) "art" "a" state in
    let e =
      held env settings "exec" "trama" 100 none "a" "art" state art version_one asked found-art
        decision-asked refl in
    (board s' "a" ≡ some executing)
    × (s'.service.executions ≡ e ∷ [])
    × (e.status ≡ waiting)
    × (e.started_at ≡ none)
    × (s'.service.tasks ≡ [])
auto_execute-held_example =
    auto_execute-held env settings "exec" "trama" 100 none "a" "art" state art version_one asked
      found-art decision-asked refl (λ n. none) (λ r. none) (plan_with "a" approved) found-plan refl
      continuation_input-none
