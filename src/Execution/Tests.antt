-- ===== src/Execution/Tests.antt =====
-- A request to run a script of low risk, and the theorems at it.
use ritesmith.Prelude.{
  String, ◌≡◌, refl, ◌⊎◌, true, false, none, some, [], ◌∷◌, text_given, elem, arith,
}
use ritesmith.Json.{boolean, end, field, lookup, text}
use ritesmith.Registry.{
  Artifact, ArtifactVersion, find_artifact, find_version, get_artifact, get_artifact_with_version,
}
use ritesmith.Policy.{
  Decision, evaluate, effective_risk, decide_on, index_of, max_risk, profile_risk_floor,
}
use ritesmith.Execution.{
  Execution, succeeded, waiting, CreateExecutionRequest, Settings, returns, State, Environment,
  or_else, secret, issue_approval_token, is_comparable, verify_approval_token,
}
use ritesmith.Execution.Script.{log_event, finish, after_run, run_script, given_input, run_lua}
use ritesmith.Execution.Create.{
  done, Report, orm_to_schema, with_key, one_or_none, find_by_idempotency_key, metadata_of,
  text_or_none, policy_request, decision, profile_of, saved, new_execution, route, caught, start,
  readable, read_token, act_on, execute_new, create_new, existing, replay_or_create,
  create_execution,
}
use ritesmith.Execution.Gate.{finish_time, Permits}
use ritesmith.Execution.Replay.{
  Single, create_execution-Permits, create_execution-Settled, create_execution-replay,
  create_execution-Single,
}
use ritesmith.Execution.Floored.{create_execution-floored}

abbrev art : Artifact
art = record {
  artifact_id = "art";
  name = "n";
  artifact_type = "luau_script";
  current_version = 1;
  status = "active";
  description = none;
  usage_description = none;
  tags = none;
  content_hash = "h";
  generated_by_plan_id = none;
  created_at = 1;
  updated_at = 1;
  expires_at = none;
}

abbrev version_one : ArtifactVersion
version_one = record {
  artifact_id = "art";
  version = 1;
  content = "f";
  input_schema = none;
  output_schema = none;
  risk_level = some "low";
  requires_approval = false;
  metadata = none;
}

abbrev env : Environment
env = record {
  hmac = λ k m. m;
  ephemeral_secret = "k";
  str = λ n. "1";
  replace = λ a b s. s;
  json_loads = λ s. none;
  is_ascii = λ s. true;
  mentions_execute = λ v. false;
  execute = λ luau c i o p. returns (record { output = some i; error = none; timed_out = false });
  delegate = λ v i. returns "id";
  python_error = "error";
}

abbrev settings : Settings
settings = record {
  policy = record { allow_unapproved_low_risk = true; policy_default = "deny" };
  approval_secret = none;
  api_token = none;
  trama_token = none;
  public_url = none;
  workflow_delegation_enabled = false;
  workflow_engine_url = none;
  audited = false;
}

abbrev before : State
before = record {
  db = record { artifacts = art ∷ []; versions = version_one ∷ [] };
  executions = [];
  repair_in_flight = [];
  tasks = [];
  events = [];
}

abbrev request : CreateExecutionRequest
request = record {
  artifact_id = "art";
  version = none;
  input = none;
  runtime = none;
  dry_run = false;
  approval_token = none;
  idempotency_key = some "key";
  plan_id = none;
}

abbrev run : Execution
run = record {
  execution_id = "exec";
  artifact_id = "art";
  artifact_version = 1;
  plan_id = none;
  status = succeeded;
  runtime = "luau_script";
  input_json = none;
  output_json = some end;
  error_json = none;
  idempotency_key = some "key";
  delegated_execution_id = none;
  dry_run = false;
  approval_token = none;
  started_at = some 100;
  finished_at = some 100;
  created_at = 100;
}

abbrev report : Report
unfolding orm_to_schema
report = orm_to_schema run

abbrev after : State
after = record before { executions = run ∷ [] }

program : Unit {0}
unfolding find_artifact find_version get_artifact get_artifact_with_version evaluate effective_risk
    decide_on or_else secret issue_approval_token is_comparable readable read_token
    verify_approval_token log_event finish after_run run_script given_input run_lua orm_to_schema
    with_key one_or_none find_by_idempotency_key metadata_of text_or_none policy_request decision
    profile_of saved new_execution route caught start act_on execute_new create_new existing
    replay_or_create create_execution lookup
program = tt

existing-request : existing request before ≡ done none
unfolding program
existing-request = refl

create-request :
    create_execution env settings "exec" "trama" 100 request before ≡ done (report, after)
unfolding program
create-request = refl

Single-before : (key : String) → text_given (some key) ≡ true → Single key before
unfolding program
Single-before key given = omega arith

create_execution-Permits_example :
    (a : Artifact) × (v : ArtifactVersion) × (d : Decision) × (get_artifact_with_version "art" none
        before.db
      ≡ some (a, v))
    × (decision settings a v ≡ done d)
    × (Permits env settings "exec" "trama" 100 d
          (verify_approval_token env settings "art" v.version none)
        ⊎ ((report.started_at ≡ none)
            × (report.output ≡ none)
            × (report.delegated_execution_id ≡ none)
            × (after.db ≡ before.db)
            × (after.tasks ≡ before.tasks)
            × (after.repair_in_flight ≡ before.repair_in_flight)))
create_execution-Permits_example =
    create_execution-Permits env settings "exec" "trama" 100 request before after report
      existing-request create-request

create_execution-Settled_example : finish_time 100 report.status ≡ some report.finished_at
create_execution-Settled_example =
    create_execution-Settled env settings "exec" "trama" 100 request before after report
      existing-request create-request

create_execution-replay_example :
    create_execution env settings "other" "trama" 900 request after ≡ done (report, after)
create_execution-replay_example =
    create_execution-replay env env settings settings "exec" "trama" "other" "trama" 100 900 request
      request before after report "key" refl refl refl existing-request create-request

create_execution-Single_example : Single "key" after
create_execution-Single_example =
    create_execution-Single env settings "exec" "trama" 100 request before after report
      Single-before create-request "key" refl

-- The same script, made by hand under a profile with a floor.
abbrev by_hand : ArtifactVersion
by_hand = record version_one {
  metadata =
      some (field "runtime_profile" (text "side_effects") (field "source" (text "manual") end));
}

abbrev guarded : State
guarded = record before { db = record { artifacts = art ∷ []; versions = by_hand ∷ [] } }

abbrev held : Execution
held = record run {
  status = waiting;
  output_json = none;
  error_json = some (
      field "reason" (text "High risk artifacts require approval before execution")
        (field "requires_approval" (boolean true) end));
  started_at = none;
  finished_at = none;
}

abbrev held_report : Report
unfolding orm_to_schema
held_report = orm_to_schema held

abbrev after_held : State
after_held = record guarded { executions = held ∷ [] }

floors : Unit {0}
unfolding program elem index_of max_risk profile_risk_floor
floors = tt

existing-guarded : existing request guarded ≡ done none
unfolding floors
existing-guarded = refl

found-guarded : get_artifact_with_version "art" none guarded.db ≡ some (art, by_hand)
unfolding floors
found-guarded = refl

profile-by_hand : lookup "runtime_profile" (metadata_of by_hand) ≡ some (text "side_effects")
unfolding floors
profile-by_hand = refl

source-by_hand : lookup "source" (metadata_of by_hand) ≡ some (text "manual")
unfolding floors
source-by_hand = refl

floor-by_hand : profile_risk_floor "side_effects" ≡ some "high"
unfolding floors
floor-by_hand = refl

refused-guarded : verify_approval_token env settings "art" 1 none ≡ false
unfolding floors
refused-guarded = refl

create-guarded :
    create_execution env settings "exec" "trama" 100 request guarded
    ≡ done (held_report, after_held)
unfolding floors
create-guarded = refl

create_execution-floored_example :
    (held_report.started_at ≡ none)
    × (after_held.db ≡ guarded.db)
    × (after_held.tasks ≡ guarded.tasks)
create_execution-floored_example =
    create_execution-floored env settings "exec" "trama" 100 request guarded after_held held_report
      art by_hand "side_effects" "high" existing-guarded found-guarded profile-by_hand
      source-by_hand floor-by_hand refused-guarded create-guarded
