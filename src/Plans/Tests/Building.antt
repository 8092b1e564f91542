-- ===== src/Plans/Tests/Building.antt =====
-- Plans that are built, saved and replanned at concrete requests (core/planning.py).
use ritesmith.Prelude.{◌≤◌, String, ◌≡◌, refl, true, false, Option, none, some, [], ◌∷◌, ◌-◌, ◌==◌}
use ritesmith.Json.{lookup}
use ritesmith.Registry.{
  Db, create_artifact, add_artifact, add_version, new_artifact, version_row, expiry,
}
use ritesmith.Execution.Script.{log_event}
use ritesmith.Execution.Delegated.{set_field}
use ritesmith.Plans.{
  approved, failed, superseded, Plan, State, find_plan, write_plan, get_orm, assert_transition,
}
use ritesmith.Plans.Lifecycle.{store_plan, log_plan}
use ritesmith.Plans.Build.{
  Draft, handle_all, handle, note, note_handled, note_decision, plan_request, plan_status,
  ordered_types,
}
use ritesmith.Plans.Persist.{
  Saved, save_all, save, save_content, bound_content, stored, content_of, description_of,
}
use ritesmith.Plans.Created.{
  CreatePlanRequest, GenerationMode, saves, add_plan, rename_steps, plan_row, finish_build,
  saved_artifacts, build_with, Planner, Built, build_plan,
}
use ritesmith.Plans.Built.{BuiltFrom, build_plan-Built}
use ritesmith.Plans.Replans.{
  Replanned, replanned, limit_reached, next_count, replan_count, new_context, fields_or, built_or,
  successor, superseded_by, replan_row, replan,
}
use ritesmith.Plans.Attempts.{replan-Superseded, replan-Attempts, Counts, over, again}
use ritesmith.Plans.Tests.{settings, plan_with, service, state, program}

abbrev draft : Draft
draft = record {
  artifact_id = "draft";
  name = "n";
  artifact_type = "luau_script";
  is_draft = true;
  content = "f";
  description = none;
  tags = none;
  input_schema = none;
  output_schema = none;
  risk_level = some "low";
  metadata = none;
  runtime_profile = none;
}

abbrev planner : Planner
planner = record {
  analyse = λ req. some (record { artifact_types = "lua_script" ∷ []; summary = some "report" });
  generate_script = λ req t. some (record { artifact = draft; valid = some true; reused = false });
  generate_workflow = λ req scripts. none;
  loads = λ s. none;
  dumps = λ v. "";
  str = λ n. "1";
  script_type = "luau_script";
  sha256 = λ s. s;
  artifact_ttl_days = 30;
}

abbrev no_db : Db
no_db = record { artifacts = []; versions = [] }

abbrev kept_one : Saved
unfolding create_artifact new_artifact version_row add_artifact add_version expiry content_of
    description_of
kept_one = record {
  db = record {
    artifacts =
        new_artifact (λ s. s) 100 "new" 30 (description_of "p" draft) (content_of "f" draft) ∷ [];
    versions = version_row "new" 1 (content_of "f" draft) ∷ [];
  };
  ids = ("draft", "new") ∷ [];
  artifact_ids = "new" ∷ [];
}

abbrev wish : CreatePlanRequest
wish = record {
  intent = "report";
  requested_artifact_types = [];
  mode = GenerationMode.persist;
  require_approval = false;
  context = none;
  callback_url = none;
}

abbrev or_nothing : Option Built → Built
or_nothing (some b) = b
or_nothing none = record {
  status = failed;
  steps = [];
  decisions = [];
  artifact_ids = [];
  state = state;
}

building : Unit {0}
unfolding program build_plan build_with saved_artifacts finish_build handle_all ordered_types handle
    note_handled note plan_request note_decision plan_row add_plan rename_steps log_plan log_event
    plan_status saves save_all save save_content bound_content stored create_artifact new_artifact
    version_row add_artifact add_version expiry content_of description_of
building = tt

abbrev empty : State
empty = record { plans = []; service = record service { db = no_db }; notices = [] }

abbrev built : Built
built = or_nothing (build_plan planner settings.policy settings "p" (λ i. "new") 100 wish empty)

build_plan-wish :
    build_plan planner settings.policy settings "p" (λ i. "new") 100 wish empty ≡ some built
unfolding building
build_plan-wish = refl

-- A script of low risk is approved at once, and stored.
built-approved : (built.status ≡ approved) × (built.artifact_ids ≡ "new" ∷ [])
unfolding building
built-approved = (refl, refl)

build_plan-Built_example :
    BuiltFrom planner settings.policy settings "p" (λ i. "new") 100 wish empty built
build_plan-Built_example =
    build_plan-Built planner settings.policy settings "p" (λ i. "new") 100 wish empty built
      build_plan-wish

abbrev from : Replanned → Built
from (replanned b) = b
from _ = or_nothing none

abbrev second : Built
second = from (replan planner settings.policy settings 2 "g" (λ i. "new") 100 "f" "timeout" state)

replanning : Unit {0}
unfolding building replan replan_row superseded_by successor get_orm assert_transition store_plan
    write_plan built_or limit_reached replan_count new_context next_count fields_or set_field lookup
replanning = tt

replan-second :
    replan planner settings.policy settings 2 "g" (λ i. "new") 100 "f" "timeout" state
    ≡ replanned second
unfolding replanning
replan-second = refl

replan-Superseded_example :
    (old new : Plan) × (find_plan "f" state.plans ≡ some old)
    × (old.status ≡ failed)
    × (find_plan "f" second.state.plans
        ≡ some (record old { status = superseded; updated_at = 100 }))
    × (find_plan "g" state.plans ≡ none)
    × (find_plan "g" second.state.plans ≡ some new)
    × (new.status ≡ second.status)
    × (new.artifact_ids ≡ second.artifact_ids)
    × (new.intent ≡ old.intent)
    × (new.context ≡ some (new_context "f" "timeout" old.context))
    × ((j : String)
        → ("f" == j) ≡ false
        → ("g" == j) ≡ false
        → find_plan j second.state.plans ≡ find_plan j state.plans)
replan-Superseded_example =
    replan-Superseded planner settings.policy settings 2 "g" (λ i. "new") 100 "f" "timeout" state
      second replan-second

count-f : Counts "f" state 0
unfolding find_plan replan_count
count-f = (plan_with "f" failed, refl, refl)

replan-Attempts_example : 1 ≤ 2 - 0
replan-Attempts_example =
    replan-Attempts planner settings.policy settings 2 1 0 "f" state count-f
      (again "g" (λ i. "new") 100 "timeout" second second.state replan-second refl over)
