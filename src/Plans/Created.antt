-- ===== src/Plans/Created.antt =====
-- PlanBuilder.build_plan of core/planning.py as a whole, the route create_plan of ritesmith/api/routes/plans.py, and replan.
-- The model's analysis and generation are parameters of the planner; an exception is none and leaves no new state.
use ritesmith.Prelude.{
  ℕ, String, Bool, true, false, Option, none, some, List, [], ◌∷◌, if◌then◌else◌,
}
use mathlib.Core.List.{reverse}
use ritesmith.Json.{Value, Fields}
use ritesmith.Policy
use ritesmith.Policy.{Decision}
use ritesmith.Execution
use ritesmith.Plans.{PlanStatus, approved, Plan, State, find_plan, status_eq}
use ritesmith.Plans.Lifecycle.{log_plan}
use ritesmith.Plans.Build.{
  Draft, Generated, Step, BuildProgress, ordered_types, handle_all, no_progress, plan_status,
}
use ritesmith.Plans.Persist.{Saved, save_all, unsaved, rename_step}

pub data GenerationMode : Type 0 where
  propose generate validate_only persist execute : GenerationMode

-- The request; `require_approval` is `constraints.require_approval_for_execution`, false where there are no constraints.
pub record CreatePlanRequest : Type 0 where
  pub intent : String
  pub requested_artifact_types : List String
  pub mode : GenerationMode
  pub require_approval : Bool
  pub context : Option Fields
  pub callback_url : Option String

pub record IntentAnalysis : Type 0 where
  pub artifact_types : List String
  pub summary : Option String

-- What `build_plan` calls: the analysis of the intent, the generation, `json`, `str` of a number, and the configured language.
pub record Planner : Type 0 where
  pub analyse : CreatePlanRequest → Option IntentAnalysis
  pub generate_script : CreatePlanRequest → String → Option Generated
  pub generate_workflow : CreatePlanRequest → List Draft → Option Generated
  pub loads : String → Option Value
  pub dumps : Value → String
  pub str : ℕ → String
  pub script_type : String
  pub sha256 : String → String
  pub artifact_ttl_days : ℕ

-- `mode in (persist, execute)`
unfoldable pub saves : GenerationMode → Bool
saves persist = true
saves execute = true
saves _ = false

-- The insertion of a plan; its key is unique.
unfoldable pub add_plan : Plan → State → Option State
add_plan p s = elim (find_plan p.plan_id s.plans) [
  | none ↦ some (record s { plans = p ∷ s.plans })
  | some _ ↦ none
]

-- A plan that was built: its steps and its artifact ids in order, and the state.
pub record Built : Type 0 where
  pub status : PlanStatus
  pub steps : List Step
  pub decisions : List Decision
  pub artifact_ids : List String
  pub state : State

unfoldable pub rename_steps : List (String × String) → List Step → List Step
unfolding rename_step
rename_steps ids [] = []
rename_steps ids (t ∷ ts) = rename_step ids t ∷ rename_steps ids ts

module _ (planner : Planner) (policy : Policy.Settings) (settings : Execution.Settings)
    (plan_id : String) (new_id : ℕ → String) (now : ℕ) where
  unfoldable pub plan_row : CreatePlanRequest → IntentAnalysis → PlanStatus → List String → Plan
  plan_row req analysis status artifact_ids = record {
    plan_id = plan_id;
    status = status;
    intent = req.intent;
    summary = analysis.summary;
    context = req.context;
    artifact_ids = artifact_ids;
    callback_url = req.callback_url;
    created_at = now;
    updated_at = now;
    approved_at = none;
  }

  -- The row and the audit event, over the registry that the saved artifacts are in.
  unfoldable pub finish_build :
      CreatePlanRequest → IntentAnalysis → BuildProgress → Option Saved → State → Option Built
  unfolding plan_row add_plan log_plan rename_steps
  finish_build req analysis p none s = none
  finish_build req analysis p (some saved) s =
      let status = plan_status p req.require_approval in
      let ids = reverse saved.artifact_ids in
      elim (add_plan (plan_row req analysis status ids)
        (record s { service = record s.service { db = saved.db } })) [
          | none ↦ none
          | some s' ↦ some (record {
            status = status;
            steps = rename_steps saved.ids (reverse p.steps);
            decisions = reverse p.decisions;
            artifact_ids = ids;
            state = log_plan settings "plan.created" plan_id s';
          })
        ]

  unfoldable pub saved_artifacts : CreatePlanRequest → BuildProgress → State → Option Saved
  unfolding saves unsaved
  saved_artifacts req p s =
      let kept =
        save_all planner.sha256 now planner.artifact_ttl_days planner.loads planner.dumps plan_id
          new_id 0 (reverse p.artifacts)
          (record { db = s.service.db; ids = []; artifact_ids = [] }) in
      if saves req.mode
      then kept
      else some (record {
        db = s.service.db;
        ids = [];
        artifact_ids = reverse (unsaved (reverse p.artifacts));
      })

  unfoldable pub build_with : CreatePlanRequest → State → Option IntentAnalysis → Option Built
  unfolding ordered_types
  build_with req s none = none
  build_with req s (some analysis) =
      elim (handle_all policy planner.str (planner.generate_script req)
        (planner.generate_workflow req) 0
        (ordered_types planner.script_type req.requested_artifact_types analysis.artifact_types)
        no_progress) [
          | none ↦ none
          | some p ↦ finish_build req analysis p (saved_artifacts req p s) s
        ]

  unfoldable pub build_plan : CreatePlanRequest → State → Option Built
  unfolding build_with
  build_plan req s = build_with req s (planner.analyse req)

  -- The artifacts that the route `create_plan` starts in the background.
  unfoldable pub started : CreatePlanRequest → Built → List String
  unfolding status_eq
  started req b = elim req.mode [
    | execute ↦ if status_eq b.status approved then b.artifact_ids else []
    | propose ↦ []
    | generate ↦ []
    | validate_only ↦ []
    | persist ↦ []
  ]

  unfoldable pub create_plan : CreatePlanRequest → State → Option (Built × List String)
  unfolding started
  create_plan req s = elim (build_plan req s) [ none ↦ none | some b ↦ some (b, started req b) ]
