-- ===== src/Plans.antt =====
-- ritesmith/core/planning.py, and the routes of ritesmith/api/routes/plans.py and trama.py that act on a plan:
-- the life of a plan. The rows and the transitions stand here. The children hold the operations, the
-- building of a plan, the callback and the calls of a running workflow, and the theorems.
pub mod Lifecycle
pub mod Callback
pub mod Running
pub mod Board
pub mod Refined
pub mod Ends
pub mod Stopped
pub mod Held
pub mod Build
pub mod Persist
pub mod Created
pub mod Built
pub mod Decided
pub mod Stored
pub mod Replans
pub mod Attempts
mod Tests
use ritesmith.Prelude.{
  ℕ, String, Bool, true, false, Option, none, some, List, [], ◌∷◌, ◌==◌, if◌then◌else◌,
}
use ritesmith.Json.{Fields}
use ritesmith.Registry.{Result, ok, err, not_found, invalid_transition}
use ritesmith.Execution
use ritesmith.Execution.{Execution}

pub data PlanStatus : Type 0 where
  draft proposed validating blocked approved rejected persisted executing completed failed cancelled
        superseded :
      PlanStatus

-- A row of the table `plans`. The steps, the constraints and the aggregated decision are written once and
-- read back by no operation of these modules.
pub record Plan : Type 0 where
  pub plan_id : String
  pub status : PlanStatus
  pub intent : String
  pub summary : Option String
  pub context : Option Fields
  pub artifact_ids : List String
  pub callback_url : Option String
  pub created_at : ℕ
  pub updated_at : ℕ
  pub approved_at : Option ℕ

-- What `_finish` asks `_fire_callback` to send: the plan, its status and summary, and the last execution.
pub record Notice : Type 0 where
  pub url : String
  pub plan_id : String
  pub status : PlanStatus
  pub summary : Option String
  pub last_execution : Option Execution

-- The table of plans, the state of the execution service, and the callbacks that were started.
pub record State : Type 0 where
  pub plans : List Plan
  pub service : Execution.State
  pub notices : List Notice

unfoldable pub status_eq : PlanStatus → PlanStatus → Bool
status_eq draft draft = true
status_eq proposed proposed = true
status_eq validating validating = true
status_eq blocked blocked = true
status_eq approved approved = true
status_eq rejected rejected = true
status_eq persisted persisted = true
status_eq executing executing = true
status_eq completed completed = true
status_eq failed failed = true
status_eq cancelled cancelled = true
status_eq superseded superseded = true
status_eq _ _ = false

-- `target in _ALLOWED_TRANSITIONS.get(current, set())`
unfoldable pub allowed : PlanStatus → PlanStatus → Bool
allowed draft proposed = true
allowed draft blocked = true
allowed proposed approved = true
allowed proposed rejected = true
allowed proposed blocked = true
allowed proposed cancelled = true
allowed approved persisted = true
allowed approved executing = true
allowed approved completed = true
allowed approved failed = true
allowed approved cancelled = true
allowed persisted executing = true
allowed persisted completed = true
allowed persisted failed = true
allowed persisted cancelled = true
allowed executing completed = true
allowed executing failed = true
allowed executing cancelled = true
allowed failed superseded = true
allowed _ _ = false

-- A row by its primary key.
unfoldable pub find_plan : String → List Plan → Option Plan
find_plan k [] = none
find_plan k (p ∷ rows) = if p.plan_id == k then some p else find_plan k rows

-- The assignment of new values to the row with a key.
unfoldable pub write_plan : String → (Plan → Plan) → List Plan → List Plan
write_plan k f [] = []
write_plan k f (p ∷ rows) = if p.plan_id == k then f p ∷ rows else p ∷ write_plan k f rows

unfoldable pub get_orm : String → State → Result Plan
get_orm plan_id s = elim (find_plan plan_id s.plans) [ none ↦ err not_found | some p ↦ ok p ]

-- `_assert_transition`
unfoldable pub assert_transition : PlanStatus → PlanStatus → Result (Unit {0})
unfolding allowed
assert_transition current target = if allowed current target then ok tt else err invalid_transition
