-- ===== src/Plans/Lifecycle.antt =====
-- The transitions of PlanBuilder: approve_plan, reject_plan, complete_plan, cancel_plan with _finish, the
-- bookkeeping of replan, and persist_artifacts. The clock is an argument. A raised error leaves the transaction
-- uncommitted, so there is no new state.
use Prim.Native.String.{◌++◌}
use ritesmith.Prelude.{
  ℕ, String, Option, none, some, List, [], ◌∷◌, ◌==◌, leb, text_given, text_or, is_text,
  if◌then◌else◌,
}
use ritesmith.Registry.{Result, ok, ◌>>=◌}
use ritesmith.Execution.{Execution, Settings}
use ritesmith.Execution.Script.{log_event}
use ritesmith.Plans.{
  PlanStatus, proposed, approved, rejected, persisted, completed, failed, cancelled, superseded,
  Plan, State, write_plan, get_orm, assert_transition,
}

-- `if x:` before an assignment: the old value stays where the new one is empty.
unfoldable pub summary_or : Option String → Option String → Option String
summary_or new old = if text_given new then new else old

unfoldable pub log_plan : Settings → String → String → State → State
unfolding log_event
log_plan settings event plan_id s = record s {
  service = log_event settings event plan_id s.service;
}

unfoldable pub store_plan : String → (Plan → Plan) → State → State
unfolding write_plan
store_plan plan_id f s = record s { plans = write_plan plan_id f s.plans }

-- `_executions`: the rows of a plan in the order of their creation, a stable sort.
unfoldable pub insert_by_time : Execution → List Execution → List Execution
insert_by_time e [] = e ∷ []
insert_by_time e (f ∷ rows) =
    let later = insert_by_time e rows in
    if leb e.created_at f.created_at then e ∷ f ∷ rows else f ∷ later

unfoldable pub executions_of : String → List Execution → List Execution
unfolding insert_by_time
executions_of plan_id [] = []
executions_of plan_id (e ∷ rows) =
    let rest = executions_of plan_id rows in
    if is_text e.plan_id plan_id then insert_by_time e rest else rest

unfoldable pub last : List Execution → Option Execution
last [] = none
last (e ∷ []) = some e
last (e ∷ f ∷ rows) = last (f ∷ rows)

unfoldable pub status_name : PlanStatus → String
status_name completed = "completed"
status_name failed = "failed"
status_name cancelled = "cancelled"
status_name PlanStatus.draft = "draft"
status_name proposed = "proposed"
status_name PlanStatus.validating = "validating"
status_name PlanStatus.blocked = "blocked"
status_name approved = "approved"
status_name rejected = "rejected"
status_name persisted = "persisted"
status_name PlanStatus.executing = "executing"
status_name superseded = "superseded"

unfoldable pub outcome_of : String → PlanStatus
outcome_of status = if status == "completed" then completed else failed

module _ (settings : Settings) (now : ℕ) where
  unfoldable pub approve_plan : String → State → Result State
  unfolding store_plan log_plan
  approve_plan plan_id s = do
    p ← get_orm plan_id s
    _ ← assert_transition p.status approved
    ok (
        log_plan settings "plan.approved" plan_id (
          store_plan plan_id
            (λ row. record row { status = approved; approved_at = some now; updated_at = now }) s))

  unfoldable pub reject_plan : String → State → Result State
  unfolding store_plan log_plan
  reject_plan plan_id s = do
    p ← get_orm plan_id s
    _ ← assert_transition p.status rejected
    ok (
        log_plan settings "plan.rejected" plan_id
          (store_plan plan_id (λ row. record row { status = rejected; updated_at = now }) s))

  -- The callback, where the plan has one.
  unfoldable pub notify : Plan → PlanStatus → Option String → State → State
  unfolding executions_of last
  notify p target summary s =
      if text_given p.callback_url
      then record s {
        notices =
            record {
              url = text_or p.callback_url "";
              plan_id = p.plan_id;
              status = target;
              summary = summary;
              last_execution = last (executions_of p.plan_id s.service.executions);
            }
            ∷ s.notices;
      }
      else s

  -- `_finish`
  unfoldable pub finish : Plan → PlanStatus → Option String → State → Result State
  unfolding summary_or store_plan log_plan notify status_name
  finish p target summary s = do
    _ ← assert_transition p.status target
    ok (
        notify p target (summary_or summary p.summary) (
          log_plan settings ("plan." ++ status_name target) p.plan_id (
            store_plan p.plan_id
              (λ row. record row {
                status = target;
                updated_at = now;
                summary = summary_or summary row.summary;
              })
              s)))

  unfoldable pub complete_plan : String → String → Option String → State → Result State
  unfolding outcome_of
  complete_plan plan_id status summary s = do
    p ← get_orm plan_id s
    finish p (outcome_of status) summary s

  unfoldable pub cancel_plan : String → Option String → State → Result State
  cancel_plan plan_id reason s = do p ← get_orm plan_id s; finish p cancelled reason s

  -- The status is not looked at.
  unfoldable pub persist_artifacts : String → State → Result State
  unfolding store_plan
  persist_artifacts plan_id s = do
    _ ← get_orm plan_id s
    ok (store_plan plan_id (λ row. record row { status = persisted; updated_at = now }) s)
