-- ===== src/Plans/Replans.antt =====
-- PlanBuilder.replan of core/planning.py: a failed plan is superseded by a new one, whose context counts the attempts.
use Prim.Native.Nat.{◌^◌}
use ritesmith.Prelude.{
  ℕ, suc, ◌+◌, ◌-◌, ◌*◌, String, Bool, true, false, Option, none, some, [], leb, if◌then◌else◌,
}
use ritesmith.Json.{pos, negsuc, Value, boolean, int, decimal, text, Fields, end, lookup}
use ritesmith.Policy
use ritesmith.Registry.{Result, ok, err}
use ritesmith.Execution
use ritesmith.Execution.Delegated.{set_field}
use ritesmith.Plans.{superseded, Plan, State, get_orm, assert_transition}
use ritesmith.Plans.Lifecycle.{store_plan, log_plan}
use ritesmith.Plans.Created.{CreatePlanRequest, propose, Planner, Built, build_plan}

-- `replan_count >= casp_max_replan_attempts`; another kind of value raises TypeError. A decimal m e is m / 10 ^ e.
unfoldable pub limit_reached : ℕ → Value → Option Bool
limit_reached max (int (pos n)) = some (leb max n)
limit_reached max (int (negsuc n)) = some false
limit_reached max (boolean b) = some (leb max (if b then 1 else 0))
limit_reached max (decimal (pos m) e) = some (leb (max * 10 ^ e) m)
limit_reached max (decimal (negsuc m) e) = some false
limit_reached max _ = none

-- `replan_count + 1`, for a number.
unfoldable pub next_count : Value → Value
next_count (int (pos n)) = int (pos (n + 1))
next_count (int (negsuc ℕ.zero)) = int (pos 0)
next_count (int (negsuc (suc n))) = int (negsuc n)
next_count (boolean b) = int (pos (if b then 2 else 1))
next_count (decimal (pos m) e) = decimal (pos (m + 10 ^ e)) e
next_count (decimal (negsuc m) e) =
    if leb (10 ^ e) m then decimal (negsuc (m - 10 ^ e)) e else decimal (pos (10 ^ e - (m + 1))) e
next_count v = v

-- `context.get("replan_count", 0)` of `failed_orm.context or {}`
unfoldable pub replan_count : Option Fields → Value
unfolding lookup
replan_count none = int (pos 0)
replan_count (some context) = elim (lookup "replan_count" context) [
  | none ↦ int (pos 0)
  | some v ↦ v
]

-- `failed_orm.context or {}`
unfoldable pub fields_or : Option Fields → Fields
fields_or none = end
fields_or (some fs) = fs

unfoldable pub new_context : String → String → Option Fields → Fields
unfolding next_count replan_count set_field fields_or
new_context failed_plan_id failure_reason context =
    set_field "previous_failure" (text failure_reason) (
      set_field "replan_count" (next_count (replan_count context))
        (set_field "replan_of" (text failed_plan_id) (fields_or context)))

-- What `replan` ends in: no attempt is left (None is returned), an exception, or the new plan.
pub data Replanned : Type 0 where
  exhausted raised : Replanned
  replanned : Built → Replanned

unfoldable pub built_or : Option Built → Replanned
built_or none = raised
built_or (some b) = replanned b

module _ (planner : Planner) (policy : Policy.Settings) (settings : Execution.Settings)
    (casp_max_replan_attempts : ℕ) (plan_id : String) (new_id : ℕ → String) (now : ℕ) where
  -- The request for the successor: the default mode, no constraints, no artifact types and no callback.
  unfoldable pub successor : String → String → Plan → CreatePlanRequest
  unfolding new_context
  successor failed_plan_id failure_reason p = record {
    intent = p.intent;
    requested_artifact_types = [];
    mode = propose;
    require_approval = false;
    context = some (new_context failed_plan_id failure_reason p.context);
    callback_url = none;
  }

  unfoldable pub superseded_by : String → String → Plan → State → Result (Unit {0}) → Replanned
  unfolding built_or store_plan log_plan
  superseded_by failed_plan_id failure_reason p s (err _) = raised
  superseded_by failed_plan_id failure_reason p s (ok _) = built_or (
      build_plan planner policy settings plan_id new_id now
        (successor failed_plan_id failure_reason p)
        (log_plan settings "plan.superseded" failed_plan_id (
          store_plan failed_plan_id (λ row. record row { status = superseded; updated_at = now })
            s)))

  unfoldable pub replan_row : String → String → Plan → State → Option Bool → Replanned
  unfolding superseded_by
  replan_row failed_plan_id failure_reason p s none = raised
  replan_row failed_plan_id failure_reason p s (some true) = exhausted
  replan_row failed_plan_id failure_reason p s (some false) =
      superseded_by failed_plan_id failure_reason p s (assert_transition p.status superseded)

  unfoldable pub replan : String → String → State → Replanned
  unfolding replan_row limit_reached replan_count
  replan failed_plan_id failure_reason s = elim (get_orm failed_plan_id s) [
    | err _ ↦ raised
    | ok p ↦
        replan_row failed_plan_id failure_reason p s
          (limit_reached casp_max_replan_attempts (replan_count p.context))
  ]
