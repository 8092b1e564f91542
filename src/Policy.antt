-- ===== src/Policy.antt =====
-- ritesmith/core/policy.py: the decision whether an operation on an artifact is allowed.
pub mod Floor
pub mod Allowed
mod Tests
use Prim.Native.String.{◌++◌}
use ritesmith.Prelude.{
  ℕ, suc, String, Bool, true, false, not, ◌&&◌, ◌||◌, Option, none, some, List, [], ◌∷◌, ◌==◌, leb,
  elem, text_or, text_given, is_text, if◌then◌else◌,
}

abbrev pub risk_order : List String
risk_order = "low" ∷ "medium" ∷ "high" ∷ "critical" ∷ []

-- `list.index`; the callers ask only for members.
unfoldable pub index_of : String → List String → ℕ
index_of s [] = 0
index_of s (t ∷ ts) = if s == t then 0 else suc (index_of s ts)

-- `_PROFILE_RISK_FLOOR.get`
unfoldable pub profile_risk_floor : String → Option String
profile_risk_floor p =
    if p == "notification"
    then some "medium"
    else if p == "sensitive_personal"
    then some "medium"
    else if p == "filesystem_write"
    then some "medium"
    else if p == "reporting"
    then some "medium"
    else if p == "side_effects"
    then some "high"
    else if p == "trusted_internal"
    then some "high"
    else none

-- `max(risk_level, floor, key=_RISK_ORDER.index)`: on a tie the first argument.
unfoldable pub max_risk : String → String → String
max_risk a b = if leb (index_of b risk_order) (index_of a risk_order) then a else b

raise_to : String → Option String → String
raise_to risk_level none = risk_level
raise_to risk_level (some floor) =
    if not (elem risk_level risk_order) then floor else max_risk risk_level floor

unfoldable pub effective_risk : String → Option String → Bool → String
unfolding raise_to
effective_risk risk_level none manual = risk_level
effective_risk risk_level (some profile) manual =
    if not manual || profile == ""
    then risk_level
    else raise_to risk_level (profile_risk_floor profile)

pub data DecisionValue : Type 0 where
  allow deny require_approval : DecisionValue

pub record Decision : Type 0 where
  pub value : DecisionValue
  pub reason : String

-- The fields of `config.Settings` that the engine reads.
pub record Settings : Type 0 where
  pub allow_unapproved_low_risk : Bool
  pub policy_default : String

-- `PolicyEvaluationRequest`, the fields that the engine reads.
pub record Request : Type 0 where
  pub operation : String
  pub artifact_type : Option String
  pub risk_level : Option String
  pub runtime_profile : Option String
  pub manual : Bool
  pub certification : Option String

abbrev decided : DecisionValue → String → Option Decision
decided v r = some (record { value = v; reason = r })

-- `PolicyDecisionValue(default)`: `none` is the `ValueError` for a text that is no decision.
unfoldable pub decision_value : String → Option DecisionValue
decision_value s =
    if s == "allow"
    then some allow
    else if s == "deny"
    then some deny
    else if s == "require_approval"
    then some require_approval
    else none

with_default : String → Option DecisionValue → Option Decision
with_default default none = none
with_default default (some v) = decided v ("Default policy: " ++ default)

fallback : Settings → Option Decision
unfolding with_default
fallback settings = with_default settings.policy_default (decision_value settings.policy_default)

unfoldable pub decide_on : Settings → String → String → String → Option String → Option Decision
unfolding fallback
decide_on settings artifact_type operation risk_level certification =
    if artifact_type == "shell_script" && operation == "execute"
    then decided deny "Shell script execution is never permitted"
    else if operation == "execute" && is_text certification "nonstrict"
    then decided require_approval
        "Artifact is not strict-type-certified; requires approval before execution"
    else if operation == "execute" && risk_level == "critical"
    then decided deny "Critical risk artifacts cannot be executed"
    else if operation == "execute" && risk_level == "high"
    then decided require_approval "High risk artifacts require approval before execution"
    else if operation == "execute" && risk_level == "medium"
    then decided require_approval "Medium risk artifacts require approval before execution"
    else if operation == "execute" && risk_level == "low"
    then (if settings.allow_unapproved_low_risk
        then decided allow "Low risk artifact approved automatically"
        else decided require_approval
            "Unapproved execution is disabled (allow_unapproved_low_risk=false)")
    else if artifact_type == "trama_workflow" && operation == "delegate"
    then decided require_approval "Workflow delegation requires approval"
    else fallback settings

-- `none` is a `ValueError`. The metric that is counted on the way out is not modelled.
unfoldable pub evaluate : Settings → Request → Option Decision
unfolding decide_on
evaluate settings req =
    decide_on settings (text_or req.artifact_type "") (text_or (some req.operation) "execute")
      (effective_risk (text_or req.risk_level "low") req.runtime_profile req.manual)
      req.certification

-- The value of a decision, where one is returned.
abbrev pub outcome : Option Decision → Option DecisionValue
outcome none = none
outcome (some d) = some d.value
