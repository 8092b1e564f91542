-- ===== src/Policy/Tests.antt =====
-- Decisions at small requests, and the theorems at them.
use ritesmith.Prelude.{◌⊎◌, ◌≤◌, ◌≡◌, ◌≢◌, ◌↔◌, refl, true, false, some, elem, text_or}
use ritesmith.Policy.{
  risk_order, index_of, profile_risk_floor, max_risk, effective_risk, Settings, Request, allow,
  deny, require_approval, decision_value, decide_on, evaluate, outcome,
}
use ritesmith.Policy.Floor.{rank, rank-effective_risk}
use ritesmith.Policy.Allowed.{
  LetThrough, evaluate-execute-allow, evaluate-floored-ne-allow, Denied, evaluate-execute-deny,
}

abbrev defaults : Settings
defaults = record { allow_unapproved_low_risk = true; policy_default = "deny" }

-- A hand-made script that declares low risk under a profile with side effects.
abbrev declared_low : Request
declared_low = record {
  operation = "execute";
  artifact_type = some "luau_script";
  risk_level = some "low";
  runtime_profile = some "side_effects";
  manual = true;
  certification = some "strict";
}

abbrev critical : Request
critical = record declared_low { risk_level = some "critical" }

program : Unit {0}
unfolding index_of profile_risk_floor max_risk effective_risk decision_value decide_on evaluate elem
program = tt

declared_low-waits : outcome (evaluate defaults declared_low) ≡ some require_approval
unfolding program
declared_low-waits = refl

generated-allowed :
    outcome (evaluate defaults (record declared_low { manual = false })) ≡ some allow
unfolding program
generated-allowed = refl

nonstrict_shell-denied :
    outcome (
      evaluate defaults (record declared_low {
        artifact_type = some "shell_script";
        certification = some "nonstrict";
      }))
    ≡ some deny
unfolding program
nonstrict_shell-denied = refl

floored : profile_risk_floor "side_effects" ≡ some "high"
unfolding program
floored = refl

critical_effective :
    effective_risk (text_or critical.risk_level "low") critical.runtime_profile critical.manual
    ≡ "critical"
unfolding program
critical_effective = refl

evaluate-execute-allow_example :
    (outcome (evaluate defaults declared_low) ≡ some allow)
    ↔ LetThrough defaults
        (text_or (some "luau_script") "")
        (effective_risk (text_or (some "low") "low") (some "side_effects") true)
        (some "strict")
evaluate-execute-allow_example = evaluate-execute-allow defaults declared_low refl

evaluate-floored-ne-allow_example : outcome (evaluate defaults declared_low) ≢ some allow
evaluate-floored-ne-allow_example =
    evaluate-floored-ne-allow defaults declared_low "side_effects" "high" refl refl refl floored

evaluate-execute-deny_example :
    (outcome (evaluate defaults critical) ≡ some deny)
    ↔ Denied defaults
        (text_or critical.artifact_type "")
        (effective_risk
          (text_or critical.risk_level "low")
          critical.runtime_profile
          critical.manual)
        critical.certification
evaluate-execute-deny_example = evaluate-execute-deny defaults critical refl

rank-effective_risk_example :
    (elem (effective_risk "low" (some "side_effects") true) risk_order ≡ true)
    × ((effective_risk "low" (some "side_effects") true ≡ "low")
        ⊎ (effective_risk "low" (some "side_effects") true ≡ "high"))
    × (rank "high" ≤ rank (effective_risk "low" (some "side_effects") true))
    × (elem "low" risk_order ≡ true
        → rank "low" ≤ rank (effective_risk "low" (some "side_effects") true))
rank-effective_risk_example = rank-effective_risk "low" "side_effects" "high" floored
