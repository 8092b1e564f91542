-- ===== src/Execution/Floored.antt =====
-- The policy of core/policy.py inside create_execution of core/execution.py.
use ritesmith.Prelude.{
  ℕ, String, ◌≡◌, ◌≢◌, refl, sym, ap, ◌∙◌, subst, inl, inr, true, false, none, some, arith, ◌⊎◌,
  Option-cases,
}
use mathlib.Core.Bool.{true≢false}
use ritesmith.Json.{text, lookup}
use ritesmith.Registry.{Artifact, ArtifactVersion, get_artifact_with_version}
use ritesmith.Policy
use ritesmith.Policy.{Decision, allow, evaluate, profile_risk_floor, outcome}
use ritesmith.Policy.Allowed.{evaluate-floored-ne-allow}
use ritesmith.Execution.{
  CreateExecutionRequest, Settings, State, Environment, verify_approval_token,
}
use ritesmith.Execution.Create.{
  Outcome, Error, done, raised, Report, metadata_of, text_or_none, policy_request, decision,
  existing, create_execution,
}
use ritesmith.Execution.Replay.{create_execution-Permits}

some-inj {ℓ} : {A : Type ℓ} {x y : A} → some x ≡ some y → x ≡ y
some-inj e = cc

Outcome-cases {ℓ} :
    {A : Type ℓ} (o : Outcome A) → ((e : Error) × (o ≡ raised e)) ⊎ ((a : A) × (o ≡ done a))
Outcome-cases (raised e) = inl (e, refl)
Outcome-cases (done a) = inr (a, refl)

policy_request-fields :
    (a : Artifact) (v : ArtifactVersion) (p : String) (q : Policy.Request)
    → lookup "runtime_profile" (metadata_of v) ≡ some (text p)
    → lookup "source" (metadata_of v) ≡ some (text "manual")
    → policy_request a v ≡ done q
    → (q.operation ≡ "execute") × (q.manual ≡ true) × (q.runtime_profile ≡ some p)
unfolding policy_request
policy_request-fields a v p q profile source made =
    elim (Outcome-cases (text_or_none (lookup "certification" (metadata_of v)))) [
      | inl (e, wrong) ↦ absurd (unfold text_or_none in ground arith)
      | inr (c, certified) ↦ unfold text_or_none in ground arith
    ]

decision-ne-allow :
    (settings : Settings) (a : Artifact) (v : ArtifactVersion) (d : Decision) (p f : String)
    → lookup "runtime_profile" (metadata_of v) ≡ some (text p)
    → lookup "source" (metadata_of v) ≡ some (text "manual")
    → profile_risk_floor p ≡ some f
    → decision settings a v ≡ done d
    → d.value ≢ allow
unfolding decision
decision-ne-allow settings a v d p f profile source floor decided allowed =
    elim (Outcome-cases (policy_request a v)) [
      | inl (e, wrong) ↦ absurd (ground arith)
      | inr (q, made) ↦
          let (op, manual, known) = policy_request-fields a v p q profile source made in
          elim (Option-cases (evaluate settings.policy q)) [
            | inl missing ↦ absurd (ground arith)
            | inr (d', e) ↦
                evaluate-floored-ne-allow settings.policy q p f op manual known floor
                  (rw e (ap some (subst (λ x. x.value ≡ allow) (sym (same d' q made e)) allowed)))
          ]
    ]
  where
    same :
        (d' : Decision) (q : Policy.Request)
        → policy_request a v ≡ done q
        → evaluate settings.policy q ≡ some d'
        → d' ≡ d
    same d' q made e = ground arith

-- A new execution of a version that was made by hand, under a runtime profile with a risk floor,
-- has not started when the request returns, if it has no valid approval token, whatever risk the
-- version declares; the registry and the background tasks are as they were.
pub create_execution-floored :
    (env : Environment) (settings : Settings) (exec_id trama_id : String) (now : ℕ)
    (req : CreateExecutionRequest) (s s' : State) (r : Report) (a : Artifact) (v : ArtifactVersion)
    (p f : String)
    → existing req s ≡ done none
    → get_artifact_with_version req.artifact_id req.version s.db ≡ some (a, v)
    → lookup "runtime_profile" (metadata_of v) ≡ some (text p)
    → lookup "source" (metadata_of v) ≡ some (text "manual")
    → profile_risk_floor p ≡ some f
    → verify_approval_token env settings req.artifact_id v.version req.approval_token ≡ false
    → create_execution env settings exec_id trama_id now req s ≡ done (r, s')
    → (r.started_at ≡ none) × (s'.db ≡ s.db) × (s'.tasks ≡ s.tasks)
create_execution-floored env settings exec_id trama_id now req s s' r a v p f fresh found profile
      source floor refused h =
    let (a', v', d, found', decided, gate) =
      create_execution-Permits env settings exec_id trama_id now req s s' r fresh h in
    let same : v' ≡ v = ap (λ q. q.1) (some-inj (sym found' ∙ found)) in
    elim gate [
      | inl (inl allowed) ↦ absurd (
          decision-ne-allow settings a' v' d p f (rw same profile) (rw same source) floor decided
            allowed)
      | inl (inr (_, valid)) ↦ absurd (true≢false (sym valid ∙ (rw same refused)))
      | inr idle ↦ (idle.0, idle.3, idle.4)
    ]
