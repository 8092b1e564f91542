-- ===== src/Policy/Allowed.antt =====
-- When `evaluate` of core/policy.py lets an operation through, and what certification changes.
use ritesmith.Prelude.{
  ◌<◌, String, ◌≡◌, ◌≢◌, ◌⊎◌, ◌↔◌, refl, true, false, Option, some, arith, eq_iff, elem, ◌==◌, inl,
  inr, text_or, is_text,
}
use ritesmith.Policy.{
  risk_order, profile_risk_floor, index_of, effective_risk, allow, deny, Settings, Request,
  decision_value, decide_on, evaluate, outcome,
}
use ritesmith.Policy.Floor.{rank, floor_values, rank-effective_risk, effective_risk-listed}

-- The rank of a risk level that lets an execution through is 0; a floor is above it.
floor-ne-low : (p f : String) → profile_risk_floor p ≡ some f → 0 < rank f
unfolding rank index_of
floor-ne-low p f h = elim (floor_values p f h) [
  | inl e ↦ rw e (omega arith)
  | inr e ↦ rw e (omega arith)
]

rank-low : rank "low" ≡ 0
unfolding rank index_of
rank-low = refl

-- An execution is let through exactly on these conditions; the risk is the effective one.
abbrev pub LetThrough : Settings → String → String → Option String → Type 0
LetThrough s t r c =
    ((t == "shell_script") ≡ false)
    × (is_text c "nonstrict" ≡ false)
    × ((r ≡ "low") × (s.allow_unapproved_low_risk ≡ true)
        ⊎ (elem r risk_order ≡ false) × (decision_value s.policy_default ≡ some allow))

-- An execution is allowed with no approval exactly if the artifact is no shell script, its
-- certification is not "nonstrict", and either its effective risk is low and the settings allow
-- low risk, or its effective risk is no known risk level and the default policy is "allow".
decide_on-execute-allow :
    (s : Settings) (t r : String) (c : Option String)
    → (outcome (decide_on s t "execute" r c) ≡ some allow) ↔ LetThrough s t r c
unfolding decide_on elem
decide_on-execute-allow s t r c = (
  λ h. ground (arith, eq_iff r "low"),
  λ (shell, strict, why). elim why [
    | inl (low, on) ↦ rw low (ground arith)
    | inr (unlisted, default) ↦ ground arith
  ],
)

-- An execution is allowed with no approval exactly if the artifact is no shell script, its
-- certification is not "nonstrict", and either its effective risk is low and the settings allow
-- it, or its effective risk is no risk level and the default of the policy is to allow.
pub evaluate-execute-allow :
    (s : Settings) (req : Request)
    → req.operation ≡ "execute"
    → (outcome (evaluate s req) ≡ some allow)
      ↔ LetThrough s
          (text_or req.artifact_type "")
          (effective_risk (text_or req.risk_level "low") req.runtime_profile req.manual)
          req.certification
unfolding evaluate
evaluate-execute-allow s req op = rw op (
    decide_on-execute-allow s (text_or req.artifact_type "")
      (effective_risk (text_or req.risk_level "low") req.runtime_profile req.manual)
      req.certification)

-- Whatever risk the client declared and whatever the settings are, a hand-made artifact whose
-- runtime profile has a risk floor is never executed without approval.
pub evaluate-floored-ne-allow :
    (s : Settings) (req : Request) (p f : String)
    → req.operation ≡ "execute"
    → req.manual ≡ true
    → req.runtime_profile ≡ some p
    → profile_risk_floor p ≡ some f
    → outcome (evaluate s req) ≢ some allow
evaluate-floored-ne-allow s req p f op man prof h e =
    let r = text_or req.risk_level "low" in
    let (_, _, why) = (evaluate-execute-allow s req op).0 e in
    elim why [
      | inl (low, _) ↦ ground (arith, floor-ne-low p f h, rank-low, rank-effective_risk r p f h)
      | inr (unlisted, _) ↦ ground (arith, effective_risk-listed r p f h)
    ]

-- An execution is denied exactly on these conditions; the risk is the effective one.
abbrev pub Denied : Settings → String → String → Option String → Type 0
Denied s t r c =
    ((t == "shell_script") ≡ true)
    ⊎ (is_text c "nonstrict" ≡ false)
      × ((r ≡ "critical")
          ⊎ (elem r risk_order ≡ false) × (decision_value s.policy_default ≡ some deny))

decide_on-execute-deny :
    (s : Settings) (t r : String) (c : Option String)
    → (outcome (decide_on s t "execute" r c) ≡ some deny) ↔ Denied s t r c
unfolding decide_on elem
decide_on-execute-deny s t r c = (
  λ h. ground (arith, eq_iff r "critical"),
  λ why. elim why [
    | inl shell ↦ ground arith
    | inr (strict, inl critical) ↦ rw critical (ground arith)
    | inr (strict, inr (unlisted, default)) ↦ ground arith
  ],
)

-- An execution is denied exactly if the artifact is a shell script, or its certification is not
-- "nonstrict" and either its effective risk is critical, or its effective risk is no risk level and
-- the default of the policy is to deny. So a critical artifact whose certification is "nonstrict" is
-- not denied.
pub evaluate-execute-deny :
    (s : Settings) (req : Request)
    → req.operation ≡ "execute"
    → (outcome (evaluate s req) ≡ some deny)
      ↔ Denied s
          (text_or req.artifact_type "")
          (effective_risk (text_or req.risk_level "low") req.runtime_profile req.manual)
          req.certification
unfolding evaluate
evaluate-execute-deny s req op = rw op (
    decide_on-execute-deny s (text_or req.artifact_type "")
      (effective_risk (text_or req.risk_level "low") req.runtime_profile req.manual)
      req.certification)
