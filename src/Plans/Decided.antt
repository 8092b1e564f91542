-- ===== src/Plans/Decided.antt =====
-- What the status of a new plan says of its steps and of the decisions on its artifacts (build_plan of core/planning.py).
use ritesmith.Prelude.{
  ℕ, ◌+◌, String, ◌≡◌, refl, sym, ap, subst, ◌∙◌, Bool, false, ◌||◌, Option, none, some, List, [],
  ◌∷◌, arith, ◌==◌, All, if◌then◌else◌, Option-cases, inl, inr,
}
use mathlib.Core.Option.{some-injective, none-ne-some}
use Prim.Native.String.{◌++◌}
use mathlib.Core.Bool.{true≢false}
use ritesmith.Policy
use ritesmith.Policy.{Decision, DecisionValue, allow, deny, require_approval, evaluate, outcome}
use ritesmith.Plans.{PlanStatus, proposed, approved, blocked}
use ritesmith.Plans.Build.{
  Draft, Generated, Step, BuildProgress, Handled, plan_request, note_decision, note_status,
  add_validation, note, note_handled, handle, handle_all, no_progress, plan_status, value_eq,
  any_decision, aggregate,
}

-- Whether a step has a status.
abbrev pub any_step : String → List Step → Bool
any_step status [] = false
any_step status (t ∷ ts) = t.status == status || any_step status ts

-- What the status has to be.
abbrev pub verdict : List Step → List Decision → Bool → PlanStatus
verdict steps decisions asked =
    if any_step "failed" steps || any_decision deny decisions
    then blocked
    else if any_decision require_approval decisions || asked
    then proposed
    else approved

-- An artifact that the policy lets through, under the type of its step.
abbrev pub IsAllowed : Policy.Settings → Draft → Type 0
IsAllowed settings a = (t : String) × (outcome (evaluate settings (plan_request t a)) ≡ some allow)

aggregate-free :
    (ds : List Decision) (g : Decision)
    → any_decision deny ds ≡ false
    → any_decision require_approval ds ≡ false
    → aggregate ds ≡ some g
    → g.value ≡ allow
unfolding aggregate
aggregate-free [] g x y e = absurd (none-ne-some _ e)
aggregate-free (d ∷ ds) g x y e =
    sym (ap (λ (u : Decision). u.value) (some-injective _ _ (rw (x, y) at e)))

module _ (settings : Policy.Settings) where
  -- An approved plan is not blocked, and asks for no approval.
  approved-free :
      (p : BuildProgress) (asked : Bool)
      → plan_status p asked ≡ approved
      → (p.any_blocked ≡ false) × (p.any_requires_approval ≡ false)
  unfolding plan_status
  approved-free p asked fine = (ground (arith, fine), ground (arith, fine))

  record IsDecided (p : BuildProgress) : Type 0 where
    stops : p.any_blocked ≡ (any_step "failed" p.steps || any_decision deny p.decisions)
    asks : p.any_requires_approval ≡ any_decision require_approval p.decisions
    lets :
        any_decision deny p.decisions ≡ false
        → any_decision require_approval p.decisions ≡ false
        → All (IsAllowed settings) p.artifacts

  note_decision-IsDecided :
      (v : DecisionValue) (t : String) (d : Decision) (step : Step) (a : Draft) (p : BuildProgress)
      → d.value ≡ v
      → evaluate settings (plan_request t a) ≡ some d
      → IsDecided p
      → IsDecided (note_decision d step a (note_status step p))
  unfolding note_decision note_status any_decision value_eq
  note_decision-IsDecided deny t d step a p v e h = rw v (record {
    stops = ground (arith, h.stops);
    asks = h.asks;
    lets = λ x y. absurd (true≢false x);
  })
  note_decision-IsDecided allow t d step a p v e h =
      let allowed : outcome (evaluate settings (plan_request t a)) ≡ some allow =
        ap outcome e ∙ ap (λ u. some u) v in
      rw v (record {
        stops = ground (arith, h.stops);
        asks = h.asks;
        lets = λ x y. ((t, allowed), h.lets x y);
      })
  note_decision-IsDecided require_approval t d step a p v e h =
      rw v (record {
        stops = ground (arith, h.stops);
        asks = refl;
        lets = λ x y. absurd (true≢false y);
      })

  -- A step without an artifact.
  note_bare-IsDecided :
      (step : Step) (p : BuildProgress)
      → IsDecided p
      → IsDecided (record (note_status step p) { steps = step ∷ p.steps })
  unfolding note_status
  note_bare-IsDecided step p h = record {
    stops = ground (arith, h.stops);
    asks = h.asks;
    lets = h.lets;
  }

  add_validation-IsDecided :
      (validation : Option Bool) (p : BuildProgress)
      → IsDecided p
      → IsDecided (add_validation validation p)
  unfolding add_validation
  add_validation-IsDecided none p h = h
  add_validation-IsDecided (some b) p h = record { stops = h.stops; asks = h.asks; lets = h.lets }

  note-IsDecided :
      (t : String) (step : Step) (artifact : Option Draft) (p p' : BuildProgress)
      → IsDecided p
      → note settings t step artifact (note_status step p) ≡ some p'
      → IsDecided p'
  unfolding note note_decision note_status
  note-IsDecided t step none p p' h e =
      subst IsDecided (some-injective _ _ e) (note_bare-IsDecided step p h)
  note-IsDecided t step (some a) p p' h e =
      elim (Option-cases (evaluate settings (plan_request t a))) [
        | inl gone ↦ absurd (none-ne-some _ (rw (gone, note) at e))
        | inr (d, made) ↦
            subst IsDecided (some-injective _ _ (rw (made, note) at e))
              (note_decision-IsDecided d.value t d step a p refl made h)
      ]

  note_handled-IsDecided :
      (t : String) (h : Handled) (p p' : BuildProgress)
      → IsDecided p
      → note_handled settings t h p ≡ some p'
      → IsDecided p'
  unfolding note_handled
  note_handled-IsDecided t h p p' i e =
      note-IsDecided t h.step h.artifact (add_validation h.validation p) p'
        (add_validation-IsDecided h.validation p i) e

  module _ (str : ℕ → String) (generate_script : String → Option Generated)
      (generate_workflow : List Draft → Option Generated) where
    handle_all-IsDecided :
        (i : ℕ) (ts : List String) (p p' : BuildProgress)
        → IsDecided p
        → handle_all settings str generate_script generate_workflow i ts p ≡ some p'
        → IsDecided p'
    unfolding handle_all
    handle_all-IsDecided i [] p p' d e = subst IsDecided (some-injective _ _ e) d
    handle_all-IsDecided i (t ∷ ts) p p' d e =
        elim (Option-cases (
          handle settings str generate_script generate_workflow ("step_" ++ str (i + 1)) t
            p.artifacts)) [
              | inl gone ↦ absurd (none-ne-some _ (rw (gone, handle_all) at e))
              | inr (h, made) ↦ elim (Option-cases (note_handled settings t h p)) [
                | inl gone ↦ absurd (none-ne-some _ (rw (made, gone, handle_all) at e))
                | inr (q, given) ↦
                    handle_all-IsDecided (i + 1) ts q p' (note_handled-IsDecided t h p q d given)
                      (rw (made, given, handle_all) at e)
              ]
            ]

    no_progress-IsDecided : IsDecided no_progress
    unfolding any_decision
    no_progress-IsDecided = record { stops = refl; asks = refl; lets = λ x y. tt }

    -- After the loop over the artifact types the status is blocked if a step failed or a decision
    -- denies, otherwise proposed if a decision or the request asks for an approval, and otherwise
    -- approved. If it is approved, the policy allows every artifact, and the aggregated decision,
    -- where there is one, allows.
    pub plan_status-verdict :
        (asked : Bool) (ts : List String) (p : BuildProgress)
        → handle_all settings str generate_script generate_workflow 0 ts no_progress ≡ some p
        → (plan_status p asked ≡ verdict p.steps p.decisions asked)
          × (plan_status p asked ≡ approved → All (IsAllowed settings) p.artifacts)
          × (plan_status p asked ≡ approved
              → (g : Decision) → aggregate p.decisions ≡ some g
              → g.value ≡ allow)
    unfolding plan_status
    plan_status-verdict asked ts p e =
        let d = handle_all-IsDecided 0 ts no_progress p no_progress-IsDecided e in
        (
          rw (d.stops, d.asks) refl,
          λ fine.
              let (go, free) = approved-free p asked fine in
              d.lets (ground (arith, d.stops, go)) (ground (arith, d.asks, free)),
          λ fine g there.
              let (go, free) = approved-free p asked fine in
              aggregate-free p.decisions g (ground (arith, d.stops, go))
                (ground (arith, d.asks, free)) there,
        )
