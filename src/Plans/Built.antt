-- ===== src/Plans/Built.antt =====
-- What build_plan of core/planning.py leaves: the new row, the registry, and the decisions of the policy.
use mathlib.Core.Option.{some-injective, none-ne-some}
use mathlib.Core.List.{reverse, reverse-cons}
use ritesmith.Prelude.{
  ℕ, String, Bool, List, [], ◌++◌, ◌||◌, ◌≡◌, refl, sym, ap, subst, ◌∙◌, false, Option, none, some,
  ◌∷◌, arith, ◌==◌, All, Option-cases, Bool-cases, inl, inr, eq_refl,
}
use ritesmith.Policy
use ritesmith.Policy.{Decision, DecisionValue, deny, require_approval}
use ritesmith.Execution
use ritesmith.Execution.Script.{log_event}
use ritesmith.Registry.Versions.{IsConsistent}
use ritesmith.Plans.{approved, Plan, State, find_plan}
use ritesmith.Plans.Lifecycle.{log_plan}
use ritesmith.Plans.Build.{
  Step, any_decision, BuildProgress, ordered_types, handle_all, no_progress, plan_status,
}
use ritesmith.Plans.Persist.{Saved, Ids, rename_step}
use ritesmith.Plans.Created.{
  CreatePlanRequest, IntentAnalysis, Planner, saves, add_plan, Built, plan_row, finish_build,
  saved_artifacts, build_with, build_plan, rename_steps,
}
use ritesmith.Plans.Decided.{IsAllowed, any_step, verdict, plan_status-verdict}
use ritesmith.Plans.Stored.{save_all-IsConsistent}

log_event-db :
    (settings : Execution.Settings) (event key : String) (service : Execution.State)
    → (log_event settings event key service).db ≡ service.db
unfolding log_event
log_event-db settings event key service = ground arith

any_step-append :
    (status : String) (ts us : List Step)
    → any_step status (ts ++ us) ≡ (any_step status ts || any_step status us)
any_step-append status [] us = refl
any_step-append status (t ∷ ts) us = ground (arith, any_step-append status ts us)

any_step-reverse :
    (status : String) (ts : List Step) → any_step status (reverse ts) ≡ any_step status ts
any_step-reverse status [] = refl
any_step-reverse status (t ∷ ts) =
    rw (reverse-cons t ts, any_step-append status (reverse ts) (t ∷ []))
      (ground (arith, any_step-reverse status ts))

any_step-rename_steps :
    (status : String) (ids : Ids) (ts : List Step)
    → any_step status (rename_steps ids ts) ≡ any_step status ts
unfolding rename_steps rename_step
any_step-rename_steps status ids [] = refl
any_step-rename_steps status ids (t ∷ ts) = ground (arith, any_step-rename_steps status ids ts)

any_decision-append :
    (v : DecisionValue) (ds es : List Decision)
    → any_decision v (ds ++ es) ≡ (any_decision v ds || any_decision v es)
unfolding any_decision
any_decision-append v [] es = refl
any_decision-append v (d ∷ ds) es = ground (arith, any_decision-append v ds es)

any_decision-reverse :
    (v : DecisionValue) (ds : List Decision) → any_decision v (reverse ds) ≡ any_decision v ds
unfolding any_decision
any_decision-reverse v [] = refl
any_decision-reverse v (d ∷ ds) =
    rw (reverse-cons d ds, any_decision-append v (reverse ds) (d ∷ []))
      (ground (arith, any_decision-reverse v ds))

-- The order of the steps and of the decisions, and the ids of the steps, do not matter.
verdict-kept :
    (ids : Ids) (ts : List Step) (ds : List Decision) (asked : Bool)
    → verdict (rename_steps ids (reverse ts)) (reverse ds) asked ≡ verdict ts ds asked
verdict-kept ids ts ds asked =
    rw
      (
        any_step-rename_steps "failed" ids (reverse ts),
        any_step-reverse "failed" ts,
        any_decision-reverse deny ds,
        any_decision-reverse require_approval ds,
      )
      refl

module _ (planner : Planner) (policy : Policy.Settings) (settings : Execution.Settings)
    (plan_id : String) (new_id : ℕ → String) (now : ℕ) (req : CreatePlanRequest) (s : State) where
  -- The parts of a plan that was built.
  record Parts (b : Built) : Type 0 where
    analysis : IntentAnalysis
    progress : BuildProgress
    rows : Saved
    analysed : planner.analyse req ≡ some analysis
    ran :
        handle_all policy planner.str
          (planner.generate_script req)
          (planner.generate_workflow req)
          0
          (ordered_types planner.script_type req.requested_artifact_types analysis.artifact_types)
          no_progress
        ≡ some progress
    storing : saved_artifacts planner policy settings plan_id new_id now req progress s ≡ some rows
    added :
        finish_build planner policy settings plan_id new_id now req analysis progress (some rows) s
        ≡ some b

  with_saved :
      (analysis : IntentAnalysis) (p : BuildProgress) (saved : Option Saved) (b : Built)
      → planner.analyse req ≡ some analysis
      → handle_all policy planner.str
          (planner.generate_script req)
          (planner.generate_workflow req)
          0
          (ordered_types planner.script_type req.requested_artifact_types analysis.artifact_types)
          no_progress
        ≡ some p
      → saved_artifacts planner policy settings plan_id new_id now req p s ≡ saved
      → finish_build planner policy settings plan_id new_id now req analysis p saved s ≡ some b
      → Parts b
  unfolding finish_build
  with_saved analysis p none b a h k e = absurd (none-ne-some _ e)
  with_saved analysis p (some saved) b a h k e = record {
    analysis = analysis;
    progress = p;
    rows = saved;
    analysed = a;
    ran = h;
    storing = k;
    added = e;
  }

  with_analysis :
      (analysis : Option IntentAnalysis) (b : Built)
      → planner.analyse req ≡ analysis
      → build_with planner policy settings plan_id new_id now req s analysis ≡ some b
      → Parts b
  unfolding build_with
  with_analysis none b a e = absurd (none-ne-some _ e)
  with_analysis (some analysis) b a e =
      elim (Option-cases (
        handle_all policy planner.str (planner.generate_script req) (planner.generate_workflow req)
          0 (ordered_types planner.script_type req.requested_artifact_types analysis.artifact_types)
          no_progress)) [
            | inl gone ↦ absurd (none-ne-some _ (rw (gone, build_with) at e))
            | inr (p, done) ↦
                with_saved analysis p
                  (saved_artifacts planner policy settings plan_id new_id now req p s) b a done refl
                  (rw (done, build_with) at e)
          ]

  parts :
      (b : Built) → build_plan planner policy settings plan_id new_id now req s ≡ some b → Parts b
  unfolding build_plan
  parts b e = with_analysis (planner.analyse req) b refl e

  record Facts (analysis : IntentAnalysis) (progress : BuildProgress) (rows : Saved) (b : Built)
      : Type 0 where
    fresh : find_plan plan_id s.plans ≡ none
    row :
        b.state.plans
        ≡ plan_row planner policy settings plan_id new_id now req analysis b.status b.artifact_ids
          ∷ s.plans
    status : b.status ≡ plan_status progress req.require_approval
    steps : b.steps ≡ rename_steps rows.ids (reverse progress.steps)
    decisions : b.decisions ≡ reverse progress.decisions
    ids : b.artifact_ids ≡ reverse rows.artifact_ids
    db : b.state.service.db ≡ rows.db

  facts :
      (analysis : IntentAnalysis) (progress : BuildProgress) (rows : Saved) (b : Built)
      → finish_build planner policy settings plan_id new_id now req analysis progress (some rows) s
        ≡ some b
      → Facts analysis progress rows b
  unfolding finish_build add_plan plan_row log_plan
  facts analysis progress rows b added = elim (Option-cases (find_plan plan_id s.plans)) [
    | inl free ↦
        let e = some-injective _ _ (rw (free, finish_build) at added) in
        subst (Facts analysis progress rows) e (record {
          fresh = free;
          row = refl;
          status = refl;
          steps = refl;
          decisions = refl;
          ids = refl;
          db = log_event-db settings "plan.created" plan_id (record s.service { db = rows.db });
        })
    | inr (p, taken) ↦ absurd (none-ne-some _ (rw (taken, finish_build) at added))
  ]

  saved-IsConsistent :
      (p : BuildProgress) (saved : Saved)
      → saved_artifacts planner policy settings plan_id new_id now req p s ≡ some saved
      → IsConsistent planner.sha256 s.service.db
      → IsConsistent planner.sha256 saved.db
  unfolding saved_artifacts
  saved-IsConsistent p saved e h = elim (Bool-cases (saves req.mode)) [
    | inl on ↦
        (save_all-IsConsistent planner.sha256 now planner.artifact_ttl_days planner.loads
          planner.dumps plan_id new_id (reverse p.artifacts) s.service.db saved h
          (rw (on, saved_artifacts) at e)).0
    | inr off ↦
        subst (λ (t : Saved). IsConsistent planner.sha256 t.db)
          (some-injective _ _ (rw (off, saved_artifacts) at e)) h
  ]

  -- What a plan that was built is: the row that was added to the table, the registry, and how the
  -- analysis, the loop over the artifact types and the storing of its artifacts give its parts.
  pub record BuiltFrom (b : Built) : Type 0 where
    pub unused : find_plan plan_id s.plans ≡ none
    pub analysis : IntentAnalysis
    pub analysed : planner.analyse req ≡ some analysis
    pub row :
        find_plan plan_id b.state.plans
        ≡ some (
            plan_row planner policy settings plan_id new_id now req analysis b.status
              b.artifact_ids)
    pub others :
        (k : String) → (plan_id == k) ≡ false → find_plan k b.state.plans ≡ find_plan k s.plans
    pub progress : BuildProgress
    pub ran :
        handle_all policy planner.str
          (planner.generate_script req)
          (planner.generate_workflow req)
          0
          (ordered_types planner.script_type req.requested_artifact_types analysis.artifact_types)
          no_progress
        ≡ some progress
    pub stored_rows : Saved
    pub storing :
        saved_artifacts planner policy settings plan_id new_id now req progress s ≡ some stored_rows
    pub registry : b.state.service.db ≡ stored_rows.db
    pub consistent :
        IsConsistent planner.sha256 s.service.db → IsConsistent planner.sha256 b.state.service.db
    pub ids : b.artifact_ids ≡ reverse stored_rows.artifact_ids
    pub steps : b.steps ≡ rename_steps stored_rows.ids (reverse progress.steps)
    pub decisions : b.decisions ≡ reverse progress.decisions
    pub status : b.status ≡ verdict b.steps b.decisions req.require_approval
    pub lets : b.status ≡ approved → All (IsAllowed policy) progress.artifacts

  -- A plan that is built with no exception had an unused id. Its row has the values of the request,
  -- the summary of the analysis, and the status and artifact ids that are returned; every other plan
  -- is as it was, and a consistent registry stays consistent. Its steps are those of the loop over
  -- the artifact types, in order and with the ids of the stored artifacts, its decisions those of
  -- the loop in order, its ids those of the artifacts. The status is what its steps, its decisions
  -- and the request give, and if it is approved, the policy allows every artifact of the loop.
  pub build_plan-Built :
      (b : Built)
      → build_plan planner policy settings plan_id new_id now req s ≡ some b
      → BuiltFrom b
  unfolding plan_row find_plan
  build_plan-Built b e =
      let t = parts b e in
      let f = facts t.analysis t.progress t.rows b t.added in
      let (decided, lets, _) =
        plan_status-verdict policy planner.str (planner.generate_script req)
          (planner.generate_workflow req) req.require_approval
          (ordered_types planner.script_type req.requested_artifact_types t.analysis.artifact_types)
          t.progress t.ran in
      record {
        unused = f.fresh;
        analysis = t.analysis;
        analysed = t.analysed;
        row = rw (f.row, eq_refl plan_id) refl;
        others = λ k other. rw (f.row, other) refl;
        progress = t.progress;
        ran = t.ran;
        stored_rows = t.rows;
        storing = t.storing;
        registry = f.db;
        consistent = λ h.
            subst (IsConsistent planner.sha256) (sym f.db)
              (saved-IsConsistent t.progress t.rows t.storing h);
        ids = f.ids;
        steps = f.steps;
        decisions = f.decisions;
        status =
            f.status
            ∙ decided
            ∙ sym
                (verdict-kept t.rows.ids t.progress.steps t.progress.decisions req.require_approval)
            ∙ ap (λ ts. verdict ts (reverse t.progress.decisions) req.require_approval)
                (sym f.steps)
            ∙ ap (λ ds. verdict b.steps ds req.require_approval) (sym f.decisions);
        lets = λ fine. lets (sym f.status ∙ fine);
      }

  -- The row that the new id leads to has the context of the request.
  pub build_plan-context :
      (b : Built)
      → build_plan planner policy settings plan_id new_id now req s ≡ some b
      → (p : Plan) × (find_plan plan_id b.state.plans ≡ some p) × (p.context ≡ req.context)
  unfolding plan_row
  build_plan-context b e = let h = build_plan-Built b e in (_, h.row, refl)
