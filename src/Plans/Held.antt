-- ===== src/Plans/Held.antt =====
-- An approved plan whose artifact needs an approval of its own: _auto_execute of ritesmith/api/routes/plans.py over
-- create_execution of core/execution.py.
use ritesmith.Prelude.{
  ℕ, String, ◌≡◌, refl, sym, ap, ◌∙◌, Bool, true, false, Option, none, some, ◌∷◌, arith, ◌==◌,
  eq_refl, subst, if◌then◌else◌,
}
use ritesmith.Json.{Fields}
use ritesmith.Registry.{Artifact, ArtifactVersion, get_artifact_with_version}
use ritesmith.Policy.{Decision, require_approval}
use ritesmith.Execution.{
  Execution, waiting, Settings, Environment, verify_approval_token, is_comparable,
}
use ritesmith.Execution.Create.{
  done, Report, orm_to_schema, new_execution, decision, await_approval, read_token, readable,
  act_on, saved, execute_new, create_new, existing, replay_or_create, create_execution,
}
use ritesmith.Plans.{approved, executing, Plan, State, find_plan, write_plan, status_eq}
use ritesmith.Plans.Lifecycle.{store_plan}
use ritesmith.Plans.Board.{board}
use ritesmith.Plans.Refined.{find_plan-id, status-write_plan}
use ritesmith.Plans.Running.{
  Capability, bare, run_plan, continuation, continuation_input, follow, auto_execute,
}

module _ (env : Environment) (settings : Settings) (exec_id trama_id : String) (now : ℕ)
    (input : Option Fields) (k artifact_id : String) (s : State) (a : Artifact)
    (v : ArtifactVersion) (d : Decision)
    (found : get_artifact_with_version artifact_id none s.service.db ≡ some (a, v))
    (decided : decision settings a v ≡ done d) (asked : d.value ≡ require_approval) where
  -- The execution that waits for its approval.
  abbrev pub held : Execution
  unfolding await_approval new_execution
  held =
      (await_approval env settings exec_id trama_id now d
        (new_execution exec_id now (bare artifact_id input (some k)) a v) s.service).0

  act_on-held :
      (e : Execution)
      → act_on env settings exec_id trama_id now d false
          (bare artifact_id input (some k))
          a
          v
          e
          s.service
        ≡ await_approval env settings exec_id trama_id now d e s.service
  unfolding act_on
  act_on-held e = ground arith

  read_token-none : read_token env settings exec_id trama_id now d none ≡ done tt
  unfolding read_token readable is_comparable
  read_token-none = rw asked refl

  execute_new-held :
      execute_new env settings exec_id trama_id now (bare artifact_id input (some k)) a v s.service
      ≡ done (orm_to_schema held, record s.service { executions = held ∷ s.service.executions })
  unfolding execute_new saved verify_approval_token held await_approval new_execution
  execute_new-held =
      rw (decided, read_token-none)
        (ap (λ r. done (orm_to_schema (r.0), record (r.1) { executions = r.0 ∷ (r.1).executions }))
          (act_on-held (new_execution exec_id now (bare artifact_id input (some k)) a v)))

  create_new-held :
      create_new env settings exec_id trama_id now (bare artifact_id input (some k)) s.service
      ≡ done (orm_to_schema held, record s.service { executions = held ∷ s.service.executions })
  unfolding create_new
  create_new-held = rw (found, create_new) execute_new-held

  create_execution-held :
      create_execution env settings exec_id trama_id now (bare artifact_id input (some k)) s.service
      ≡ done (orm_to_schema held, record s.service { executions = held ∷ s.service.executions })
  unfolding create_execution replay_or_create existing
  create_execution-held = create_new-held

  ran :
      (capabilities : String → Option Capability) (describe : Report → Option String) (p : Plan)
      → p.status ≡ approved
      → run_plan env settings capabilities exec_id trama_id now describe artifact_id k
          (some p)
          s
          (some input)
        ≡ record s {
          plans = write_plan p.plan_id (λ row. record row { status = executing }) s.plans;
          service = record s.service { executions = held ∷ s.service.executions };
        }
  unfolding run_plan follow store_plan held await_approval new_execution orm_to_schema
  ran capabilities describe p fine = rw (create_execution-held, fine) (unfold status_eq in refl)

  -- The plan is approved and its artifact needs an approval: the run leaves an execution that waits and has not
  -- started, and no task, and yet it moves the plan to executing. This holds for every plan in the table whose continuation, if
  -- it has one, is an object.
  pub auto_execute-held :
      (capabilities : String → Option Capability) (describe : Report → Option String) (p : Plan)
      → find_plan k s.plans ≡ some p
      → p.status ≡ approved
      → continuation_input (continuation (some p)) ≡ some input
      → let s' =
          auto_execute env settings capabilities exec_id trama_id now describe artifact_id k s in
        (board s' k ≡ some executing)
        × (s'.service.executions ≡ held ∷ s.service.executions)
        × (held.status ≡ waiting)
        × (held.started_at ≡ none)
        × (s'.service.tasks ≡ s.service.tasks)
  unfolding held await_approval new_execution auto_execute
  auto_execute-held capabilities describe p there fine given =
      let f : Plan → Plan = λ row. record row { status = executing } in
      let next = record s {
        plans = write_plan p.plan_id f s.plans;
        service = record s.service { executions = held ∷ s.service.executions };
      } in
      let same : p.plan_id ≡ k = find_plan-id k s.plans p there in
      let e : auto_execute env settings capabilities exec_id trama_id now describe artifact_id k s
          ≡ next =
        rw (there, given) (ran capabilities describe p fine) in
      let shown : board next k ≡ some executing =
        status-write_plan p.plan_id k executing f (λ q. refl) (λ q. refl) s.plans p
          (subst (λ i. find_plan i s.plans ≡ some p) (sym same) there)
        ∙ ap (λ (g : Bool). if g then some executing else board s k)
            (subst (λ i. (i == k) ≡ true) (sym same) (eq_refl k)) in
      (
        ap (λ t. board t k) e ∙ shown,
        ap (λ t. t.service.executions) e,
        refl,
        refl,
        ap (λ t. t.service.tasks) e,
      )
