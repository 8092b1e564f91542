-- ===== src/Execution/Gate.antt =====
-- What a new execution leaves behind, and when it starts: create_execution of core/execution.py.
use ritesmith.Prelude.{
  ℕ, String, ◌≡◌, refl, sym, ap, subst, ◌∙◌, ◌⊎◌, inl, inr, Bool, true, false, Option, none, some,
  ◌∷◌, arith, Bool-cases, ◌==◌,
}
use ritesmith.Json.{Value, Fields}
use ritesmith.Registry.{Artifact, ArtifactVersion}
use ritesmith.Policy.{Decision, allow, deny, require_approval}
use ritesmith.Execution.{
  Execution, ExecutionStatus, running, waiting, succeeded, failed, rejected, CreateExecutionRequest,
  Settings, Attempt, returns, raises, State, Environment, RuntimeResult, verify_approval_token,
}
use ritesmith.Execution.Script.{
  log_event, run_lua, after_run, on_error, finish, handle_contract_violation, deprecate_and_regen,
}
use ritesmith.Execution.Delegated.{
  run_workflow, hand_over, delegate_bound, bound, parsed, substituted,
}
use ritesmith.Execution.Create.{
  start, route, caught, act_on, read_token, profile_of, Outcome, Error, done, raised, Report,
  orm_to_schema, decision, execute_new, saved, new_execution, reject, await_approval,
}

-- The time at which an execution of a status ended: none yet where it waits for an approval or for
-- the engine. A service that returns leaves no other status behind.
abbrev pub finish_time : ℕ → ExecutionStatus → Option (Option ℕ)
finish_time now waiting = some none
finish_time now succeeded = some (some now)
finish_time now failed = some (some now)
finish_time now rejected = some (some now)
finish_time now _ = none

abbrev pub Settled : ℕ → Execution → Type 0
Settled now e = finish_time now e.status ≡ some e.finished_at

-- What a step from `(e, s)` keeps.
abbrev pub Kept : Execution → State → Execution × State → Type 0
Kept e s (e', s') =
    (e'.idempotency_key ≡ e.idempotency_key)
    × (s'.executions ≡ s.executions)
    × (e'.artifact_id ≡ e.artifact_id)
    × (e'.started_at ≡ e.started_at)

pub log_event-executions :
    (settings : Settings) (event id : String) (s : State)
    → (log_event settings event id s).executions ≡ s.executions
unfolding log_event
log_event-executions settings event id s = ground arith

on_error-executions :
    (now : ℕ) (settings : Settings) (e : Execution) (v : ArtifactVersion) (i : Fields)
    (o : Option Fields) (m t : String) (s : State)
    → (on_error now settings e v i o m t s).executions ≡ s.executions
unfolding on_error deprecate_and_regen handle_contract_violation
on_error-executions now settings e v i o m t s =
    ground (arith, log_event-executions settings "execution.contract_violation" e.execution_id s)

after_run-Kept :
    (now : ℕ) (settings : Settings) (e : Execution) (v : ArtifactVersion) (i : Fields) (t : String)
    (r : RuntimeResult) (s : State)
    → Kept e s (after_run now settings e v i t r s)
      × Settled now ((after_run now settings e v i t r s).0)
unfolding after_run finish
after_run-Kept now settings e v i t r s = grind (arith, log_event-executions, on_error-executions)

-- What a route keeps where it returns.
abbrev Well : ℕ → Execution → State → Attempt (Execution × State) → Type 0
Well now e s (returns r) = Kept e s r × Settled now (r.0)
Well now e s (raises m) = Unit

run_lua-Well :
    (env : Environment) (now : ℕ) (settings : Settings) (e : Execution) (v : ArtifactVersion)
    (i : Option Fields) (p : Value) (t : String) (s : State)
    → Well now e s (run_lua env now settings e v i p t s)
unfolding run_lua
run_lua-Well env now settings e v i p t s = grind (arith, after_run-Kept)

hand_over-Well :
    (env : Environment) (id : String) (now : ℕ) (settings : Settings) (e : Execution)
    (i : Option Fields) (s : State) (d : Value)
    → Well now e s (hand_over env id settings e i s d)
unfolding hand_over
hand_over-Well env id now settings e i s d = grind (arith, log_event-executions)

delegate_bound-Well :
    (env : Environment) (id : String) (now : ℕ) (settings : Settings) (e : Execution)
    (i : Option Fields) (s : State) (d : Attempt Value)
    → Well now e s (delegate_bound env id settings e i s d)
unfolding delegate_bound
delegate_bound-Well env id now settings e i s (raises m) = tt
delegate_bound-Well env id now settings e i s (returns d) =
    hand_over-Well env id now settings e i s d

run_workflow-Well :
    (env : Environment) (id : String) (now : ℕ) (settings : Settings) (e : Execution) (c : String)
    (i : Option Fields) (s : State)
    → Well now e s (run_workflow env id settings e c i s)
unfolding run_workflow
run_workflow-Well env id now settings e c i s =
    delegate_bound-Well env id now settings e i s
      (bound env settings e (parsed env (substituted env settings e c)))

read-cases : (o : Outcome (Unit {0})) → ((why : Error) × (o ≡ raised why)) ⊎ (o ≡ done tt)
read-cases (done _) = inr refl
read-cases (raised why) = inl (why, refl)

decided-cases :
    (o : Outcome Decision) → ((e : Error) × (o ≡ raised e)) ⊎ ((d : Decision) × (o ≡ done d))
decided-cases (raised e) = inl (e, refl)
decided-cases (done d) = inr (d, refl)

module _ (env : Environment) (settings : Settings) (exec_id trama_id : String) (now : ℕ) where
  route-Well :
      (req : CreateExecutionRequest) (a : Artifact) (v : ArtifactVersion) (e : Execution)
      (s : State)
      → Well now e s (route env settings exec_id trama_id now req a v e s)
  unfolding route
  route-Well req a v e s = elim (Bool-cases (a.artifact_type == "trama_workflow")) [
    | inl workflow ↦
        rw workflow (run_workflow-Well env trama_id now settings e v.content req.input s)
    | inr script ↦
        rw script (run_lua-Well env now settings e v req.input (profile_of v) a.artifact_type s)
  ]

  caught-Well :
      (e : Execution) (s : State) (r : Attempt (Execution × State))
      → Well now e s r
      → Kept e s (caught env settings exec_id trama_id now e s r)
        × Settled now ((caught env settings exec_id trama_id now e s r).0)
  unfolding caught
  caught-Well e s (returns r) h = h
  caught-Well e s (raises m) h =
      ground (arith, log_event-executions settings "execution.failed" e.execution_id s)

  -- The policy allows the execution, or asks for an approval that is there.
  abbrev pub Permits : Decision → Bool → Type 0
  Permits d approved = (d.value ≡ allow) ⊎ ((d.value ≡ require_approval) × (approved ≡ true))

  -- Nothing ran: no start, no output, no delegation, no change to the registry, no task.
  abbrev pub Idle : State → Execution × State → Type 0
  Idle s r =
      (r.0.started_at ≡ none)
      × (r.0.output_json ≡ none)
      × (r.0.delegated_execution_id ≡ none)
      × (r.1.db ≡ s.db)
      × (r.1.tasks ≡ s.tasks)
      × (r.1.repair_in_flight ≡ s.repair_in_flight)

  abbrev Recorded : Execution → State → Execution × State → Type 0
  Recorded e s r =
      (r.0.idempotency_key ≡ e.idempotency_key)
      × (r.1.executions ≡ s.executions)
      × Settled now (r.0)

  value-cases :
      (d : Decision) → (d.value ≡ allow) ⊎ ((d.value ≡ deny) ⊎ (d.value ≡ require_approval))
  value-cases d = ground arith

  start-Recorded :
      (req : CreateExecutionRequest) (a : Artifact) (v : ArtifactVersion) (e : Execution)
      (s : State)
      → Recorded e s (start env settings exec_id trama_id now req a v e s)
  unfolding start
  start-Recorded req a v e s =
      let e' = record e { status = running; started_at = some now } in
      let s' = log_event settings "execution.started" e.execution_id s in
      let h =
        caught-Well e' s' (route env settings exec_id trama_id now req a v e' s')
          (route-Well req a v e' s') in
      (h.0.0, h.0.1 ∙ log_event-executions settings "execution.started" e.execution_id s, h.1)

  pub act_on-Recorded :
      (d : Decision) (approved : Bool) (req : CreateExecutionRequest) (a : Artifact)
      (v : ArtifactVersion) (e : Execution) (s : State)
      → e.finished_at ≡ none
      → Recorded e s (act_on env settings exec_id trama_id now d approved req a v e s)
  unfolding act_on reject await_approval
  act_on-Recorded d true req a v e s fresh = elim (value-cases d) [
    | inl allowed ↦ rw allowed (start-Recorded req a v e s)
    | inr (inl denied) ↦
        rw denied (refl, log_event-executions settings "execution.rejected" e.execution_id s, refl)
    | inr (inr asked) ↦ rw asked (start-Recorded req a v e s)
  ]
  act_on-Recorded d false req a v e s fresh = elim (value-cases d) [
    | inl allowed ↦ rw allowed (start-Recorded req a v e s)
    | inr (inl denied) ↦
        rw denied (refl, log_event-executions settings "execution.rejected" e.execution_id s, refl)
    | inr (inr asked) ↦ rw asked (refl, refl, ap some (sym fresh))
  ]

  pub act_on-Idle :
      (d : Decision) (approved : Bool) (req : CreateExecutionRequest) (a : Artifact)
      (v : ArtifactVersion) (e : Execution) (s : State)
      → (e.started_at ≡ none) × (e.output_json ≡ none) × (e.delegated_execution_id ≡ none)
      → Permits d approved
        ⊎ Idle s (act_on env settings exec_id trama_id now d approved req a v e s)
  unfolding act_on reject await_approval log_event
  act_on-Idle d true req a v e s fresh = elim (value-cases d) [
    | inl allowed ↦ inl (inl allowed)
    | inr (inl denied) ↦ inr (rw denied (ground arith))
    | inr (inr asked) ↦ inl (inr (asked, refl))
  ]
  act_on-Idle d false req a v e s fresh = elim (value-cases d) [
    | inl allowed ↦ inl (inl allowed)
    | inr (inl denied) ↦ inr (rw denied (ground arith))
    | inr (inr asked) ↦ inr (rw asked (ground arith))
  ]

  -- What a new execution comes to: the decision, the row, and what either says of the other.
  abbrev pub Came :
      CreateExecutionRequest → Artifact → ArtifactVersion → State → Report × State → Type 0
  Came req a v s (r, s') =
      (d : Decision) × (e : Execution) × (decision settings a v ≡ done d)
      × (r ≡ orm_to_schema e)
      × (s'.executions ≡ e ∷ s.executions)
      × (e.idempotency_key ≡ req.idempotency_key)
      × Settled now e
      × (Permits d (verify_approval_token env settings req.artifact_id v.version req.approval_token)
          ⊎ Idle s (e, s'))

  pub execute_new-Came :
      (req : CreateExecutionRequest) (a : Artifact) (v : ArtifactVersion) (s : State)
      (r : Report × State)
      → execute_new env settings exec_id trama_id now req a v s ≡ done r
      → Came req a v s r
  unfolding execute_new saved new_execution
  execute_new-Came req a v s r h = elim (decided-cases (decision settings a v)) [
    | inl (err, wrong) ↦ absurd (ground arith)
    | inr (d, decided) ↦
        elim (read-cases (read_token env settings exec_id trama_id now d req.approval_token)) [
          | inl (why, unreadable) ↦ absurd (ground arith)
          | inr compared ↦
              let approved =
                verify_approval_token env settings req.artifact_id v.version req.approval_token in
              let e = new_execution exec_id now req a v in
              let new = act_on env settings exec_id trama_id now d approved req a v e s in
              let rec = act_on-Recorded d approved req a v e s refl in
              let idle = act_on-Idle d approved req a v e s (refl, refl, refl) in
              let same : (
                orm_to_schema (new.0),
                record (new.1) { executions = new.0 ∷ (new.1).executions },
              )
                  ≡ r =
                ground arith in
              subst (Came req a v s) same
                (d, new.0, decided, refl, ap (◌∷◌ (new.0)) (rec.1), rec.0, rec.2, idle)
        ]
  ]
