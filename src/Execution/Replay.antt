-- ===== src/Execution/Replay.antt =====
-- create_execution of core/execution.py from its state to the next: permission, settlement, and the
-- idempotency keys.
use ritesmith.Prelude.{
  ℕ, ◌≤◌, String, ◌≡◌, refl, sym, ap, ◌∙◌, subst, ◌⊎◌, inl, inr, true, Option, none, some, List, [],
  ◌∷◌, arith, eq_iff, Option-cases, Bool-cases, text_given, is_text, length, if◌then◌else◌, eq_refl,
}
use ritesmith.Registry.{Artifact, ArtifactVersion, get_artifact_with_version}
use ritesmith.Policy.{Decision}
use ritesmith.Execution.{
  Execution, CreateExecutionRequest, Settings, State, Environment, verify_approval_token,
}
use ritesmith.Execution.Create.{
  Outcome, done, Report, orm_to_schema, with_key, one_or_none, find_by_idempotency_key, decision,
  create_new, existing, create_execution,
}
use ritesmith.Execution.Gate.{finish_time, Permits, Came, execute_new-Came}

-- At most one row has the key.
abbrev pub Single : String → State → Type 0
Single key s = length (with_key key s.executions) ≤ 1

with_key-cons :
    (key : String) (e : Execution) (rows : List Execution)
    → with_key key (e ∷ rows)
      ≡ (if is_text e.idempotency_key key then e ∷ with_key key rows else with_key key rows)
unfolding with_key
with_key-cons key e rows = refl

is_text-eq : (o : Option String) (key : String) → is_text o key ≡ true → o ≡ some key
is_text-eq none key h = absurd (ground arith)
is_text-eq (some t) key h = ap some ((eq_iff t key).0 h)

one_or_none-eq-none : (rows : List Execution) → one_or_none rows ≡ done none → rows ≡ []
unfolding one_or_none
one_or_none-eq-none [] h = refl
one_or_none-eq-none (e ∷ []) h = absurd (ground arith)
one_or_none-eq-none (e ∷ f ∷ rows) h = absurd (ground arith)

module _ (env : Environment) (settings : Settings) (exec_id trama_id : String) (now : ℕ) where
  abbrev create : CreateExecutionRequest → State → Outcome (Report × State)
  create = create_execution env settings exec_id trama_id now

  fresh-Came :
      (req : CreateExecutionRequest) (s s' : State) (r : Report)
      → existing req s ≡ done none
      → create req s ≡ done (r, s')
      → (a : Artifact) × (v : ArtifactVersion) × (get_artifact_with_version req.artifact_id
            req.version s.db
          ≡ some (a, v))
        × Came env settings exec_id trama_id now req a v s (r, s')
  unfolding create_execution create_new
  fresh-Came req s s' r fresh h =
      elim (Option-cases (get_artifact_with_version req.artifact_id req.version s.db)) [
        | inl missing ↦ absurd (ground arith)
        | inr ((a, v), found) ↦ (
          a,
          v,
          found,
          execute_new-Came env settings exec_id trama_id now req a v s (r, s') (ground arith),
        )
      ]

  -- A new execution that returns is one of an artifact version that is there and that the policy has
  -- decided on. Either the policy allows it, or it asks for an approval and the token is valid for
  -- this artifact and version, or the execution has not started, has no output and was not
  -- delegated, and the registry, the background tasks and the set of artifacts under repair are as
  -- they were.
  pub create_execution-Permits :
      (req : CreateExecutionRequest) (s s' : State) (r : Report)
      → existing req s ≡ done none
      → create_execution env settings exec_id trama_id now req s ≡ done (r, s')
      → (a : Artifact) × (v : ArtifactVersion) × (d : Decision) × (get_artifact_with_version
            req.artifact_id req.version s.db
          ≡ some (a, v))
        × (decision settings a v ≡ done d)
        × (Permits env settings exec_id trama_id now d
              (verify_approval_token env settings req.artifact_id v.version req.approval_token)
            ⊎ ((r.started_at ≡ none)
                × (r.output ≡ none)
                × (r.delegated_execution_id ≡ none)
                × (s'.db ≡ s.db)
                × (s'.tasks ≡ s.tasks)
                × (s'.repair_in_flight ≡ s.repair_in_flight)))
  unfolding orm_to_schema
  create_execution-Permits req s s' r fresh h =
      let (a, v, found, (d, e, decided, same, _, _, _, gate)) = fresh-Came req s s' r fresh h in
      (a, v, d, found, decided, elim gate [ inl ok ↦ inl ok | inr idle ↦ inr (ground arith) ])

  -- A new execution that returns has succeeded, failed or been rejected, and finished at the time of
  -- the call, or it waits and has not finished: it is left neither queued nor running.
  pub create_execution-Settled :
      (req : CreateExecutionRequest) (s s' : State) (r : Report)
      → existing req s ≡ done none
      → create_execution env settings exec_id trama_id now req s ≡ done (r, s')
      → finish_time now r.status ≡ some r.finished_at
  unfolding orm_to_schema
  create_execution-Settled req s s' r fresh h =
      let (_, _, _, (_, e, _, same, _, _, settled, _)) = fresh-Came req s s' r fresh h in
      subst (λ (q : Report). finish_time now q.status ≡ some q.finished_at) (sym same) settled

-- What a key finds after a new execution.
with_key-create :
    (env : Environment) (settings : Settings) (exec_id trama_id : String) (now : ℕ)
    (req : CreateExecutionRequest) (s s' : State) (r : Report) (key : String)
    → existing req s ≡ done none
    → create_execution env settings exec_id trama_id now req s ≡ done (r, s')
    → (e : Execution) × (r ≡ orm_to_schema e)
      × (with_key key s'.executions ≡ (
          if is_text req.idempotency_key key
          then e ∷ with_key key s.executions
          else with_key key s.executions))
with_key-create env settings exec_id trama_id now req s s' r key fresh h =
    let (_, _, _, (_, e, _, same, rows, keyed, _, _)) =
      fresh-Came env settings exec_id trama_id now req s s' r fresh h in
    (e, same, rw (rows, with_key-cons key e s.executions, keyed) refl)

existing-with_key :
    (req : CreateExecutionRequest) (s : State) (key : String)
    → req.idempotency_key ≡ some key
    → text_given (some key) ≡ true
    → existing req s ≡ one_or_none (with_key key s.executions)
unfolding existing find_by_idempotency_key
existing-with_key req s key h given = ground arith

-- After a request with an idempotency key that was new and returned, a request with the same key
-- is answered with the same report and changes nothing, whatever else it asks for and whatever the
-- environment and the settings are by then.
pub create_execution-replay :
    (env env' : Environment) (settings settings' : Settings)
    (exec_id trama_id exec_id' trama_id' : String) (now now' : ℕ)
    (req req' : CreateExecutionRequest) (s s' : State) (r : Report) (key : String)
    → req.idempotency_key ≡ some key
    → req'.idempotency_key ≡ some key
    → text_given (some key) ≡ true
    → existing req s ≡ done none
    → create_execution env settings exec_id trama_id now req s ≡ done (r, s')
    → create_execution env' settings' exec_id' trama_id' now' req' s' ≡ done (r, s')
unfolding create_execution
create_execution-replay env env' settings settings' exec_id trama_id exec_id' trama_id' now now' req
      req' s s' r key k k' given fresh h =
    let (e, same, rows) =
      with_key-create env settings exec_id trama_id now req s s' r key fresh h in
    let before =
      one_or_none-eq-none (with_key key s.executions)
        (sym (existing-with_key req s key k given) ∙ fresh) in
    let after : existing req' s' ≡ done (some e) =
      existing-with_key req' s' key k' given
      ∙ (rw (rows, k, eq_refl key, before) (unfold one_or_none in refl)) in
    rw (after, same) refl

one_or_none-some :
    (rows : List Execution) → length rows ≤ 1 → (o : Option Execution) × (one_or_none rows ≡ done o)
unfolding one_or_none
one_or_none-some [] h = (none, refl)
one_or_none-some (e ∷ []) h = (some e, refl)
one_or_none-some (e ∷ f ∷ rows) h = absurd (omega arith)

create_execution-existing :
    (env : Environment) (settings : Settings) (exec_id trama_id : String) (now : ℕ)
    (req : CreateExecutionRequest) (s s' : State) (r : Report)
    → create_execution env settings exec_id trama_id now req s ≡ done (r, s')
    → (s ≡ s') ⊎ (existing req s ≡ done none)
unfolding create_execution
create_execution-existing env settings exec_id trama_id now req s s' r h = ground arith

-- If at most one row has each key that is not empty, the same holds after a request that returns.
pub create_execution-Single :
    (env : Environment) (settings : Settings) (exec_id trama_id : String) (now : ℕ)
    (req : CreateExecutionRequest) (s s' : State) (r : Report)
    → ((key : String) → text_given (some key) ≡ true → Single key s)
    → create_execution env settings exec_id trama_id now req s ≡ done (r, s')
    → (key : String) → text_given (some key) ≡ true
    → Single key s'
create_execution-Single env settings exec_id trama_id now req s s' r single h key given =
    elim (create_execution-existing env settings exec_id trama_id now req s s' r h) [
      | inl same ↦ subst (Single key) same (single key given)
      | inr fresh ↦
          let (e, _, rows) =
            with_key-create env settings exec_id trama_id now req s s' r key fresh h in
          elim (Bool-cases (is_text req.idempotency_key key)) [
            | inl mine ↦
                let known : req.idempotency_key ≡ some key =
                  is_text-eq req.idempotency_key key mine in
                let before =
                  one_or_none-eq-none (with_key key s.executions)
                    (sym (existing-with_key req s key known given) ∙ fresh) in
                rw (rows, mine, before) (omega arith)
            | inr other ↦ rw (rows, other) (single key given)
          ]
    ]
