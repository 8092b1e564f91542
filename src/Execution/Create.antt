-- ===== src/Execution/Create.antt =====
-- ExecutionService.create_execution and get_execution. The clock is read once, as `now`; the ids that
-- `generate_id` makes are arguments, and new.
use ritesmith.Prelude.{
  ℕ, String, Bool, true, Option, none, some, List, [], ◌∷◌, ◌==◌, text_given, text_or, is_text,
  if◌then◌else◌,
}
use ritesmith.Json.{Value, null, text, boolean, Fields, end, field, lookup, as_text}
use ritesmith.Registry.{Artifact, ArtifactVersion, get_artifact_with_version}
use ritesmith.Policy
use ritesmith.Policy.{Decision, allow, deny, require_approval, evaluate}
use ritesmith.Execution.{
  Execution, ExecutionStatus, queued, running, waiting, failed, rejected, CreateExecutionRequest,
  Settings, Attempt, returns, raises, State, Environment, verify_approval_token, is_comparable,
}
use ritesmith.Execution.Script.{message, log_event, run_lua}
use ritesmith.Execution.Delegated.{run_workflow}

pub data Error : Type 0 where
  not_found validation_error value_error type_error multiple_results : Error

-- A raised error leaves the transaction uncommitted, so there is no new state.
pub data Outcome {ℓ} (A : Type ℓ) : Type ℓ where
  done : A → Outcome A
  raised : Error → Outcome A

-- The schema `Execution`: what a caller sees of a row, without the token.
pub record Report : Type 0 where
  pub execution_id : String
  pub artifact_id : String
  pub artifact_version : ℕ
  pub plan_id : Option String
  pub runtime : String
  pub status : ExecutionStatus
  pub input : Option Fields
  pub output : Option Fields
  pub error : Option Fields
  pub idempotency_key : Option String
  pub delegated_execution_id : Option String
  pub dry_run : Bool
  pub started_at : Option ℕ
  pub finished_at : Option ℕ
  pub created_at : ℕ

unfoldable pub orm_to_schema : Execution → Report
orm_to_schema e = record {
  execution_id = e.execution_id;
  artifact_id = e.artifact_id;
  artifact_version = e.artifact_version;
  plan_id = e.plan_id;
  runtime = e.runtime;
  status = e.status;
  input = e.input_json;
  output = e.output_json;
  error = e.error_json;
  idempotency_key = e.idempotency_key;
  delegated_execution_id = e.delegated_execution_id;
  dry_run = e.dry_run;
  started_at = e.started_at;
  finished_at = e.finished_at;
  created_at = e.created_at;
}

-- The rows with a key.
unfoldable pub with_key : String → List Execution → List Execution
with_key key [] = []
with_key key (e ∷ rows) =
    let rest = with_key key rows in if is_text e.idempotency_key key then e ∷ rest else rest

-- `scalar_one_or_none`
unfoldable pub one_or_none : List Execution → Outcome (Option Execution)
one_or_none [] = done none
one_or_none (e ∷ []) = done (some e)
one_or_none (_ ∷ _ ∷ _) = raised multiple_results

unfoldable pub find_by_idempotency_key : String → List Execution → Outcome (Option Execution)
unfolding with_key one_or_none
find_by_idempotency_key key rows = one_or_none (with_key key rows)

unfoldable pub with_id : String → List Execution → Option Execution
with_id id [] = none
with_id id (e ∷ rows) = if e.execution_id == id then some e else with_id id rows

unfoldable pub get_execution : String → State → Outcome Report
unfolding with_id
get_execution id s = elim (with_id id s.executions) [
  | some e ↦ done (orm_to_schema e)
  | none ↦ raised not_found
]

unfoldable pub metadata_of : ArtifactVersion → Fields
metadata_of version = elim version.metadata [ none ↦ end | some fs ↦ fs ]

-- A field `str | None` of a request that is validated as it is made.
unfoldable pub text_or_none : Option Value → Outcome (Option String)
text_or_none none = done none
text_or_none (some null) = done none
text_or_none (some (text s)) = done (some s)
text_or_none (some _) = raised validation_error

infixl 5 ◌>>=◌
abbrev pub ◌>>=◌ {ℓ κ} : {A : Type ℓ} {B : Type κ} → Outcome A → (A → Outcome B) → Outcome B
done a >>= f = f a
raised e >>= f = raised e

unfoldable pub policy_request : Artifact → ArtifactVersion → Outcome Policy.Request
unfolding metadata_of text_or_none
policy_request artifact version = do
  profile ← text_or_none (lookup "runtime_profile" (metadata_of version))
  certification ← text_or_none (lookup "certification" (metadata_of version))
  done (record {
    operation = "execute";
    artifact_type = some artifact.artifact_type;
    risk_level = some (text_or version.risk_level "low");
    runtime_profile = profile;
    manual = is_text (as_text (lookup "source" (metadata_of version))) "manual";
    certification = certification;
  })

unfoldable pub decision : Settings → Artifact → ArtifactVersion → Outcome Decision
unfolding policy_request
decision settings artifact version = do
  req ← policy_request artifact version
  elim (evaluate settings.policy req) [ some d ↦ done d | none ↦ raised value_error ]

-- The profile that a script runs under.
unfoldable pub profile_of : ArtifactVersion → Value
unfolding metadata_of
profile_of version = elim (lookup "runtime_profile" (metadata_of version)) [
  | some v ↦ v
  | none ↦ text "transform_only"
]

-- The row that the session holds is in the table once it is flushed.
unfoldable pub saved : Execution × State → Execution × State
saved (e, s) = (e, record s { executions = e ∷ s.executions })

unfoldable pub new_execution :
    String → ℕ → CreateExecutionRequest → Artifact → ArtifactVersion → Execution
new_execution id now req artifact version = record {
  execution_id = id;
  artifact_id = req.artifact_id;
  artifact_version = version.version;
  plan_id = req.plan_id;
  status = queued;
  runtime = text_or req.runtime artifact.artifact_type;
  input_json = req.input;
  output_json = none;
  error_json = none;
  idempotency_key = req.idempotency_key;
  delegated_execution_id = none;
  dry_run = req.dry_run;
  approval_token = req.approval_token;
  started_at = none;
  finished_at = none;
  created_at = now;
}

-- The row of an earlier request with the same key.
unfoldable pub existing : CreateExecutionRequest → State → Outcome (Option Execution)
unfolding find_by_idempotency_key
existing req s =
    if text_given req.idempotency_key
    then find_by_idempotency_key (text_or req.idempotency_key "") s.executions
    else done none

module _ (env : Environment) (settings : Settings) (exec_id trama_id : String) (now : ℕ) where
  unfoldable pub route :
      CreateExecutionRequest
      → Artifact
      → ArtifactVersion
      → Execution
      → State
      → Attempt (Execution × State)
  unfolding profile_of
  route req artifact version e s =
      if artifact.artifact_type == "trama_workflow"
      then run_workflow env trama_id settings e version.content req.input s
      else run_lua env now settings e version req.input (profile_of version) artifact.artifact_type
          s

  -- An exception marks the execution as failed.
  unfoldable pub caught : Execution → State → Attempt (Execution × State) → Execution × State
  unfolding log_event
  caught e s (returns r) = r
  caught e s (raises m) = (
    record e { status = failed; error_json = some (message m); finished_at = some now },
    log_event settings "execution.failed" e.execution_id s,
  )

  unfoldable pub start :
      CreateExecutionRequest → Artifact → ArtifactVersion → Execution → State → Execution × State
  unfolding route caught log_event
  start req artifact version e s =
      let e' = record e { status = running; started_at = some now } in
      let s' = log_event settings "execution.started" e.execution_id s in
      caught e' s' (route req artifact version e' s')

  unfoldable pub reject : Decision → Execution → State → Execution × State
  unfolding log_event
  reject d e s = (
    record e {
      status = rejected;
      error_json = some (field "reason" (text d.reason) end);
      finished_at = some now;
    },
    log_event settings "execution.rejected" e.execution_id s,
  )

  unfoldable pub await_approval : Decision → Execution → State → Execution × State
  await_approval d e s = (
    record e {
      status = waiting;
      error_json =
          some (field "reason" (text d.reason) (field "requires_approval" (boolean true) end));
    },
    s,
  )

  -- What follows the decision of the policy; the Boolean is whether the approval token is valid.
  unfoldable pub act_on :
      Decision
      → Bool
      → CreateExecutionRequest
      → Artifact
      → ArtifactVersion
      → Execution
      → State
      → Execution × State
  unfolding reject await_approval start
  act_on d approved req artifact version e s = elim d.value [
    | deny ↦ reject d e s
    | allow ↦ start req artifact version e s
    | require_approval ↦ (if approved then start req artifact version e s else await_approval d e s)
  ]

  unfoldable pub readable : Option String → Outcome (Unit {0})
  readable token = if is_comparable env token then done tt else raised type_error

  -- The token is looked at unless the policy denies.
  unfoldable pub read_token : Decision → Option String → Outcome (Unit {0})
  unfolding readable
  read_token d token = elim d.value [
    | deny ↦ done tt
    | allow ↦ readable token
    | require_approval ↦ readable token
  ]

  unfoldable pub execute_new :
      CreateExecutionRequest → Artifact → ArtifactVersion → State → Outcome (Report × State)
  unfolding decision read_token act_on new_execution saved verify_approval_token orm_to_schema
  execute_new req artifact version s = do
    d ← decision settings artifact version
    _ ← read_token d req.approval_token
    let approved =
        verify_approval_token env settings req.artifact_id version.version req.approval_token
    let (e, s') =
        saved (
          act_on d approved req artifact version (new_execution exec_id now req artifact version) s)
    done (orm_to_schema e, s')

  unfoldable pub create_new : CreateExecutionRequest → State → Outcome (Report × State)
  unfolding execute_new
  create_new req s = elim (get_artifact_with_version req.artifact_id req.version s.db) [
    | none ↦ raised not_found
    | some (artifact, version) ↦ execute_new req artifact version s
  ]

  -- What follows the lookup of the key.
  unfoldable pub replay_or_create :
      CreateExecutionRequest → State → Outcome (Option Execution) → Outcome (Report × State)
  unfolding create_new orm_to_schema
  replay_or_create req s (raised e) = raised e
  replay_or_create req s (done (some e)) = done (orm_to_schema e, s)
  replay_or_create req s (done none) = create_new req s

  unfoldable pub create_execution : CreateExecutionRequest → State → Outcome (Report × State)
  unfolding replay_or_create
  create_execution req s = replay_or_create req s (existing req s)
