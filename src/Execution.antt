-- ===== src/Execution.antt =====
-- ritesmith/core/execution.py and ritesmith/core/approval.py: the execution of an artifact.
-- The rows, the state and what the service calls outside of its own code stand here; the children
-- hold the script branch, the workflow branch, the whole of `create_execution`, and its theorems.
-- Logging and metrics are left out.
pub mod Script
pub mod Delegated
pub mod Create
pub mod Gate
pub mod Replay
pub mod Floored
pub mod Stamped
mod Tests
use package.text.Mathlib.Text.{starts_with}
use Prim.Native.String.{◌++◌}
use ritesmith.Prelude.{
  true, ℕ, String, Bool, false, ◌||◌, Option, none, some, List, ◌==◌, text_or, text_given,
  if◌then◌else◌,
}
use ritesmith.Json.{Value, text, Fields, lookup}
use ritesmith.Registry.{Db, ArtifactVersion}
use ritesmith.Policy

pub data ExecutionStatus : Type 0 where
  queued running waiting succeeded failed cancelled rejected : ExecutionStatus

-- A row of the table `executions`.
pub record Execution : Type 0 where
  pub execution_id : String
  pub artifact_id : String
  pub artifact_version : ℕ
  pub plan_id : Option String
  pub status : ExecutionStatus
  pub runtime : String
  pub input_json : Option Fields
  pub output_json : Option Fields
  pub error_json : Option Fields
  pub idempotency_key : Option String
  pub delegated_execution_id : Option String
  pub dry_run : Bool
  pub approval_token : Option String
  pub started_at : Option ℕ
  pub finished_at : Option ℕ
  pub created_at : ℕ

pub record CreateExecutionRequest : Type 0 where
  pub artifact_id : String
  pub version : Option ℕ
  pub input : Option Fields
  pub runtime : Option String
  pub dry_run : Bool
  pub approval_token : Option String
  pub idempotency_key : Option String
  pub plan_id : Option String

-- The fields of `config.Settings` that the service reads.
pub record Settings : Type 0 where
  pub policy : Policy.Settings
  pub approval_secret : Option String
  pub api_token : Option String
  pub trama_token : Option String
  pub public_url : Option String
  pub workflow_delegation_enabled : Bool
  pub workflow_engine_url : Option String
  pub audited : Bool

-- `RuntimeResult`
pub record RuntimeResult : Type 0 where
  pub output : Option Fields
  pub error : Option String
  pub timed_out : Bool

-- A call that returns or raises an exception with a message.
pub data Attempt {ℓ} (A : Type ℓ) : Type ℓ where
  returns : A → Attempt A
  raises : String → Attempt A

-- What `asyncio.create_task` was asked to run.
pub data Task : Type 0 where
  background_regen : String → ArtifactVersion → Task
  background_repair : String → ArtifactVersion → Fields → Option Fields → String → String → Task

-- What the service reads and writes: the tables, the process's set of artifacts under repair, the
-- background tasks it started and the audit log, the newest first.
pub record State : Type 0 where
  pub db : Db
  pub executions : List Execution
  pub repair_in_flight : List String
  pub tasks : List Task
  pub events : List (String × String)

-- The code outside of this model: the hash of `hmac.new` over a secret and a message, the
-- secret of the process, `str` of a number, `str.replace`, `json.loads` with the exception as
-- `none`, whether the `str` of a value contains "/trama/execute", the script runtimes (Luau?, content,
-- input, output schema, profile), the workflow engine's answer and the message of Python's
-- own errors.
pub record Environment : Type 0 where
  pub hmac : String → String → String
  pub ephemeral_secret : String
  pub str : ℕ → String
  pub is_ascii : String → Bool
  pub replace : String → String → String → String
  pub json_loads : String → Option Value
  pub mentions_execute : Value → Bool
  pub execute : Bool → String → Fields → Option Fields → Value → Attempt RuntimeResult
  pub delegate : Value → Option Fields → Attempt String
  pub python_error : String

-- `a or b` of optional texts.
unfoldable pub or_else : Option String → Option String → Option String
or_else a b = if text_given a then a else b

unfoldable pub secret : Environment → Settings → String
unfolding or_else
secret env settings =
    text_or (or_else (or_else settings.approval_secret settings.api_token) settings.trama_token)
      env.ephemeral_secret

unfoldable pub issue_approval_token : Environment → Settings → String → ℕ → String
unfolding secret
issue_approval_token env settings artifact_id version =
    env.hmac (secret env settings) (artifact_id ++ ":" ++ env.str version)

-- `compare_digest` raises TypeError for a text that is not ASCII; an empty token is not compared.
unfoldable pub is_comparable : Environment → Option String → Bool
is_comparable env none = true
is_comparable env (some token) = token == "" || env.is_ascii token

-- The answer for a token that can be compared.
unfoldable pub verify_approval_token : Environment → Settings → String → ℕ → Option String → Bool
unfolding issue_approval_token
verify_approval_token env settings artifact_id version none = false
verify_approval_token env settings artifact_id version (some token) = elim (token == "") [
  | Bool.true ↦ false
  | Bool.false ↦ issue_approval_token env settings artifact_id version == token
]

-- `error_json.get("message", "").startswith(prefix)`; the service asks for messages it has put
-- there itself, which are texts.
abbrev message_starts : Fields → String → Bool
message_starts error prefix = elim (lookup "message" error) [
  | some (text m) ↦ starts_with m prefix
  | _ ↦ starts_with "" prefix
]

unfoldable pub is_contract_crash : Fields → Bool
is_contract_crash error =
    message_starts error "Runtime error:" || message_starts error "Syntax/load error:"

unfoldable pub is_contract_violation : Fields → Bool
is_contract_violation error = message_starts error "Output schema validation failed:"
