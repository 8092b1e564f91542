-- ===== src/Execution/Script.antt =====
-- ExecutionService._run_lua with _deprecate_and_regen and _handle_contract_violation.
use ritesmith.Prelude.{
  ℕ, String, true, Option, none, some, ◌∷◌, ◌==◌, elem, text_given, text_or, if◌then◌else◌,
}
use ritesmith.Json.{Value, text, boolean, Fields, end, field}
use ritesmith.Registry.{Db, ArtifactVersion, ok, err, update_artifact_status}
use ritesmith.Execution.{
  Execution, succeeded, failed, Settings, RuntimeResult, Attempt, returns, raises, background_regen,
  background_repair, State, Environment, is_contract_crash, is_contract_violation,
}

-- `self.audit.log_event`, where there is an audit logger.
unfoldable pub log_event : Settings → String → String → State → State
log_event settings event id s =
    if settings.audited then record s { events = (event, id) ∷ s.events } else s

-- `{"message": m}`
abbrev pub message : String → Fields
message m = field "message" (text m) end

-- The exception of a refused transition is caught.
unfoldable pub deprecate : ℕ → String → Db → Db
deprecate now artifact_id db = elim (update_artifact_status now artifact_id "deprecated" db) [
  | ok db' ↦ db'
  | err _ ↦ db
]

unfoldable pub deprecate_and_regen : ℕ → String → ArtifactVersion → State → State
unfolding deprecate
deprecate_and_regen now artifact_id version s = record s {
  db = deprecate now artifact_id s.db;
  tasks = background_regen artifact_id version ∷ s.tasks;
}

unfoldable pub handle_contract_violation :
    String → ArtifactVersion → Fields → Option Fields → String → String → State → State
handle_contract_violation artifact_id version input bad_output schema_error artifact_type s =
    if elem artifact_id s.repair_in_flight then s else record s {
      repair_in_flight = artifact_id ∷ s.repair_in_flight;
      tasks =
          background_repair artifact_id version input bad_output schema_error artifact_type
          ∷ s.tasks;
    }

-- `input_data or {}`
unfoldable pub given_input : Option Fields → Fields
given_input none = end
given_input (some fs) = fs

unfoldable pub on_error :
    ℕ
    → Settings
    → Execution
    → ArtifactVersion
    → Fields
    → Option Fields
    → String
    → String
    → State
    → State
unfolding is_contract_crash is_contract_violation deprecate_and_regen handle_contract_violation
    log_event
on_error now settings e version input output error artifact_type s =
    if is_contract_crash (message error)
    then deprecate_and_regen now e.artifact_id version s
    else if is_contract_violation (message error)
    then handle_contract_violation e.artifact_id version input output error artifact_type
        (log_event settings "execution.contract_violation" e.execution_id s)
    else s

unfoldable pub finish : ℕ → Settings → Execution → State → Execution × State
unfolding log_event
finish now settings e s =
    (record e { finished_at = some now }, log_event settings "execution.completed" e.execution_id s)

-- What follows the run of a script.
unfoldable pub after_run :
    ℕ
    → Settings
    → Execution
    → ArtifactVersion
    → Fields
    → String
    → RuntimeResult
    → State
    → Execution × State
unfolding on_error finish
after_run now settings e version input artifact_type result s =
    let error = text_or result.error "" in
    if result.timed_out
    then finish now settings
        (record e { status = failed; error_json = some (message "Script execution timed out") }) s
    else if text_given result.error
    then finish now settings (record e { status = failed; error_json = some (message error) })
        (on_error now settings e version input result.output error artifact_type s)
    else finish now settings (record e { status = succeeded; output_json = result.output }) s

abbrev pub dry_output : Fields
dry_output =
    field "dry_run" (boolean true) (field "message" (text "Dry run — script not executed") end)

-- `self._script_runtime(artifact_type).execute`
unfoldable pub run_script :
    Environment → ArtifactVersion → Fields → Value → String → Attempt RuntimeResult
run_script env version input profile artifact_type =
    env.execute (artifact_type == "luau_script") version.content input version.output_schema profile

unfoldable pub run_lua :
    Environment
    → ℕ
    → Settings
    → Execution
    → ArtifactVersion
    → Option Fields
    → Value
    → String
    → State
    → Attempt (Execution × State)
unfolding after_run run_script given_input
run_lua env now settings e version input profile artifact_type s =
    if e.dry_run
    then returns
        (record e { status = succeeded; output_json = some dry_output; finished_at = some now }, s)
    else elim (run_script env version (given_input input) profile artifact_type) [
      | returns result ↦
          returns (after_run now settings e version (given_input input) artifact_type result s)
      | raises m ↦ raises m
    ]
