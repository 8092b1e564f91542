-- ===== src/Repair/Contract.antt =====
-- ExecutionService._background_repair_version of core/execution.py: the repair of a script whose output broke its
-- declared schema, and its end in `_handle_contract_violation`. The model, the validation and the row of the
-- generation job are parameters; the audit events are left out.
use ritesmith.Prelude.{
  ℕ, String, Bool, true, false, not, ◌&&◌, Option, none, some, List, ◌==◌, discard, text_given, ltb,
  if◌then◌else◌,
}
use ritesmith.Json.{Fields}
use ritesmith.Registry.{Db, ArtifactVersion, Content, Result, ok, err, create_new_version}
use ritesmith.Execution.{Environment, RuntimeResult, Attempt, returns, raises}
use ritesmith.Execution.Script.{run_script}
use ritesmith.Execution.Create.{profile_of}
use ritesmith.Repair.{Tried, returned, crashed, Recovery, run_repair_loop}

-- What a call of the language model gives: a script, or the way it fails.
pub data Answer : Type 0 where
  repaired : String → Answer
  fails : Tried → Answer

-- `repair_luau` or `repair_lua` by whether the artifact is a Luau script, of the current script, at an
-- attempt and with an allowance of recoveries, and what remains of it; `ValidationPipeline.run` of a script, an
-- artifact type and whether strict types are asked for.
pub record Tools : Type 0 where
  pub repair : Bool → String → ℕ → ℕ → Answer × ℕ
  pub valid : String → String → Bool → Attempt Bool

-- The variables that the attempts share.
pub record Scripts : Type 0 where
  pub last_content : String
  pub fixed_content : Option String

-- The regression run is passed where it reports no error.
unfoldable pub judge : Attempt RuntimeResult → Tried
judge (raises _) = crashed
judge (returns result) = returned (not (text_given result.error))

module _ (env : Environment) (tools : Tools) (max_attempts : ℕ) (version : ArtifactVersion)
    (input : Fields) (artifact_type : String) where
  -- The run on the input that broke the schema.
  unfoldable pub regression : String → Tried
  unfolding judge
  regression candidate = judge (
      run_script env (record version { content = candidate }) input (profile_of version)
        artifact_type)

  -- An attempt with a candidate, after its validation.
  unfoldable pub keep_if_fixed : Scripts → Tried → Tried × Scripts
  keep_if_fixed s (returned true) =
      (returned true, record s { fixed_content = some s.last_content })
  keep_if_fixed s t = (t, s)

  unfoldable pub check_candidate : Scripts → Attempt Bool → Tried × Scripts
  unfolding keep_if_fixed
  check_candidate s (raises _) = (crashed, s)
  check_candidate s (returns false) = (returned false, s)
  check_candidate s (returns true) = keep_if_fixed s (regression s.last_content)

  validated : ℕ → String → Attempt Bool
  validated attempt candidate = tools.valid candidate artifact_type (ltb attempt max_attempts)

  unfoldable pub on_answer : ℕ → Scripts → Answer × ℕ → Tried × ℕ × Scripts
  unfolding check_candidate validated
  on_answer attempt s (fails t, remaining) = (t, remaining, s)
  on_answer attempt s (repaired candidate, remaining) =
      let (t, s') =
        check_candidate (record s { last_content = candidate }) (validated attempt candidate) in
      (t, remaining, s')

  unfoldable pub attempt_fn : ℕ → ℕ → Scripts → Tried × ℕ × Scripts
  unfolding on_answer
  attempt_fn attempt remaining s =
      on_answer attempt s
        (tools.repair (artifact_type == "luau_script") s.last_content attempt remaining)

-- `run_repair_loop` with its defaults: no settings, no state function.
abbrev pub unbounded : ℕ → Recovery
unbounded max_attempts = record {
  generation_bounded_recovery = false;
  generation_recovery_attempts = 0;
  initial_recoveries = 0;
  max_attempts = max_attempts;
}

-- The new version of a fixed script.
abbrev pub fixed_version : ArtifactVersion → String → Content
fixed_version version content = record {
  content = content;
  input_schema = version.input_schema;
  output_schema = version.output_schema;
  risk_level = version.risk_level;
  requires_approval = false;
  metadata = version.metadata;
}

-- An exception of the registry is caught.
unfoldable pub or_kept : Db → Result Db → Db
or_kept db (ok db') = db'
or_kept db (err _) = db

module _ (sha256 : String → String) (now : ℕ) where
  unfoldable pub store : String → ArtifactVersion → Option String → Db → Db
  unfolding or_kept
  store artifact_id version none db = db
  store artifact_id version (some content) db =
      if content == ""
      then db
      else or_kept db (create_new_version sha256 now artifact_id (fixed_version version content) db)

  -- `job` is whether the artifact has a generation job. An exception that leaves the loop ends the task.
  unfoldable pub background_repair :
      Environment
      → Tools
      → (ℕ → Bool)
      → ℕ
      → Bool
      → String
      → ArtifactVersion
      → Fields
      → String
      → Db
      → Db
  unfolding store
  background_repair env tools time_left max_attempts job artifact_id version input artifact_type
        db =
      let (ended, _, s) =
        run_repair_loop (unbounded max_attempts) time_left
          (attempt_fn env tools max_attempts version input artifact_type) none
          (record { last_content = version.content; fixed_content = none }) in
      if job && ended then store artifact_id version s.fixed_content db else db

-- `_on_done`: whatever became of the task, the artifact is free for the next repair.
unfoldable pub on_done : String → List String → List String
unfolding discard
on_done artifact_id in_flight = discard artifact_id in_flight
