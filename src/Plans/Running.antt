-- ===== src/Plans/Running.antt =====
-- The calls of a running workflow (trama_execute of ritesmith/api/routes/trama.py) and the run of an approved plan
-- (_auto_execute of ritesmith/api/routes/plans.py). A capability is a parameter, and so is what `json.dumps` and the
-- formatting of an error make of a value.
use Prim.Native.String.{◌++◌}
use ritesmith.Prelude.{
  ℕ, String, Bool, true, false, not, ◌&&◌, Option, none, some, List, [], ◌∷◌, ◌==◌, elem,
  text_given, text_or, if◌then◌else◌,
}
use ritesmith.Json.{
  Value, boolean, arr, obj, Fields, end, field, lookup, elements, texts, truthy, is_truthy,
}
use ritesmith.Registry.{ok, err}
use ritesmith.Execution
use ritesmith.Execution.{
  Environment, Settings, CreateExecutionRequest, ExecutionStatus, succeeded, failed, rejected,
  waiting, running,
}
use ritesmith.Execution.Script.{given_input}
use ritesmith.Execution.Delegated.{set_field}
use ritesmith.Execution.Create.{Error, not_found, Outcome, done, raised, Report, create_execution}
use ritesmith.Plans.{PlanStatus, approved, executing, Plan, State, status_eq, find_plan}
use ritesmith.Plans.Lifecycle.{store_plan, finish}

-- What a capability does with its arguments: a result, `TypeError`, or another exception.
pub data Invoked : Type 0 where
  result : Value → Invoked
  type_error failure : Invoked

pub record Capability : Type 0 where
  pub input_schema : Option Fields
  pub callable : Fields → Invoked

-- `TramaExecuteResponse`, or the code of an `HTTPException`.
pub data Response : Type 0 where
  output : Fields → Response
  http : ℕ → Response

pub record TramaExecuteRequest : Type 0 where
  pub capability_name : Option String
  pub artifact_id : Option String
  pub input : Option Fields

unfoldable pub keys : Fields → List String
keys end = []
keys (field k v fs) = k ∷ keys fs

-- `set(schema["properties"])`
unfoldable pub property_names : Option Value → List String
unfolding keys elements texts
property_names (some (obj fs)) = keys fs
property_names (some (arr vs)) = texts (elements vs)
property_names _ = []

is_true : Option Value → Bool
is_true (some (boolean b)) = b
is_true _ = false

-- `_closed` of workflows/semantic_validation.py
unfoldable pub closed : Option Fields → Bool
unfolding is_true lookup
closed none = false
closed (some schema) =
    is_truthy (lookup "properties" schema) && not (is_true (lookup "additionalProperties" schema))

unfoldable pub not_in : List String → List String → List String
not_in names [] = []
not_in names (k ∷ ks) = let rest = not_in names ks in if elem k names then rest else k ∷ rest

-- `unknown_inputs` of workflows/semantic_validation.py, before it sorts the names.
unfoldable pub unknown_inputs : Option Fields → Fields → List String
unfolding closed property_names not_in keys
unknown_inputs none args = []
unknown_inputs (some schema) args =
    if closed (some schema)
    then not_in (property_names (lookup "properties" schema)) (keys args)
    else []

-- `(schema or {}).get("required", [])`, a list of names.
required_names : Option Fields → List String
unfolding property_names
required_names none = []
required_names (some schema) = property_names (lookup "required" schema)

unfoldable pub bad_input : Option Fields → Fields → Bool
unfolding unknown_inputs required_names not_in
bad_input schema args = elim (unknown_inputs schema args) [
  | _ ∷ _ ↦ true
  | [] ↦ elim (not_in (keys args) (required_names schema)) [ _ ∷ _ ↦ true | [] ↦ false ]
]

unfoldable pub answer_of : Invoked → Response
answer_of (result (obj fs)) = output fs
answer_of (result v) = output (field "result" v end)
answer_of type_error = http 422
answer_of failure = http 500

unfoldable pub invoke : Option Capability → Fields → Response
unfolding bad_input answer_of
invoke none args = http 404
invoke (some cap) args =
    if bad_input cap.input_schema args then http 422 else answer_of (cap.callable args)

-- Whether the header names a plan that is cancelled.
unfoldable pub is_cancelled : Option String → State → Bool
unfolding status_eq
is_cancelled none s = false
is_cancelled (some k) s = if k == "" then false else elim (find_plan k s.plans) [
  | none ↦ false
  | some p ↦ status_eq p.status PlanStatus.cancelled
]

-- The request that runs an artifact, with nothing but its input and its plan.
abbrev pub bare : String → Option Fields → Option String → CreateExecutionRequest
bare artifact_id input plan_id = record {
  artifact_id = artifact_id;
  version = none;
  input = input;
  runtime = none;
  dry_run = false;
  approval_token = none;
  idempotency_key = none;
  plan_id = plan_id;
}

-- `(plan_orm.context or {}).get("continuation") if plan_orm else None`
unfoldable pub continuation : Option Plan → Option Value
unfolding lookup
continuation none = none
continuation (some p) = elim p.context [ none ↦ none | some fs ↦ lookup "continuation" fs ]

-- The input of the execution; the outer none is the `TypeError` for a continuation that is no object.
unfoldable pub continuation_input : Option Value → Option (Option Fields)
unfolding set_field truthy
continuation_input none = some none
continuation_input (some (obj end)) = some none
continuation_input (some (obj fs)) = some (some (set_field "continuation" (obj fs) fs))
continuation_input (some v) = if truthy v then none else some none

module _ (env : Environment) (settings : Settings) (capabilities : String → Option Capability)
    (exec_id trama_id : String) (now : ℕ) where
  -- The code of an error that the execution raises (core/exceptions.py and the handler of api/app.py).
  code_of : Error → ℕ
  code_of not_found = 404
  code_of _ = 500

  unfoldable pub execute_artifact : String → Option Fields → State → Response × State
  unfolding given_input code_of
  execute_artifact artifact_id input s =
      elim (create_execution env settings exec_id trama_id now (bare artifact_id input none)
        s.service) [
          | raised e ↦ (http (code_of e), s)
          | done (r, service) ↦ (output (given_input r.output), record s { service = service })
        ]

  unfoldable pub dispatch : TramaExecuteRequest → State → Response × State
  unfolding invoke execute_artifact given_input
  dispatch req s =
      if text_given req.capability_name
      then (invoke (capabilities (text_or req.capability_name "")) (given_input req.input), s)
      else if text_given req.artifact_id
      then execute_artifact (text_or req.artifact_id "") req.input s
      else (http 422, s)

  unfoldable pub trama_execute :
      TramaExecuteRequest → String → Option String → State → Response × State
  unfolding is_cancelled dispatch
  trama_execute req authorization x_rs_plan s =
      if not (text_given settings.trama_token)
      then (http 503, s)
      else if not (authorization == "Bearer " ++ text_or settings.trama_token "")
      then (http 401, s)
      else if is_cancelled x_rs_plan s
      then (http 409, s)
      else dispatch req s

  -- `_finish_from_execution`: an error of the transition is caught. The summary is `describe r`.
  unfoldable pub finish_from_execution :
      (Report → Option String) → Plan → PlanStatus → Report → State → State
  unfolding finish
  finish_from_execution describe p target r s = elim (finish settings now p target (describe r) s) [
    | ok s' ↦ s'
    | err _ ↦ s
  ]

  -- What the status of the execution means for the plan.
  unfoldable pub follow :
      (Report → Option String) → Option Plan → Report → ExecutionStatus → State → State
  unfolding store_plan finish_from_execution status_eq
  follow describe none r status s = s
  follow describe (some p) r waiting s =
      if status_eq p.status approved
      then store_plan p.plan_id (λ row. record row { status = executing }) s
      else s
  follow describe (some p) r running s =
      if status_eq p.status approved
      then store_plan p.plan_id (λ row. record row { status = executing }) s
      else s
  follow describe (some p) r succeeded s = finish_from_execution describe p PlanStatus.completed r s
  follow describe (some p) r failed s = finish_from_execution describe p PlanStatus.failed r s
  follow describe (some p) r rejected s = finish_from_execution describe p PlanStatus.failed r s
  follow describe (some p) r status s = s

  -- Every exception is caught and logged.
  unfoldable pub after_creation :
      (Report → Option String) → Option Plan → State → Outcome (Report × Execution.State) → State
  after_creation describe plan s (raised _) = s
  after_creation describe plan s (done (r, service)) =
      follow describe plan r r.status (record s { service = service })

  unfoldable pub run_plan :
      (Report → Option String)
      → String
      → String
      → Option Plan
      → State
      → Option (Option Fields)
      → State
  unfolding after_creation
  run_plan describe artifact_id plan_id plan s none = s
  run_plan describe artifact_id plan_id plan s (some input) = after_creation describe plan s (
      create_execution env settings exec_id trama_id now (bare artifact_id input (some plan_id))
        s.service)

  unfoldable pub auto_execute : (Report → Option String) → String → String → State → State
  unfolding continuation continuation_input
  auto_execute describe artifact_id plan_id s =
      let plan = find_plan plan_id s.plans in
      run_plan describe artifact_id plan_id plan s (continuation_input (continuation plan))
