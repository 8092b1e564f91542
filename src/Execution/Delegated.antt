-- ===== src/Execution/Delegated.antt =====
-- ExecutionService._run_workflow with _bind_to_plan: a workflow is tied to its plan and handed to the
-- external engine.
use Prim.Native.String.{◌++◌}
use ritesmith.Prelude.{
  String, not, ◌&&◌, Option, none, some, ◌==◌, text_given, text_or, present, if◌then◌else◌,
}
use ritesmith.Json.{
  Value, text, arr, obj, Items, nil, cons, Fields, end, field, lookup, truthy, is_truthy,
}
use ritesmith.Execution.{Execution, waiting, Settings, Attempt, returns, raises, State, Environment}
use ritesmith.Execution.Script.{log_event}

-- `d[key] = v`
unfoldable pub set_field : String → Value → Fields → Fields
set_field k v end = field k v end
set_field k v (field j w fs) =
    let rest = set_field k v fs in if j == k then field j v fs else field j w rest

module _ (env : Environment) (plan_id : String) where
  -- `request.setdefault("headers", {})["X-RS-Plan"] = plan_id`
  unfoldable pub with_plan_header : Fields → Attempt Fields
  unfolding set_field
  with_plan_header request = elim (lookup "headers" request) [
    | none ↦ returns (set_field "headers" (obj (field "X-RS-Plan" (text plan_id) end)) request)
    | some (obj headers) ↦
        returns (set_field "headers" (obj (set_field "X-RS-Plan" (text plan_id) headers)) request)
    | some _ ↦ raises env.python_error
  ]

  -- `request.get("url", "")`
  unfoldable pub url_of : Fields → Value
  url_of request = elim (lookup "url" request) [ none ↦ text "" | some v ↦ v ]

  unfoldable pub bind_request : Value → Attempt Value
  unfolding with_plan_header url_of
  bind_request (obj request) =
      if env.mentions_execute (url_of request)
      then elim (with_plan_header request) [
        | returns request' ↦ returns (obj request')
        | raises m ↦ raises m
      ]
      else returns (obj request)
  bind_request v = returns v

  unfoldable pub bind_action : Fields → Fields → Attempt Value
  unfolding bind_request set_field
  bind_action node action = elim (lookup "request" action) [
    | none ↦ returns (obj node)
    | some request ↦ elim (bind_request request) [
      | returns request' ↦
          returns (obj (set_field "action" (obj (set_field "request" request' action)) node))
      | raises m ↦ raises m
    ]
  ]

  -- `((node.get("action") or {}).get("request")) if isinstance(node, dict) else None`
  unfoldable pub bind_node : Value → Attempt Value
  unfolding bind_action
  bind_node (obj node) = elim (lookup "action" node) [
    | none ↦ returns (obj node)
    | some (obj action) ↦ bind_action node action
    | some v ↦ (if truthy v then raises env.python_error else returns (obj node))
  ]
  bind_node v = returns v

  unfoldable pub bind_nodes : Items → Attempt Items
  unfolding bind_node
  bind_nodes nil = returns nil
  bind_nodes (cons v vs) = elim (bind_node v) [
    | raises m ↦ raises m
    | returns v' ↦ elim (bind_nodes vs) [
      | raises m ↦ raises m
      | returns vs' ↦ returns (cons v' vs')
    ]
  ]

  -- The loop over `definition.get("nodes") or []`: the elements of an object or of a text are texts, which
  -- it passes over; a number that is not 0 and `True` cannot be iterated.
  unfoldable pub bind_all : Fields → Attempt Fields
  unfolding bind_nodes set_field
  bind_all definition = elim (lookup "nodes" definition) [
    | none ↦ returns definition
    | some (arr vs) ↦ elim (bind_nodes vs) [
      | returns vs' ↦ returns (set_field "nodes" (arr vs') definition)
      | raises m ↦ raises m
    ]
    | some (obj _) ↦ returns definition
    | some (text _) ↦ returns definition
    | some v ↦ (if truthy v then raises env.python_error else returns definition)
  ]

  failure_callback : String → Value
  failure_callback public_url = obj (
      field "url" (text (public_url ++ "/plans/" ++ plan_id ++ "/complete")) (
        field "verb" (text "POST") (
          field "headers" (obj (field "Content-Type" (text "application/json") end)) (
            field "body"
              (obj (
                field "status" (text "failed")
                  (field "summary" (text "Workflow falhou no Trama ({{sagaId}})") end)))
              end))))

  unfoldable pub with_callback : Option String → Fields → Fields
  unfolding set_field failure_callback
  with_callback public_url definition =
      if text_given public_url
        && not (present (lookup "onFailureCallback" definition))
        && is_truthy (lookup "nodes" definition)
      then set_field "onFailureCallback" (failure_callback (text_or public_url "")) definition
      else definition

  unfoldable pub bind_to_plan : Option String → Fields → Attempt Fields
  unfolding bind_all with_callback
  bind_to_plan public_url definition = elim (bind_all definition) [
    | returns definition' ↦ returns (with_callback public_url definition')
    | raises m ↦ raises m
  ]

unfoldable pub substituted : Environment → Settings → Execution → String → String
substituted env settings e content =
    let a =
      if text_given settings.trama_token
      then env.replace "__TRAMA_TOKEN__" (text_or settings.trama_token "") content
      else content in
    let b =
      if text_given settings.public_url
      then env.replace "__RS_BASE_URL__" (text_or settings.public_url "") a
      else a in
    env.replace "__RS_PLAN_ID__" (text_or e.plan_id "") b

-- `json.loads(content)`, or the text itself where that fails.
unfoldable pub parsed : Environment → String → Value
parsed env content = elim (env.json_loads content) [ some v ↦ v | none ↦ text content ]

unfoldable pub bound : Environment → Settings → Execution → Value → Attempt Value
unfolding bind_to_plan
bound env settings e (obj definition) =
    if text_given e.plan_id
    then elim (bind_to_plan env (text_or e.plan_id "") settings.public_url definition) [
      | returns fs ↦ returns (obj fs)
      | raises m ↦ raises m
    ]
    else returns (obj definition)
bound env settings e v = returns v

delegated : Settings → Execution → String → State → Execution × State
unfolding log_event
delegated settings e id s = (
  record e { delegated_execution_id = some id; status = waiting; finished_at = none },
  log_event settings "execution.delegated" e.execution_id s,
)

-- `trama_id` is the id that `generate_id` would make.
unfoldable pub hand_over :
    Environment
    → String
    → Settings
    → Execution
    → Option Fields
    → State
    → Value
    → Attempt (Execution × State)
unfolding delegated
hand_over env trama_id settings e input s definition =
    if settings.workflow_delegation_enabled && text_given settings.workflow_engine_url
    then elim (env.delegate definition input) [
      | raises m ↦ raises m
      | returns id ↦ returns (delegated settings e id s)
    ]
    else returns (delegated settings e trama_id s)

unfoldable pub delegate_bound :
    Environment
    → String
    → Settings
    → Execution
    → Option Fields
    → State
    → Attempt Value
    → Attempt (Execution × State)
unfolding hand_over
delegate_bound env trama_id settings e input s (raises m) = raises m
delegate_bound env trama_id settings e input s (returns definition) =
    hand_over env trama_id settings e input s definition

unfoldable pub run_workflow :
    Environment
    → String
    → Settings
    → Execution
    → String
    → Option Fields
    → State
    → Attempt (Execution × State)
unfolding substituted parsed bound delegate_bound
run_workflow env trama_id settings e content input s =
    delegate_bound env trama_id settings e input s
      (bound env settings e (parsed env (substituted env settings e content)))
