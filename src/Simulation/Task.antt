-- ===== src/Simulation/Task.antt =====
-- A task node of WorkflowSimulator.walk (ritesmith/workflows/simulation.py): its call, the fixture that answers it, and what
-- is undone when it fails. The functions of runtime/providers/stat.py that it calls are a parameter, and there is no transport.
use ritesmith.Prelude.{
  ℕ, suc, String, Bool, true, false, not, ◌&&◌, Option, none, some, List, [], ◌∷◌, ◌==◌, elem,
  present, if◌then◌else◌,
}
use ritesmith.Json.{
  pos, Value, int, text, obj, Fields, end, field, lookup, get, truthy, is_truthy, as_object,
}
use ritesmith.Simulation.{Python, or_null, render, logic}

-- A fixture's answer: a JSON output, or an `HttpFailure`.
pub data FixtureAnswer : Type 0 where
  json : Value → FixtureAnswer
  failure : ℕ → String → FixtureAnswer

-- A fixture is a list of answers, used one after the other, or one answer for every call.
pub data Fixture : Type 0 where
  always : FixtureAnswer → Fixture
  series : List FixtureAnswer → Fixture

-- The arguments of the simulator; `stat` is the five functions of the provider, by their names, with the clock and the arguments.
pub record World : Type 0 where
  pub py : Python
  pub stat : String → Value → Value → Option Value
  pub fixtures : String → Option Fixture
  pub payload : Value
  pub nodes : List Value
  pub max_steps : ℕ
  pub native_templates : Bool

-- `SimulationResult` with the offsets of the fixtures; a name stands in `calls` and in `used` once for each call.
pub record SimulationResult : Type 0 where
  pub clock : Value
  pub calls : List Value
  pub used : List String
  pub continuations : List Value
  pub compensations : List Value
  pub completed : Bool
  pub steps : ℕ

-- What a call gives: `last`, or an exception.
pub data Performed : Type 0 where
  gave : Value → SimulationResult → Performed
  broke : SimulationResult → Performed

abbrev pub stat_names : List String
stat_names =
    "stat.chain_step" ∷ "stat.collect" ∷ "stat.tick" ∷ "stat.min_value" ∷ "stat.max_value" ∷ []

unfoldable pub times : String → List String → ℕ
times name [] = 0
times name (u ∷ us) = let rest = times name us in if u == name then suc rest else rest

unfoldable pub answer_at : ℕ → List FixtureAnswer → Option FixtureAnswer
answer_at n [] = none
answer_at ℕ.zero (a ∷ more) = some a
answer_at (suc n) (a ∷ more) = answer_at n more

unfoldable pub used_once :
    String → Option FixtureAnswer → SimulationResult → Option (FixtureAnswer × SimulationResult)
used_once name none s = none
used_once name (some a) s = some (a, record s { used = name ∷ s.used })

unfoldable pub from_fixture :
    String → Option Fixture → SimulationResult → Option (FixtureAnswer × SimulationResult)
unfolding answer_at times used_once
from_fixture name none s = none
from_fixture name (some (always a)) s = some (a, s)
from_fixture name (some (series answers)) s =
    used_once name (answer_at (times name s.used) answers) s

-- `{"error": output.message, "status": output.status}`
unfoldable pub error_of : ℕ → String → Value
error_of status message = obj (field "error" (text message) (field "status" (int (pos status)) end))

unfoldable pub as_output : Option (FixtureAnswer × SimulationResult) → SimulationResult → Performed
unfolding error_of
as_output none s = broke s
as_output (some (json v, s')) s = gave (obj (field "output" v end)) s'
as_output (some (failure status message, s')) s = gave (error_of status message) s'

unfoldable pub output_of : Option Value → SimulationResult → Performed
output_of none s = broke s
output_of (some v) s = gave (obj (field "output" v end)) s

-- `action.get("mode") == "async-http-callback"`
unfoldable pub waits_for_callback : Option Value → Bool
waits_for_callback (some (text mode)) = mode == "async-http-callback"
waits_for_callback _ = false

-- `body.get("input", {})`
unfoldable pub args_of : Option Value → Value
args_of none = obj end
args_of (some v) = v

module _ (world : World) where
  -- `node_id if node_id in self.fixtures else capability`
  unfoldable pub fixture :
      String → Value → SimulationResult → Option (FixtureAnswer × SimulationResult)
  unfolding from_fixture
  fixture node_id (text capability) s =
      if present (world.fixtures node_id)
      then from_fixture node_id (world.fixtures node_id) s
      else from_fixture capability (world.fixtures capability) s
  fixture node_id _ s = from_fixture node_id (world.fixtures node_id) s

  unfoldable pub call_named : String → String → Value → SimulationResult → Performed
  unfolding output_of as_output fixture
  call_named current name args s =
      if elem name stat_names
      then output_of (world.stat name s.clock args) s
      else as_output (fixture current (text name) s) s

  -- A capability that is a list or an object is no key of a counter.
  unfoldable pub call_capability : String → Value → Value → SimulationResult → Performed
  unfolding call_named as_output fixture
  call_capability current (text name) args s =
      call_named current name args (record s { calls = text name ∷ s.calls })
  call_capability current (Value.arr vs) args s = broke s
  call_capability current (obj fs) args s = broke s
  call_capability current v args s =
      let s' = record s { calls = v ∷ s.calls } in as_output (fixture current v s') s'

  -- The answer to a call of another address, as JSON.
  unfoldable pub answer_json :
      Option (FixtureAnswer × SimulationResult) → Option (Value × SimulationResult)
  unfolding error_of
  answer_json none = none
  answer_json (some (json v, s)) = some (v, s)
  answer_json (some (failure status message, s)) = some (error_of status message, s)

  -- `action["callback"]["successWhen"]`
  unfoldable pub success_when : Fields → Option Value
  unfolding lookup
  success_when action = elim (as_object (lookup "callback" action)) [
    | none ↦ none
    | some callback ↦ lookup "successWhen" callback
  ]

  unfoldable pub accepted : Fields → Value → Bool
  unfolding success_when
  accepted action last = elim (success_when action) [
    | none ↦ false
    | some condition ↦
        is_truthy
          (logic world.py (obj (field "callback" (obj (field "body" last end)) end)) condition)
  ]

  unfoldable pub after_callback :
      Fields → Option (Value × SimulationResult) → SimulationResult → Performed
  unfolding accepted waits_for_callback
  after_callback action none s = broke s
  after_callback action (some (last, s')) s =
      if waits_for_callback (lookup "mode" action) && not (accepted action last)
      then broke s'
      else gave last s'

  unfoldable pub call_url : String → Fields → Value → Option Value → SimulationResult → Performed
  unfolding after_callback answer_json fixture
  call_url current action body (some (text url)) s =
      if world.py.ends_with url "/plans"
      then gave (obj (field "plan_id" (text "simulation") end))
          (record s { continuations = body ∷ s.continuations })
      else if world.py.ends_with url "/complete"
      then gave (obj end) (record s { completed = true })
      else after_callback action (answer_json (fixture current (text current) s)) s
  call_url current action body _ s = broke s

  unfoldable pub perform_body :
      String → Fields → Fields → Option Value → SimulationResult → Performed
  unfolding call_capability call_url args_of
  perform_body current action request (some (obj body)) s =
      let capability =
        if is_truthy (lookup "capability_name" body)
        then or_null (lookup "capability_name" body)
        else or_null (lookup "artifact_id" body) in
      if truthy capability
      then call_capability current capability (args_of (lookup "input" body)) s
      else call_url current action (obj body) (lookup "url" request) s
  perform_body current action request none s =
      call_url current action (obj end) (lookup "url" request) s
  perform_body current action request (some _) s = broke s

  unfoldable pub perform_action : String → Option Value → SimulationResult → Performed
  unfolding perform_body lookup
  perform_action current (some (obj action)) s = elim (as_object (lookup "request" action)) [
    | none ↦ broke s
    | some request ↦ perform_body current action request (lookup "body" request) s
  ]
  perform_action current _ s = broke s

  unfoldable pub rendered : Value → Option Value → Option Value
  rendered context none = none
  rendered context (some v) = render world.py world.native_templates context v

  -- The call of a task.
  unfoldable pub perform : String → Value → Value → SimulationResult → Performed
  unfolding perform_action rendered get
  perform current node context s = perform_action current (rendered context (get "action" node)) s

  -- The compensations, the latest first, until one cannot be rendered.
  unfoldable pub unwind : Value → List Value → SimulationResult → SimulationResult
  unfolding rendered
  unwind context [] s = s
  unwind context (c ∷ cs) s = elim (rendered context (some c)) [
    | none ↦ s
    | some call ↦ unwind context cs (record s { compensations = call ∷ s.compensations })
  ]
