-- ===== src/Simulation/Walk.antt =====
-- WorkflowSimulator.walk and run of ritesmith/workflows/simulation.py. The walk recurses on fuel; `run` gives one more than
-- `max_steps`, since every visit of a node counts a step. A node is found by its id, which is not empty.
use ritesmith.Prelude.{
  ℕ, suc, ◌+◌, String, Bool, true, false, Option, none, some, List, [], ◌∷◌, ◌==◌, ltb, length,
  if◌then◌else◌, present,
}
use ritesmith.Json.{
  pos, Value, null, boolean, int, text, arr, obj, Items, nil, cons, Fields, end, field, get, truthy,
  is_truthy, as_text, texts,
}
use ritesmith.Execution.Delegated.{set_field}
use ritesmith.Workflow.Graph.{text_field, list_field, has_kind, find_node}
use ritesmith.Simulation.{logic}
use ritesmith.Simulation.Task.{World, SimulationResult, Performed, gave, broke, perform, unwind}

pub data Error : Type 0 where
  unknown_node entered_join unknown_kind over_budget other : Error

-- What a walk ends in: `last` with the state and the answers of the nodes, an exception, or a fuel that ran out.
pub data Walked : Type 0 where
  finished : Value → SimulationResult → Fields → Walked
  raised : Error → SimulationResult → Walked
  no_fuel : Walked

-- What the loop keeps: `last`, the answers of the nodes, the compensations with the latest first, and the state.
pub record Frame : Type 0 where
  pub last_value : Value
  pub nodes : Fields
  pub stack : List Value
  pub state : SimulationResult

-- How the walk goes on from a node.
abbrev pub Go : Type 0
Go = String → Frame → Walked

unfoldable pub go_to : Go → Option String → Frame → Walked
go_to go (some target) f = go target f
go_to go none f = raised unknown_node f.state

-- `node.get("next", "end")`
unfoldable pub next_of : Option Value → Option String
next_of none = some "end"
next_of (some v) = as_text (some v)

unfoldable pub walk_context : Value → Fields → Value
walk_context payload nodes = obj (
    field "payload" payload (
      field "nodes" (obj nodes) (
        field "runtime"
          (obj (
            field "callback"
              (obj (
                field "url" (text "https://callback.example") (field "token" (text "fixture") end)))
              end))
          end)))

-- `{"response": {"body": last}}`
unfoldable pub response_of : Value → Value
response_of last = obj (field "response" (obj (field "body" last end)) end)

-- `isinstance(last, dict) and last.get("error")`
unfoldable pub failed_with : Value → Bool
unfolding get
failed_with last = is_truthy (get "error" last)

unfoldable pub with_compensation : Option Value → List Value → List Value
with_compensation none stack = stack
with_compensation (some c) stack = if truthy c then c ∷ stack else stack

module _ (world : World) where
  unfoldable pub after_task : Go → String → Value → Value → Frame → Performed → Walked
  unfolding go_to next_of failed_with with_compensation response_of
  after_task go current node context f (broke s) = raised other s
  after_task go current node context f (gave last s) =
      if failed_with last
      then raised other (unwind world context f.stack s)
      else go_to go (next_of (get "next" node)) (record {
        last_value = last;
        nodes = set_field current (response_of last) f.nodes;
        stack = with_compensation (get "compensation" node) f.stack;
        state = s;
      })

  unfoldable pub after_sleep : Go → Value → Frame → Option Value → Walked
  unfolding go_to next_of
  after_sleep go node f none = raised other f.state
  after_sleep go node f (some clock) =
      go_to go (next_of (get "next" node)) (record f { state = record f.state { clock = clock } })

  -- The clock after a sleep; without a duration there is an exception.
  unfoldable pub slept : Option Value → Value → Option Value
  slept none clock = none
  slept (some duration) clock = world.py.binary "+" clock duration

  -- The first case whose condition is true, and whether a condition raised.
  unfoldable pub case_of : Value → List Value → Option String → Bool × Option String
  case_of context [] default = (true, default)
  case_of context (c ∷ cs) default =
      let rest = case_of context cs default in
      elim (get "when" c) [
        | none ↦ (false, none)
        | some condition ↦ elim (logic world.py context condition) [
          | none ↦ (false, none)
          | some v ↦ (if truthy v then (true, as_text (get "target" c)) else rest)
        ]
      ]

  unfoldable pub after_switch : Go → Frame → Bool × Option String → Walked
  unfolding go_to
  after_switch go f (false, _) = raised other f.state
  after_switch go f (true, target) = go_to go target f

  -- `node["default"]` is read before the cases are tried.
  unfoldable pub visit_switch : Go → Value → Value → Frame → Walked
  unfolding after_switch case_of
  visit_switch go node context f = elim (get "default" node) [
    | none ↦ raised other f.state
    | some default ↦
        if present (get "cases" node)
        then after_switch go f (case_of context (list_field "cases" node) (as_text (some default)))
        else raised other f.state
  ]

  unfoldable pub branch_result : String → Value → Value
  branch_result branch result = obj (
      field "branchId" (text branch)
        (field "status" (text "SUCCEEDED") (field "result" result end)))

  unfoldable pub after_join : Go → String → Frame → Option Value → Walked
  unfolding go_to next_of
  after_join go join f none = raised unknown_node f.state
  after_join go join f (some node) = go_to go (next_of (get "next" node)) f

  unfoldable pub from_list : List Value → Items
  from_list [] = nil
  from_list (v ∷ vs) = cons v (from_list vs)

  -- The end of a split, with the clocks and the results of its branches.
  unfoldable pub joined : Go → Option String → List Value → List Value → Frame → Walked
  unfolding after_join response_of from_list
  joined go none clocks results f = raised unknown_node f.state
  joined go (some join) clocks results f = elim (world.py.max_of clocks) [
    | none ↦ raised other f.state
    | some clock ↦
        let last = obj (
          field "branches" (arr (from_list results)) (
            field "allSucceeded" (boolean true)
              (field "expected" (int (pos (length results))) end))) in
        after_join go join
          (record f {
            last_value = last;
            nodes = set_field join (response_of last) f.nodes;
            state = record f.state { clock = clock };
          })
          (find_node join world.nodes)
  ]

  -- A branch that raises ends the walk.
  unfoldable pub after_branch : (Value → SimulationResult → Walked) → Walked → Walked
  after_branch more (finished result s nodes) = more result s
  after_branch more (raised why s) = raised why s
  after_branch more no_fuel = no_fuel

  -- The branches one after the other, each from the clock at the split and with no answers of nodes. `ended` gets
  -- the clocks and the results in order.
  unfoldable pub branches :
      Go
      → Value
      → List String
      → (List Value → List Value → SimulationResult → Walked)
      → SimulationResult
      → Walked
  unfolding branch_result after_branch
  branches go start [] ended s = ended [] [] s
  branches go start (b ∷ bs) ended s =
      after_branch
        (λ result s'.
          branches go start bs
            (λ clocks results. ended (s'.clock ∷ clocks) (branch_result b result ∷ results)) s')
        (go b (record {
          last_value = null;
          nodes = end;
          stack = [];
          state = record s { clock = start };
        }))

  unfoldable pub visit_split : Go → Value → Frame → Walked
  unfolding branches joined
  visit_split go node f =
      branches go f.state.clock (texts (list_field "branches" node))
        (λ clocks results s.
          joined go (text_field "join" node) clocks results (record f { state = s }))
        f.state

  -- One visit of a node that is there.
  unfoldable pub visit_node : Go → String → Value → Frame → Walked
  unfolding after_task perform walk_context after_sleep slept visit_switch visit_split has_kind
  visit_node go current node f =
      let context = walk_context world.payload f.nodes in
      if has_kind "task" node
      then after_task go current node context f (perform world current node context f.state)
      else if has_kind "sleep" node
      then after_sleep go node f (slept (get "durationSeconds" node) f.state.clock)
      else if has_kind "switch" node
      then visit_switch go node context f
      else if has_kind "split" node
      then visit_split go node f
      else if has_kind "join" node
      then raised entered_join f.state
      else raised unknown_kind f.state

  unfoldable pub visit_found : Go → String → Option Value → Frame → Walked
  unfolding visit_node
  visit_found go current none f = raised unknown_node f.state
  visit_found go current (some node) f = visit_node go current node f

  unfoldable pub step_on : Go → String → Frame → Walked
  unfolding visit_found find_node
  step_on go current f =
      if current == "end"
      then finished f.last_value f.state f.nodes
      else let s = record f.state { steps = f.state.steps + 1 } in
        if ltb world.max_steps (f.state.steps + 1)
        then raised over_budget s
        else visit_found go current (find_node current world.nodes) (record f { state = s })

  unfoldable pub walk : ℕ → Go
  unfolding step_on
  walk ℕ.zero current f = no_fuel
  walk (suc n) current f = step_on (walk n) current f

  -- `run` of a simulator that was just made.
  unfoldable pub simulate : String → Value → Walked
  unfolding walk
  simulate entrypoint now = walk (suc world.max_steps) entrypoint (record {
    last_value = null;
    nodes = end;
    stack = [];
    state = record {
      clock = now;
      calls = [];
      used = [];
      continuations = [];
      compensations = [];
      completed = false;
      steps = 0;
    };
  })
