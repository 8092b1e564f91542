-- ===== src/Simulation/Calls.antt =====
-- A call of a task of ritesmith/workflows/simulation.py counts no step.
use ritesmith.Prelude.{
  ℕ, String, ◌≡◌, refl, inl, inr, not, Option, none, some, ◌∷◌, elem, present, Bool-cases,
  Option-cases, if◌then◌else◌, ◌&&◌,
}
use ritesmith.Json.{Value, text, arr, obj, Fields, end, lookup, get, truthy, is_truthy, as_object}
use ritesmith.Simulation.{or_null}
use ritesmith.Simulation.Task.{
  FixtureAnswer, json, failure, Fixture, always, series, World, SimulationResult, Performed, gave,
  broke, stat_names, times, answer_at, used_once, from_fixture, as_output, output_of, fixture,
  call_named, call_capability, answer_json, accepted, after_callback, waits_for_callback, call_url,
  perform_body, args_of, perform_action, rendered, perform,
}

-- A call keeps the number of steps.
abbrev pub Keeps : ℕ → Performed → Type 0
Keeps k (gave v s) = s.steps ≡ k
Keeps k (broke s) = Unit {0}

abbrev KeepsPair : {A : Type 0} → ℕ → Option (A × SimulationResult) → Type 0
KeepsPair k none = Unit {0}
KeepsPair k (some (a, s)) = s.steps ≡ k

used_once-steps :
    (name : String) (a : Option FixtureAnswer) (s : SimulationResult)
    → KeepsPair s.steps (used_once name a s)
unfolding used_once
used_once-steps name none s = tt
used_once-steps name (some a) s = refl

from_fixture-steps :
    (name : String) (f : Option Fixture) (s : SimulationResult)
    → KeepsPair s.steps (from_fixture name f s)
unfolding from_fixture
from_fixture-steps name none s = tt
from_fixture-steps name (some (always a)) s = refl
from_fixture-steps name (some (series answers)) s =
    used_once-steps name (answer_at (times name s.used) answers) s

as_output-steps :
    (k : ℕ) (r : Option (FixtureAnswer × SimulationResult)) (s : SimulationResult)
    → KeepsPair k r
    → Keeps k (as_output r s)
unfolding as_output
as_output-steps k none s h = tt
as_output-steps k (some (json v, t)) s h = h
as_output-steps k (some (failure status message, t)) s h = h

output_of-steps : (v : Option Value) (s : SimulationResult) → Keeps s.steps (output_of v s)
unfolding output_of
output_of-steps none s = tt
output_of-steps (some v) s = refl

module _ (world : World) where
  fixture-steps :
      (node_id : String) (v : Value) (s : SimulationResult)
      → KeepsPair s.steps (fixture world node_id v s)
  unfolding fixture
  fixture-steps node_id (text c) s = elim (Bool-cases (present (world.fixtures node_id))) [
    | inl own ↦ rw (own, fixture) (from_fixture-steps node_id (world.fixtures node_id) s)
    | inr other ↦ rw (other, fixture) (from_fixture-steps c (world.fixtures c) s)
  ]
  fixture-steps node_id _ s = from_fixture-steps node_id (world.fixtures node_id) s

  call_named-steps :
      (current name : String) (args : Value) (s : SimulationResult)
      → Keeps s.steps (call_named world current name args s)
  unfolding call_named
  call_named-steps current name args s = elim (Bool-cases (elem name stat_names)) [
    | inl stat ↦ rw (stat, call_named) (output_of-steps (world.stat name s.clock args) s)
    | inr other ↦
        rw (other, call_named)
          (as_output-steps s.steps (fixture world current (text name) s) s
            (fixture-steps current (text name) s))
  ]

  call_capability-steps :
      (current : String) (c args : Value) (s : SimulationResult)
      → Keeps s.steps (call_capability world current c args s)
  unfolding call_capability
  call_capability-steps current (text name) args s =
      call_named-steps current name args (record s { calls = text name ∷ s.calls })
  call_capability-steps current (arr vs) args s = tt
  call_capability-steps current (obj fs) args s = tt
  call_capability-steps current v args s =
      let t = record s { calls = v ∷ s.calls } in
      as_output-steps s.steps (fixture world current v t) t (fixture-steps current v t)

  answer_json-steps :
      (k : ℕ) (r : Option (FixtureAnswer × SimulationResult))
      → KeepsPair k r
      → KeepsPair k (answer_json world r)
  unfolding answer_json
  answer_json-steps k none h = tt
  answer_json-steps k (some (json v, t)) h = h
  answer_json-steps k (some (failure status message, t)) h = h

  after_callback-steps :
      (k : ℕ) (action : Fields) (r : Option (Value × SimulationResult)) (s : SimulationResult)
      → KeepsPair k r
      → Keeps k (after_callback world action r s)
  unfolding after_callback
  after_callback-steps k action none s h = tt
  after_callback-steps k action (some (last, t)) s h =
      elim (Bool-cases
        (waits_for_callback (lookup "mode" action) && not (accepted world action last))) [
          | inl refused ↦ rw (refused, after_callback) tt
          | inr fine ↦ rw (fine, after_callback) h
        ]

  call_url-steps :
      (current : String) (action : Fields) (body : Value) (url : Option Value)
      (s : SimulationResult)
      → Keeps s.steps (call_url world current action body url s)
  unfolding call_url
  call_url-steps current action body (some (text url)) s =
      elim (Bool-cases (world.py.ends_with url "/plans")) [
        | inl plans ↦ rw (plans, call_url) refl
        | inr other ↦ elim (Bool-cases (world.py.ends_with url "/complete")) [
          | inl complete ↦ rw (other, complete, call_url) refl
          | inr plain ↦
              rw (other, plain, call_url)
                (after_callback-steps s.steps action
                  (answer_json world (fixture world current (text current) s)) s
                  (answer_json-steps s.steps (fixture world current (text current) s)
                    (fixture-steps current (text current) s)))
        ]
      ]
  call_url-steps current action body _ s = tt

  perform_body-steps :
      (current : String) (action request : Fields) (body : Option Value) (s : SimulationResult)
      → Keeps s.steps (perform_body world current action request body s)
  unfolding perform_body
  perform_body-steps current action request (some (obj body)) s =
      let capability =
        if is_truthy (lookup "capability_name" body)
        then or_null (lookup "capability_name" body)
        else or_null (lookup "artifact_id" body) in
      elim (Bool-cases (truthy capability)) [
        | inl given ↦
            rw (given, perform_body)
              (call_capability-steps current capability (args_of (lookup "input" body)) s)
        | inr plain ↦
            rw (plain, perform_body)
              (call_url-steps current action (obj body) (lookup "url" request) s)
      ]
  perform_body-steps current action request none s =
      call_url-steps current action (obj end) (lookup "url" request) s
  perform_body-steps current action request (some _) s = tt

  perform_action-steps :
      (current : String) (action : Option Value) (s : SimulationResult)
      → Keeps s.steps (perform_action world current action s)
  unfolding perform_action
  perform_action-steps current (some (obj action)) s =
      elim (Option-cases (as_object (lookup "request" action))) [
        | inl missing ↦ rw (missing, perform_action) tt
        | inr (request, given) ↦
            rw (given, perform_action)
              (perform_body-steps current action request (lookup "body" request) s)
      ]
  perform_action-steps current _ s = tt

  pub perform-steps :
      (current : String) (node context : Value) (s : SimulationResult)
      → Keeps s.steps (perform world current node context s)
  unfolding perform
  perform-steps current node context s =
      perform_action-steps current (rendered world context (get "action" node)) s
