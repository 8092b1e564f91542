-- ===== src/Simulation/Tests.antt =====
-- A workflow with a task that loops, and the theorem at it.
use ritesmith.Prelude.{false, none, some, [], ◌∷◌, ◌==◌}
use ritesmith.Json.{Value, null, text, int, pos, obj, field, end}
use ritesmith.Simulation.{Python}
use ritesmith.Simulation.Task.{World, always, json}
use ritesmith.Simulation.Walk.{simulate}
use ritesmith.Simulation.Ended.{Ends, simulate-Ends}

abbrev python : Python
python = record {
  split = λ s. s ∷ [];
  to_int = λ s. none;
  full_match = λ s. none;
  substitute = λ f s. some s;
  str = λ v. "";
  lower = λ s. s;
  ends_with = λ s t. s == t;
  binary = λ op a b. some a;
  contains = λ a b. none;
  max_of = λ vs. some null;
}

-- A task that leads to itself.
abbrev self_loop : Value
self_loop = obj (
    field "id" (text "a") (
      field "kind" (text "task") (
        field "next" (text "a") (
          field "action"
            (obj (
              field "request"
                (obj (
                  field "url" (text "u")
                    (field "body" (obj (field "capability_name" (text "c") end)) end)))
                end))
            end))))

abbrev world : World
world = record {
  py = python;
  stat = λ name clock args. none;
  fixtures = λ name. some (always (json null));
  payload = obj end;
  nodes = self_loop ∷ [];
  max_steps = 3;
  native_templates = false;
}

simulate-Ends_example : Ends world 0 (simulate world "a" (int (pos 0)))
simulate-Ends_example = simulate-Ends world "a" (int (pos 0))
