-- ===== src/Simulation/Ended.antt =====
-- A simulation of ritesmith/workflows/simulation.py ends, within its budget of steps.
use ritesmith.Prelude.{
  ℕ, suc, ◌+◌, ◌≤◌, ◌<◌, String, inl, inr, Bool, true, false, Option, none, some, List, [], ◌∷◌,
  arith, ◌==◌, ltb, Bool-cases, Option-cases, present,
}
use ritesmith.Json.{Value, null, end, get, as_text, texts}
use ritesmith.Workflow.Graph.{text_field, list_field, has_kind, find_node}
use ritesmith.Simulation.Task.{World, SimulationResult, Performed, gave, broke, perform}
use ritesmith.Simulation.Calls.{Keeps, perform-steps}
use ritesmith.Simulation.Walk.{
  Walked, finished, raised, no_fuel, Frame, Go, go_to, next_of, after_task, after_sleep, slept,
  case_of, after_switch, visit_switch, after_join, joined, branches, visit_split, visit_node,
  visit_found, step_on, walk, simulate, walk_context, failed_with, branch_result, after_branch,
}

module _ (world : World) where
  -- A walk from k steps on that ends: with the steps in the budget, or with an exception.
  abbrev pub Ends : ℕ → Walked → Type 0
  Ends k (finished last s nodes) = (k ≤ s.steps) × (s.steps ≤ world.max_steps)
  Ends k (raised why s) = Unit {0}
  Ends k no_fuel = ¬ Unit {0}

  -- A way to go on that ends from k steps on.
  GoEnds : ℕ → Go → Type 0
  GoEnds k go =
      (t : String) (f : Frame)
      → k ≤ f.state.steps
      → f.state.steps ≤ world.max_steps
      → Ends k (go t f)

  module _ (k : ℕ) (go : Go) (h : GoEnds k go) where
    go_to-Ends :
        (t : Option String) (f : Frame)
        → k ≤ f.state.steps
        → f.state.steps ≤ world.max_steps
        → Ends k (go_to go t f)
    unfolding go_to GoEnds
    go_to-Ends none f a b = tt
    go_to-Ends (some t) f a b = h t f a b

    after_task-Ends :
        (current : String) (node context : Value) (f : Frame) (p : Performed)
        → k ≤ f.state.steps
        → f.state.steps ≤ world.max_steps
        → Keeps f.state.steps p
        → Ends k (after_task world go current node context f p)
    unfolding after_task
    after_task-Ends current node context f (broke s) a b e = tt
    after_task-Ends current node context f (gave last s) a b e =
        elim (Bool-cases (failed_with last)) [
          | inl bad ↦ rw (bad, after_task) tt
          | inr fine ↦
              rw (fine, after_task)
                (go_to-Ends (next_of (get "next" node)) _ (omega (arith, a, e))
                  (omega (arith, b, e)))
        ]

    after_sleep-Ends :
        (node : Value) (f : Frame) (clock : Option Value)
        → k ≤ f.state.steps
        → f.state.steps ≤ world.max_steps
        → Ends k (after_sleep world go node f clock)
    unfolding after_sleep
    after_sleep-Ends node f none a b = tt
    after_sleep-Ends node f (some clock) a b = go_to-Ends (next_of (get "next" node)) _ a b

    after_switch-Ends :
        (f : Frame) (r : Bool × Option String)
        → k ≤ f.state.steps
        → f.state.steps ≤ world.max_steps
        → Ends k (after_switch world go f r)
    unfolding after_switch
    after_switch-Ends f (false, t) a b = tt
    after_switch-Ends f (true, t) a b = go_to-Ends t f a b

    visit_switch-Ends :
        (node context : Value) (f : Frame)
        → k ≤ f.state.steps
        → f.state.steps ≤ world.max_steps
        → Ends k (visit_switch world go node context f)
    unfolding visit_switch
    visit_switch-Ends node context f a b = elim (Option-cases (get "default" node)) [
      | inl missing ↦ rw (missing, visit_switch) tt
      | inr (default, given) ↦ elim (Bool-cases (present (get "cases" node))) [
        | inr without ↦ rw (given, without, visit_switch) tt
        | inl there ↦
            rw (given, there, visit_switch)
              (after_switch-Ends f
                (case_of world context (list_field "cases" node) (as_text (some default))) a b)
      ]
    ]

    after_join-Ends :
        (join : String) (f : Frame) (node : Option Value)
        → k ≤ f.state.steps
        → f.state.steps ≤ world.max_steps
        → Ends k (after_join world go join f node)
    unfolding after_join
    after_join-Ends join f none a b = tt
    after_join-Ends join f (some node) a b = go_to-Ends (next_of (get "next" node)) f a b

    joined-Ends :
        (join : Option String) (clocks results : List Value) (f : Frame)
        → k ≤ f.state.steps
        → f.state.steps ≤ world.max_steps
        → Ends k (joined world go join clocks results f)
    unfolding joined
    joined-Ends none clocks results f a b = tt
    joined-Ends (some join) clocks results f a b = elim (Option-cases (world.py.max_of clocks)) [
      | inl missing ↦ rw (missing, joined) tt
      | inr (clock, given) ↦
          rw (given, joined) (after_join-Ends join _ (find_node join world.nodes) a b)
    ]

    after_branch-Ends :
        (more : Value → SimulationResult → Walked) (w : Walked)
        → Ends k w
        → ((result : Value) (s : SimulationResult)
            → k ≤ s.steps
            → s.steps ≤ world.max_steps
            → Ends k (more result s))
        → Ends k (after_branch world more w)
    unfolding after_branch
    after_branch-Ends more (finished result s nodes) e fine = fine result s e.0 e.1
    after_branch-Ends more (raised why s) e fine = tt
    after_branch-Ends more no_fuel e fine = e

    branches-Ends :
        (start : Value) (bs : List String)
        (ended : List Value → List Value → SimulationResult → Walked) (s : SimulationResult)
        → ((clocks results : List Value) (t : SimulationResult)
            → k ≤ t.steps
            → t.steps ≤ world.max_steps
            → Ends k (ended clocks results t))
        → k ≤ s.steps
        → s.steps ≤ world.max_steps
        → Ends k (branches world go start bs ended s)
    unfolding branches GoEnds
    branches-Ends start [] ended s fine a b = fine [] [] s a b
    branches-Ends start (t ∷ ts) ended s fine a b =
        let f : Frame = record {
          last_value = null;
          nodes = end;
          stack = [];
          state = record s { clock = start };
        } in
        after_branch-Ends _ (go t f) (h t f a b) (λ result s' c d.
          branches-Ends start ts
            (λ clocks results. ended (s'.clock ∷ clocks) (branch_result world t result ∷ results))
            s'
            (λ clocks results u x y.
              fine (s'.clock ∷ clocks) (branch_result world t result ∷ results) u x y)
            c d)

    visit_split-Ends :
        (node : Value) (f : Frame)
        → k ≤ f.state.steps
        → f.state.steps ≤ world.max_steps
        → Ends k (visit_split world go node f)
    unfolding visit_split
    visit_split-Ends node f a b =
        branches-Ends f.state.clock (texts (list_field "branches" node)) _ f.state
          (λ clocks results t x y.
            joined-Ends (text_field "join" node) clocks results (record f { state = t }) x y)
          a b

    visit_node-Ends :
        (current : String) (node : Value) (f : Frame)
        → k ≤ f.state.steps
        → f.state.steps ≤ world.max_steps
        → Ends k (visit_node world go current node f)
    unfolding visit_node
    visit_node-Ends current node f a b =
        let context = walk_context world.payload f.nodes in
        elim (Bool-cases (has_kind "task" node)) [
          | inl task ↦
              rw (task, visit_node)
                (after_task-Ends current node context f (perform world current node context f.state)
                  a b (perform-steps world current node context f.state))
          | inr t ↦ elim (Bool-cases (has_kind "sleep" node)) [
            | inl sleep ↦
                rw (t, sleep, visit_node)
                  (after_sleep-Ends node f (slept world (get "durationSeconds" node) f.state.clock)
                    a b)
            | inr l ↦ elim (Bool-cases (has_kind "switch" node)) [
              | inl switch ↦ rw (t, l, switch, visit_node) (visit_switch-Ends node context f a b)
              | inr w ↦ elim (Bool-cases (has_kind "split" node)) [
                | inl split ↦ rw (t, l, w, split, visit_node) (visit_split-Ends node f a b)
                | inr p ↦ elim (Bool-cases (has_kind "join" node)) [
                  | inl join ↦ rw (t, l, w, p, join, visit_node) tt
                  | inr j ↦ rw (t, l, w, p, j, visit_node) tt
                ]
              ]
            ]
          ]
        ]

    visit_found-Ends :
        (current : String) (node : Option Value) (f : Frame)
        → k ≤ f.state.steps
        → f.state.steps ≤ world.max_steps
        → Ends k (visit_found world go current node f)
    unfolding visit_found
    visit_found-Ends current none f a b = tt
    visit_found-Ends current (some node) f a b = visit_node-Ends current node f a b

  Ends-le : (j k : ℕ) (w : Walked) → j ≤ k → Ends k w → Ends j w
  Ends-le j k (finished last s nodes) h e = (omega (arith, h, e.0), e.1)
  Ends-le j k (raised why s) h e = tt
  Ends-le j k no_fuel h e = e

  -- A walk with more fuel than steps are left ends.
  walk-Ends :
      (n : ℕ) (current : String) (f : Frame)
      → world.max_steps < n + f.state.steps
      → f.state.steps ≤ world.max_steps
      → Ends f.state.steps (walk world n current f)
  unfolding walk step_on GoEnds
  walk-Ends ℕ.zero current f room b = absurd (omega (arith, room, b))
  walk-Ends (suc n) current f room b = elim (Bool-cases (current == "end")) [
    | inl last ↦ rw (last, step_on) (omega arith, b)
    | inr go_on ↦ elim (Bool-cases (ltb world.max_steps (f.state.steps + 1))) [
      | inl over ↦ rw (go_on, over, step_on) tt
      | inr left ↦
          let k = f.state.steps + 1 in
          let g : Frame = record f { state = record f.state { steps = k } } in
          rw (go_on, left, step_on)
            (Ends-le f.state.steps k _ (omega arith) (
              visit_found-Ends k (walk world n)
                (λ t f' x y.
                  Ends-le k f'.state.steps _ x (walk-Ends n t f' (omega (arith, room, x)) y))
                current (find_node current world.nodes) g (omega arith) (ground (arith, left))))
    ]
  ]

  -- The simulation of a workflow ends: its fuel does not run out, and where it ends with no
  -- exception, it has visited at most max_steps nodes.
  pub simulate-Ends : (entrypoint : String) (now : Value) → Ends 0 (simulate world entrypoint now)
  unfolding simulate
  simulate-Ends entrypoint now =
      walk-Ends (suc world.max_steps) entrypoint _ (omega arith) (omega arith)
