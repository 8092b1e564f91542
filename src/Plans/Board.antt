-- ===== src/Plans/Board.antt =====
-- What a client sees of the plans: a board of statuses, and the requests that move a plan on it. The first half
-- is the specification, over boards alone; the second runs the operations of core/planning.py.
use ritesmith.Prelude.{
  ℕ, String, Bool, true, false, Option, none, some, List, [], ◌∷◌, ◌==◌, if◌then◌else◌,
}
use ritesmith.Registry.{Result, ok, err}
use ritesmith.Execution.{Settings}
use ritesmith.Plans.{
  PlanStatus, approved, rejected, persisted, cancelled, Plan, State, allowed, find_plan,
}
use ritesmith.Plans.Lifecycle.{
  approve_plan, reject_plan, complete_plan, cancel_plan, persist_artifacts,
}

-- A request to the service, each for a plan.
pub data Op : Type 0 where
  approve reject persist : String → Op
  complete : String → String → Option String → Op
  cancel : String → Option String → Op

-- The plan of a request, and the status that it asks for.
abbrev pub plan_of : Op → String
plan_of (approve k) = k
plan_of (reject k) = k
plan_of (persist k) = k
plan_of (complete k status summary) = k
plan_of (cancel k reason) = k

abbrev pub target_of : Op → PlanStatus
target_of (approve k) = approved
target_of (reject k) = rejected
target_of (persist k) = persisted
target_of (complete k status summary) =
    if status == "completed" then PlanStatus.completed else PlanStatus.failed
target_of (cancel k reason) = cancelled

abbrev pub Board : Type 0
Board = String → Option PlanStatus

-- Every request but `persist` asks the table of transitions.
abbrev pub permits : Op → PlanStatus → Bool
permits (persist k) current = true
permits op current = allowed current (target_of op)

abbrev pub moves : Op → Option PlanStatus → Bool
moves op none = false
moves op (some current) = permits op current

-- One request on a board: whether it is granted, and the next board.
abbrev pub grant : Op → Bool → Board → Board
grant op true b = λ k. if plan_of op == k then some (target_of op) else b k
grant op false b = b

unfoldable pub step : Op → Board → Bool × Board
step op b = (moves op (b (plan_of op)), grant op (moves op (b (plan_of op))) b)

unfoldable pub play : List Op → Board → List Bool × Board
unfolding step
play [] b = ([], b)
play (op ∷ ops) b =
    let (granted, b') = step op b in let (rest, b'') = play ops b' in (granted ∷ rest, b'')

-- The board that the table of plans shows.
abbrev pub status_of : Option Plan → Option PlanStatus
status_of none = none
status_of (some p) = some p.status

abbrev pub board : State → Board
board s k = status_of (find_plan k s.plans)

module _ (settings : Settings) (now : ℕ) where
  unfoldable pub apply : Op → State → Result State
  unfolding approve_plan reject_plan complete_plan cancel_plan persist_artifacts
  apply (approve k) s = approve_plan settings now k s
  apply (reject k) s = reject_plan settings now k s
  apply (persist k) s = persist_artifacts settings now k s
  apply (complete k status summary) s = complete_plan settings now k status summary s
  apply (cancel k reason) s = cancel_plan settings now k reason s

-- A refused request changes nothing.
abbrev pub settle : State → Result State → Bool × State
settle s (ok s') = (true, s')
settle s (err e) = (false, s)

unfoldable pub run : Settings → ℕ → List Op → State → List Bool × State
unfolding apply
run settings now [] s = ([], s)
run settings now (op ∷ ops) s =
    let (granted, s') = settle s (apply settings now op s) in
    let (rest, s'') = run settings (ℕ.suc now) ops s' in (granted ∷ rest, s'')
