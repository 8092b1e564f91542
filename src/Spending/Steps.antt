-- ===== src/Spending/Steps.antt =====
-- What happens to a budget: the operations of ritesmith/llm/spend_budget.py in any order, also of calls that run at
-- the same time, and `dispatch`, which is a reservation and what comes of it.
use ritesmith.Prelude.{ℕ, String, ◌≡◌, Bool, true, false, Option, none, some, length, text_given}
use ritesmith.Json.{text}
use ritesmith.Spending.{
  reserved, Call, SpendBudget, Kwargs, Response, stop, restart, request, reserve, call_at,
  unknown_usage, settle,
}

-- `{"service_tier": "default", **kwargs}`
unfoldable pub with_tier : Kwargs → Kwargs
with_tier kwargs = elim kwargs.service_tier [
  | none ↦ record kwargs { service_tier = some (text "default") }
  | some _ ↦ kwargs
]

-- The answer to a call, where none is an exception.
unfoldable pub answered : ℕ → Option Call → Option Response → SpendBudget → Bool × SpendBudget
answered i none answer s = (false, s)
answered i (some c) none s = (false, unknown_usage i c "failed_or_cancelled_call_usage_unknown" s)
answered i (some c) (some response) s = settle i c response s

unfoldable pub after_reserve : ℕ → Option Response → Bool × SpendBudget → Bool × SpendBudget
unfolding answered call_at
after_reserve i answer (false, s) = (false, s)
after_reserve i answer (true, s) = answered i (call_at i s.calls) answer s

-- A dispatch during which nothing else happens to the budget.
unfoldable pub dispatch : Kwargs → Option Response → SpendBudget → Bool × SpendBudget
unfolding after_reserve with_tier
dispatch kwargs answer s = after_reserve (length s.calls) answer (reserve (with_tier kwargs) s)

-- One step; a call is settled or given up only while it is reserved.
pub data Step : SpendBudget → SpendBudget → Type 0 where
  requested : {s : SpendBudget} (cell : String) → Step s ((request cell s).1)
  called : {s : SpendBudget} (kwargs : Kwargs) → Step s ((reserve kwargs s).1)
  settling :
      {s : SpendBudget} (i : ℕ) (c : Call) (response : Response)
      → call_at i s.calls ≡ some c
      → c.status ≡ reserved
      → Step s ((settle i c response s).1)
  failing :
      {s : SpendBudget} (i : ℕ) (c : Call) (reason : String)
      → call_at i s.calls ≡ some c
      → c.status ≡ reserved
      → text_given (some reason) ≡ true
      → Step s (unknown_usage i c reason s)
  stopped :
      {s : SpendBudget} (reason : String) → text_given (some reason) ≡ true → Step s (stop reason s)
  restarted : {s : SpendBudget} → Step s (restart s)

-- Any number of steps.
pub data Reachable (s : SpendBudget) : SpendBudget → Type 0 where
  here : Reachable s s
  after : {t u : SpendBudget} → Reachable s t → Step t u → Reachable s u
