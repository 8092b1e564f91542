-- ===== src/Spending.antt =====
-- ritesmith/llm/spend_budget.py with the prices of ritesmith/observability/costs.py: reservations of paid calls.
-- An amount is a natural number of 10^-9 dollars; a price is one of 10^-3 dollars for a million tokens, so a number of tokens times
-- its price is an amount. The file that `flush` writes is the state itself. The length of the encoded
-- request is a field of the request.
pub mod Steps
pub mod Within
pub mod Kept
pub mod Blocked
mod Tests
use ritesmith.Prelude.{
  ℕ, suc, ◌+◌, ◌-◌, ◌*◌, String, Bool, true, false, not, ◌&&◌, ◌||◌, Option, none, some, List, [],
  ◌∷◌, ◌++◌, ◌==◌, leb, ltb, elem, length, text_given, if◌then◌else◌,
}
use ritesmith.Json.{ℤ, pos, negsuc, Value, int, boolean, text}

pub record Price : Type 0 where
  pub prompt : ℕ
  pub cached : ℕ
  pub completion : ℕ

-- `PRICES.get`
unfoldable pub prices : String → Option Price
prices model =
    if model == "gpt-5-mini"
    then some (record { prompt = 250; cached = 25; completion = 2000 })
    else if model == "gpt-5"
    then some (record { prompt = 1250; cached = 125; completion = 10000 })
    else if model == "gpt-5.2"
    then some (record { prompt = 1750; cached = 175; completion = 14000 })
    else if model == "gpt-5.4-mini"
    then some (record { prompt = 750; cached = 75; completion = 4500 })
    else if model == "gpt-4.1-nano"
    then some (record { prompt = 100; cached = 25; completion = 400 })
    else none

abbrev pub accounted : List String
accounted = "gpt-5-mini" ∷ "gpt-5.4-mini" ∷ "gpt-4.1-nano" ∷ []

pub data CallStatus : Type 0 where
  reserved unknown settled : CallStatus

pub record Call : Type 0 where
  pub model : String
  pub status : CallStatus
  pub reserved_usd : ℕ
  pub actual_usd : Option ℕ
  pub input_token_bound : ℕ
  pub output_token_bound : ℕ
  pub cell : Option String

-- `self.state`; the calls and the requests are in the order in which they were appended.
pub record SpendBudget : Type 0 where
  pub limit_usd : ℕ
  pub max_requests : ℕ
  pub requests : List String
  pub calls : List Call
  pub blocked : Option String

-- The keyword arguments of a call that the budget reads, and the number of bytes of their JSON text.
pub record Kwargs : Type 0 where
  pub model : String
  pub service_tier : Option Value
  pub has_tools : Bool
  pub max_completion_tokens : Option Value
  pub max_tokens : Option Value
  pub bytes : ℕ

pub record Usage : Type 0 where
  pub prompt_tokens : ℤ
  pub completion_tokens : ℤ
  pub cached_tokens : ℤ

-- A response; without choices the read of the first one raises.
pub record Response : Type 0 where
  pub service_tier : Option Value
  pub usage : Option Usage
  pub has_choices : Bool

abbrev pub input_headroom : ℕ
input_headroom = 4096

-- A budget without a file.
unfoldable pub new_budget : ℕ → ℕ → SpendBudget
new_budget limit_usd max_requests = record {
  limit_usd = limit_usd;
  max_requests = max_requests;
  requests = [];
  calls = [];
  blocked = none;
}

unfoldable pub is_reserved : CallStatus → Bool
is_reserved reserved = true
is_reserved _ = false

unfoldable pub any_reserved : List Call → Bool
unfolding is_reserved
any_reserved [] = false
any_reserved (c ∷ cs) = is_reserved c.status || any_reserved cs

unfoldable pub stop : String → SpendBudget → SpendBudget
stop reason s = record s { blocked = some reason }

-- A budget that is read from its file.
unfoldable pub restart : SpendBudget → SpendBudget
unfolding any_reserved
restart s =
    if any_reserved s.calls then record s { blocked = some "unfinished_call_usage_unknown" } else s

-- The Boolean is false where LLMError is raised; `stop` followed by `check` raises.
unfoldable pub refuse : String → SpendBudget → Bool × SpendBudget
unfolding stop
refuse reason s = (false, stop reason s)

unfoldable pub request : String → SpendBudget → Bool × SpendBudget
unfolding refuse
request cell s =
    if text_given s.blocked
    then (false, s)
    else if elem cell s.requests || leb s.max_requests (length s.requests)
    then refuse "request_limit_or_duplicate" s
    else (true, record s { requests = s.requests ++ cell ∷ [] })

-- Whether a tier that may be absent is the default one.
unfoldable pub default_tier : Option Value → Bool
default_tier none = true
default_tier (some (text t)) = t == "default"
default_tier (some _) = false

-- A positive `int`; a `bool` is one too.
unfoldable pub token_bound : Option Value → Option ℕ
token_bound (some (int (pos (suc n)))) = some (suc n)
token_bound (some (boolean true)) = some 1
token_bound _ = none

unfoldable pub output_bound : Kwargs → Option Value
output_bound kwargs = elim kwargs.max_completion_tokens [
  | some v ↦ some v
  | none ↦ kwargs.max_tokens
]

-- `call.get("actual_usd", call["reserved_usd"])`
unfoldable pub amount : Call → ℕ
amount c = elim c.actual_usd [ some n ↦ n | none ↦ c.reserved_usd ]

unfoldable pub occupied : List Call → ℕ
unfolding amount
occupied [] = 0
occupied (c ∷ cs) = amount c + occupied cs

unfoldable pub last_cell : List String → Option String
last_cell [] = none
last_cell (r ∷ []) = some r
last_cell (r ∷ q ∷ rs) = last_cell (q ∷ rs)

unfoldable pub maximum : Price → ℕ → ℕ → ℕ
maximum p input output = input * p.prompt + output * p.completion

unfoldable pub new_call : Kwargs → Price → ℕ → SpendBudget → Call
unfolding maximum last_cell
new_call kwargs p output s = record {
  model = kwargs.model;
  status = reserved;
  reserved_usd = maximum p (kwargs.bytes + input_headroom) output;
  actual_usd = none;
  input_token_bound = kwargs.bytes + input_headroom;
  output_token_bound = output;
  cell = last_cell s.requests;
}

unfoldable pub reserve_priced : Kwargs → Price → Option ℕ → SpendBudget → Bool × SpendBudget
unfolding new_call occupied maximum refuse
reserve_priced kwargs p none s = refuse "unbounded_output" s
reserve_priced kwargs p (some output) s =
    if ltb s.limit_usd (occupied s.calls + maximum p (kwargs.bytes + input_headroom) output)
    then refuse "spending_limit" s
    else (true, record s { calls = s.calls ++ new_call kwargs p output s ∷ [] })

unfoldable pub reserve_model : Kwargs → Option Price → SpendBudget → Bool × SpendBudget
unfolding reserve_priced refuse default_tier
reserve_model kwargs none s = refuse "unaccounted_model_price" s
reserve_model kwargs (some p) s =
    if not (elem kwargs.model accounted)
    then refuse "unaccounted_model_price" s
    else if not (default_tier kwargs.service_tier) || kwargs.has_tools
    then refuse "unaccounted_request_pricing" s
    else reserve_priced kwargs p (token_bound (output_bound kwargs)) s

unfoldable pub reserve : Kwargs → SpendBudget → Bool × SpendBudget
unfolding reserve_model
reserve kwargs s =
    if text_given s.blocked then (false, s) else reserve_model kwargs (prices kwargs.model) s

unfoldable pub call_at : ℕ → List Call → Option Call
call_at i [] = none
call_at ℕ.zero (c ∷ cs) = some c
call_at (suc i) (c ∷ cs) = call_at i cs

unfoldable pub set_call : ℕ → Call → List Call → List Call
set_call i d [] = []
set_call ℕ.zero d (c ∷ cs) = d ∷ cs
set_call (suc i) d (c ∷ cs) = c ∷ set_call i d cs

-- `unknown` of the call with index `i`.
unfoldable pub unknown_usage : ℕ → Call → String → SpendBudget → SpendBudget
unfolding set_call stop
unknown_usage i c reason s =
    stop reason (record s { calls = set_call i (record c { status = unknown }) s.calls })

unfoldable pub natural : ℤ → Option ℕ
natural (pos n) = some n
natural (negsuc n) = none

-- The numbers of prompt, cached and completion tokens, where they are within the bounds of the call.
unfoldable pub within_bounds : Call → Option ℕ → Option ℕ → Option ℕ → Option (ℕ × ℕ × ℕ)
within_bounds c (some prompt) (some cached) (some completion) =
    if leb cached prompt && leb prompt c.input_token_bound && leb completion c.output_token_bound
    then some (prompt, cached, completion)
    else none
within_bounds c _ _ _ = none

unfoldable pub cost : Price → ℕ → ℕ → ℕ → ℕ
cost p prompt cached completion =
    (prompt - cached) * p.prompt + cached * p.cached + completion * p.completion

unfoldable pub charge :
    ℕ → Call → Option Price → Bool → ℕ → ℕ → ℕ → SpendBudget → Bool × SpendBudget
unfolding set_call cost
charge i c none has_choices prompt cached completion s = (false, s)
charge i c (some p) has_choices prompt cached completion s =
    if not has_choices then (false, s) else (
      true,
      record s {
        calls =
            set_call i
              (record c { status = settled; actual_usd = some (cost p prompt cached completion) })
              s.calls;
      },
    )

unfoldable pub settle_usage :
    ℕ → Call → Bool → Option (ℕ × ℕ × ℕ) → SpendBudget → Bool × SpendBudget
unfolding charge unknown_usage
settle_usage i c has_choices none s = (true, unknown_usage i c "usage_exceeds_reservation" s)
settle_usage i c has_choices (some (prompt, cached, completion)) s =
    charge i c (prices c.model) has_choices prompt cached completion s

unfoldable pub settle : ℕ → Call → Response → SpendBudget → Bool × SpendBudget
unfolding settle_usage unknown_usage default_tier
settle i c response s =
    if not (default_tier response.service_tier)
    then (true, unknown_usage i c "unaccounted_response_service_tier" s)
    else elim response.usage [
      | none ↦ (true, unknown_usage i c "missing_usage" s)
      | some u ↦
          settle_usage i c response.has_choices
            (within_bounds c (natural u.prompt_tokens) (natural u.cached_tokens)
              (natural u.completion_tokens))
            s
    ]
