-- ===== src/Spending/Within.antt =====
-- The budget of ritesmith/llm/spend_budget.py holds: what is reserved and what was paid, together, and the number of requests.
use mathlib.Core.Option.{some-injective, none-ne-some}
use ritesmith.Prelude.{
  ℕ, suc, ◌+◌, ◌-◌, ◌*◌, ◌≤◌, String, ◌≡◌, refl, ap, subst, inl, inr, false, not, ◌||◌, Option,
  none, some, List, [], ◌∷◌, ◌++◌, arith, ◌==◌, leb, ltb, elem, length, text_given, All, Bool-cases,
  eq_iff,
}
use ritesmith.Spending.{
  Price, prices, reserved, Call, SpendBudget, Kwargs, stop, refuse, any_reserved, accounted,
  input_headroom, restart, request, amount, occupied, maximum, new_call, reserve_priced,
  reserve_model, reserve, call_at, set_call, cost, token_bound, output_bound, default_tier,
}

mul-le : (k m n : ℕ) → m ≤ n → m * k ≤ n * k
mul-le ℕ.zero m n h = omega arith
mul-le (suc k) m n h = omega (arith, mul-le k m n h, h)

-- A cached token costs at most what a prompt token costs.
pub cached-le : (model : String) (p : Price) → prices model ≡ some p → p.cached ≤ p.prompt
unfolding prices
cached-le model p h = ground (arith, h)

pub cost-le :
    (p : Price) (prompt cached completion input output : ℕ)
    → p.cached ≤ p.prompt
    → cached ≤ prompt
    → prompt ≤ input
    → completion ≤ output
    → cost p prompt cached completion ≤ maximum p input output
unfolding cost maximum
cost-le p prompt cached completion input output cheap part inside fits =
    let a : cached * p.cached ≤ cached * p.prompt =
      omega (arith, mul-le cached p.cached p.prompt cheap) in
    let b : ((prompt - cached) + cached) * p.prompt ≤ input * p.prompt =
      mul-le p.prompt ((prompt - cached) + cached) input (omega (arith, part, inside)) in
    let c = mul-le p.completion completion output fits in omega (arith, a, b, c)

-- A call keeps to the reservation that its bounds make, and one that is reserved has no actual amount.
pub record IsFair (c : Call) : Type 0 where
  pub price : Price
  pub listed : prices c.model ≡ some price
  pub made : c.reserved_usd ≡ maximum price c.input_token_bound c.output_token_bound
  pub open_amount : c.status ≡ reserved → c.actual_usd ≡ none

pub amount-reserved : (c : Call) → IsFair c → c.status ≡ reserved → amount c ≡ c.reserved_usd
unfolding amount
amount-reserved c h e = rw (h.open_amount e) refl

-- No two requests are the same.
abbrev pub Distinct : List String → Type 0
Distinct [] = Unit {0}
Distinct (r ∷ rs) = (elem r rs ≡ false) × Distinct rs

pub record IsWithin (limit max : ℕ) (s : SpendBudget) : Type 0 where
  pub limit_kept : s.limit_usd ≡ limit
  pub max_kept : s.max_requests ≡ max
  pub total : occupied s.calls ≤ limit
  pub fair : All IsFair s.calls
  pub count : length s.requests ≤ max
  pub distinct : Distinct s.requests

occupied-append : (cs : List Call) (c : Call) → occupied (cs ++ c ∷ []) ≡ occupied cs + amount c
unfolding occupied
occupied-append [] c = omega arith
occupied-append (d ∷ cs) c = omega (arith, occupied-append cs c)

All-append : (cs : List Call) (c : Call) → All IsFair cs → IsFair c → All IsFair (cs ++ c ∷ [])
All-append [] c h f = (f, tt)
All-append (d ∷ cs) c h f = (h.0, All-append cs c h.1 f)

pub All-at : (i : ℕ) (cs : List Call) (c : Call) → All IsFair cs → call_at i cs ≡ some c → IsFair c
unfolding call_at
All-at i [] c h e = absurd (none-ne-some _ e)
All-at ℕ.zero (d ∷ cs) c h e = subst IsFair (some-injective _ _ e) (h.0)
All-at (suc i) (d ∷ cs) c h e = All-at i cs c h.1 e

pub All-set :
    (i : ℕ) (cs : List Call) (d : Call) → All IsFair cs → IsFair d → All IsFair (set_call i d cs)
unfolding set_call
All-set i [] d h f = tt
All-set ℕ.zero (c ∷ cs) d h f = (f, h.1)
All-set (suc i) (c ∷ cs) d h f = (h.0, All-set i cs d h.1 f)

pub occupied-set :
    (i : ℕ) (cs : List Call) (c d : Call)
    → call_at i cs ≡ some c
    → amount d ≤ amount c
    → occupied (set_call i d cs) ≤ occupied cs
unfolding occupied set_call call_at
occupied-set i [] c d e h = omega arith
occupied-set ℕ.zero (b ∷ cs) c d e h = omega (arith, h, ap amount (some-injective _ _ e))
occupied-set (suc i) (b ∷ cs) c d e h = omega (arith, occupied-set i cs c d e h)

length-append_one : (rs : List String) (r : String) → length (rs ++ r ∷ []) ≡ suc (length rs)
length-append_one [] r = refl
length-append_one (q ∷ rs) r = ap suc (length-append_one rs r)

elem-append_one :
    (x : String) (rs : List String) (r : String) → elem x (rs ++ r ∷ []) ≡ (elem x rs || x == r)
unfolding elem
elem-append_one x [] r = ground arith
elem-append_one x (q ∷ rs) r = ground (arith, elem-append_one x rs r)

Distinct-append :
    (rs : List String) (r : String) → Distinct rs → elem r rs ≡ false → Distinct (rs ++ r ∷ [])
unfolding elem
Distinct-append [] r h e = (refl, tt)
Distinct-append (q ∷ rs) r h e = (
  ground (arith, h.0, e, elem-append_one q rs r, eq_iff q r, eq_iff r q),
  Distinct-append rs r h.1 (ground (arith, e)),
)

module _ (limit max : ℕ) where
  pub stop-IsWithin :
      (reason : String) (s : SpendBudget)
      → IsWithin limit max s
      → IsWithin limit max (stop reason s)
  unfolding stop
  stop-IsWithin reason s h = record {
    limit_kept = h.limit_kept;
    max_kept = h.max_kept;
    total = h.total;
    fair = h.fair;
    count = h.count;
    distinct = h.distinct;
  }

  pub restart-IsWithin : (s : SpendBudget) → IsWithin limit max s → IsWithin limit max (restart s)
  unfolding restart stop
  restart-IsWithin s h = elim (Bool-cases (any_reserved s.calls)) [
    | inl unfinished ↦ rw unfinished (stop-IsWithin "unfinished_call_usage_unknown" s h)
    | inr closed ↦ rw closed h
  ]

  pub request-IsWithin :
      (cell : String) (s : SpendBudget)
      → IsWithin limit max s
      → IsWithin limit max ((request cell s).1)
  unfolding request refuse
  request-IsWithin cell s h = elim (Bool-cases (text_given s.blocked)) [
    | inl blocked ↦ rw (blocked, request) h
    | inr go ↦ elim (Bool-cases (elem cell s.requests || leb s.max_requests (length s.requests))) [
      | inl full ↦ rw (go, full, request) (stop-IsWithin "request_limit_or_duplicate" s h)
      | inr room ↦
          rw (go, room, request)
            (record {
              limit_kept = h.limit_kept;
              max_kept = h.max_kept;
              total = h.total;
              fair = h.fair;
              count = ground (arith, room, h.max_kept, h.count, length-append_one s.requests cell);
              distinct = Distinct-append s.requests cell h.distinct (ground (arith, room));
            })
    ]
  ]

  -- The calls with another call at the end or in the place of one.
  pub with_calls :
      (cs : List Call) (s : SpendBudget)
      → IsWithin limit max s
      → occupied cs ≤ limit
      → All IsFair cs
      → IsWithin limit max (record s { calls = cs })
  with_calls cs s h total fair = record {
    limit_kept = h.limit_kept;
    max_kept = h.max_kept;
    total = total;
    fair = fair;
    count = h.count;
    distinct = h.distinct;
  }

  new_call-IsFair :
      (kwargs : Kwargs) (p : Price) (output : ℕ) (s : SpendBudget)
      → prices kwargs.model ≡ some p
      → IsFair (new_call kwargs p output s)
  unfolding new_call
  new_call-IsFair kwargs p output s e = record {
    price = p;
    listed = e;
    made = refl;
    open_amount = λ r. refl;
  }

  reserve_priced-IsWithin :
      (kwargs : Kwargs) (p : Price) (output : Option ℕ) (s : SpendBudget)
      → prices kwargs.model ≡ some p
      → IsWithin limit max s
      → IsWithin limit max ((reserve_priced kwargs p output s).1)
  unfolding reserve_priced refuse new_call amount
  reserve_priced-IsWithin kwargs p none s e h = stop-IsWithin "unbounded_output" s h
  reserve_priced-IsWithin kwargs p (some output) s e h =
      let most = maximum p (kwargs.bytes + input_headroom) output in
      elim (Bool-cases (ltb s.limit_usd (occupied s.calls + most))) [
        | inl over ↦ rw (over, reserve_priced) (stop-IsWithin "spending_limit" s h)
        | inr fits ↦
            let c = new_call kwargs p output s in
            rw (fits, reserve_priced)
              (with_calls (s.calls ++ c ∷ []) s h
                (ground (arith, fits, h.limit_kept, occupied-append s.calls c))
                (All-append s.calls c h.fair (new_call-IsFair kwargs p output s e)))
      ]

  reserve_model-IsWithin :
      (kwargs : Kwargs) (p : Option Price) (s : SpendBudget)
      → prices kwargs.model ≡ p
      → IsWithin limit max s
      → IsWithin limit max ((reserve_model kwargs p s).1)
  unfolding reserve_model refuse
  reserve_model-IsWithin kwargs none s e h = stop-IsWithin "unaccounted_model_price" s h
  reserve_model-IsWithin kwargs (some p) s e h = elim (Bool-cases (elem kwargs.model accounted)) [
    | inr foreign ↦ rw (foreign, reserve_model) (stop-IsWithin "unaccounted_model_price" s h)
    | inl listed ↦ elim (Bool-cases (not (default_tier kwargs.service_tier) || kwargs.has_tools)) [
      | inl odd ↦ rw (listed, odd, reserve_model) (stop-IsWithin "unaccounted_request_pricing" s h)
      | inr plain ↦
          rw (listed, plain, reserve_model)
            (reserve_priced-IsWithin kwargs p (token_bound (output_bound kwargs)) s e h)
    ]
  ]

  pub reserve-IsWithin :
      (kwargs : Kwargs) (s : SpendBudget)
      → IsWithin limit max s
      → IsWithin limit max ((reserve kwargs s).1)
  unfolding reserve
  reserve-IsWithin kwargs s h = elim (Bool-cases (text_given s.blocked)) [
    | inl blocked ↦ rw (blocked, reserve) h
    | inr go ↦ rw (go, reserve) (reserve_model-IsWithin kwargs (prices kwargs.model) s refl h)
  ]
