-- ===== src/Spending/Kept.antt =====
-- No step takes a budget of ritesmith/llm/spend_budget.py over its limits.
use mathlib.Core.Option.{some-injective, none-ne-some}
use ritesmith.Prelude.{
  ℕ, ◌≤◌, String, ◌≡◌, refl, sym, ap, subst, ◌∙◌, inl, inr, Bool, true, false, ◌&&◌, Option, none,
  some, arith, leb, length, Bool-cases, Option-cases,
}
use ritesmith.Spending.{
  Price, prices, reserved, unknown, settled, Call, SpendBudget, Response, new_budget, amount,
  occupied, maximum, call_at, set_call, unknown_usage, within_bounds, cost, charge, settle_usage,
  settle, default_tier, natural,
}
use ritesmith.Spending.Steps.{
  Step, Reachable, requested, called, settling, failing, stopped, restarted, here, after,
}
use ritesmith.Spending.Within.{
  cached-le, cost-le, IsFair, amount-reserved, IsWithin, All-at, All-set, occupied-set, Distinct,
  stop-IsWithin, restart-IsWithin, request-IsWithin, reserve-IsWithin, with_calls,
}

-- Three numbers of tokens within the bounds of a call.
abbrev Fits : Call → ℕ × ℕ × ℕ → Type 0
Fits c t = (t.1 ≤ t.0) × (t.0 ≤ c.input_token_bound) × (t.2 ≤ c.output_token_bound)

within_bounds-Fits :
    (c : Call) (prompt cached completion : Option ℕ) (t : ℕ × ℕ × ℕ)
    → within_bounds c prompt cached completion ≡ some t
    → Fits c t
unfolding within_bounds
within_bounds-Fits c (some prompt) (some cached) (some completion) t e =
    elim (Bool-cases (
      leb cached prompt && leb prompt c.input_token_bound && leb completion c.output_token_bound)) [
        | inl fine ↦
            subst (Fits c) (some-injective _ _ (rw (fine, within_bounds) at e))
              (ground (arith, fine), ground (arith, fine), ground (arith, fine))
        | inr off ↦ absurd (none-ne-some _ (rw (off, within_bounds) at e))
      ]
within_bounds-Fits c _ _ _ t e = absurd (none-ne-some _ e)

settled-reserved : ¬ (settled ≡ reserved)
settled-reserved = cc

module _ (limit max i : ℕ) (c : Call) (s : SpendBudget) (h : IsWithin limit max s)
    (there : call_at i s.calls ≡ some c) (busy : c.status ≡ reserved) where
  fair : IsFair c
  fair = All-at i s.calls c h.fair there

  unknown_usage-IsWithin : (reason : String) → IsWithin limit max (unknown_usage i c reason s)
  unfolding unknown_usage amount
  unknown_usage-IsWithin reason =
      let d : Call = record c { status = unknown } in
      let f : IsFair d = record {
        price = fair.price;
        listed = fair.listed;
        made = fair.made;
        open_amount = λ r. fair.open_amount busy;
      } in
      stop-IsWithin limit max reason (record s { calls = set_call i d s.calls })
        (with_calls limit max (set_call i d s.calls) s h
          (omega (arith, occupied-set i s.calls c d there (omega arith), h.total))
          (All-set i s.calls d h.fair f))

  charge-IsWithin :
      (p : Option Price) (has_choices : Bool) (t : ℕ × ℕ × ℕ)
      → prices c.model ≡ p
      → Fits c t
      → IsWithin limit max ((charge i c p has_choices t.0 t.1 t.2 s).1)
  unfolding charge amount
  charge-IsWithin none has_choices t e fits = h
  charge-IsWithin (some p) false t e fits = h
  charge-IsWithin (some p) true t e (part, inside, room) =
      let paid = cost p t.0 t.1 t.2 in
      let d : Call = record c { status = settled; actual_usd = some paid } in
      let same : fair.price ≡ p = some-injective _ _ (sym fair.listed ∙ e) in
      let cheap : paid ≤ maximum p c.input_token_bound c.output_token_bound =
        cost-le p t.0 t.1 t.2 c.input_token_bound c.output_token_bound (cached-le c.model p e) part
          inside room in
      let most : c.reserved_usd ≡ maximum p c.input_token_bound c.output_token_bound =
        fair.made ∙ ap (λ q. maximum q c.input_token_bound c.output_token_bound) same in
      let f : IsFair d = record {
        price = fair.price;
        listed = fair.listed;
        made = fair.made;
        open_amount = λ r. absurd (settled-reserved r);
      } in
      with_calls limit max (set_call i d s.calls) s h
        (omega (
          arith,
          occupied-set i s.calls c d there
              (omega (arith, cheap, most, amount-reserved c fair busy)),
          h.total,
        ))
        (All-set i s.calls d h.fair f)

  settle_usage-IsWithin :
      (has_choices : Bool) (t : Option (ℕ × ℕ × ℕ))
      → ((u : ℕ × ℕ × ℕ) → t ≡ some u → Fits c u)
      → IsWithin limit max ((settle_usage i c has_choices t s).1)
  unfolding settle_usage
  settle_usage-IsWithin has_choices none fits = unknown_usage-IsWithin "usage_exceeds_reservation"
  settle_usage-IsWithin has_choices (some t) fits =
      charge-IsWithin (prices c.model) has_choices t refl (fits t refl)

  settle-IsWithin : (response : Response) → IsWithin limit max ((settle i c response s).1)
  unfolding settle
  settle-IsWithin response = elim (Bool-cases (default_tier response.service_tier)) [
    | inr other ↦ rw (other, settle) (unknown_usage-IsWithin "unaccounted_response_service_tier")
    | inl default ↦ elim (Option-cases response.usage) [
      | inl absent ↦ rw (default, absent, settle) (unknown_usage-IsWithin "missing_usage")
      | inr (u, given) ↦
          let t =
            within_bounds c (natural u.prompt_tokens) (natural u.cached_tokens)
              (natural u.completion_tokens) in
          rw (default, given, settle)
            (settle_usage-IsWithin response.has_choices t (λ v e.
              within_bounds-Fits c (natural u.prompt_tokens) (natural u.cached_tokens)
                (natural u.completion_tokens) v e))
    ]
  ]

step-IsWithin :
    (limit max : ℕ) {s t : SpendBudget} → Step s t → IsWithin limit max s → IsWithin limit max t
step-IsWithin limit max {s} (requested cell) h = request-IsWithin limit max cell s h
step-IsWithin limit max {s} (called kwargs) h = reserve-IsWithin limit max kwargs s h
step-IsWithin limit max {s} (settling i c response there busy) h =
    settle-IsWithin limit max i c s h there busy response
step-IsWithin limit max {s} (failing i c reason there busy given) h =
    unknown_usage-IsWithin limit max i c s h there busy reason
step-IsWithin limit max {s} (stopped reason given) h = stop-IsWithin limit max reason s h
step-IsWithin limit max {s} restarted h = restart-IsWithin limit max s h

new_budget-IsWithin : (limit max : ℕ) → IsWithin limit max (new_budget limit max)
unfolding new_budget occupied
new_budget-IsWithin limit max = record {
  limit_kept = refl;
  max_kept = refl;
  total = omega arith;
  fair = tt;
  count = omega arith;
  distinct = tt;
}

reachable-IsWithin :
    (limit max : ℕ) {s : SpendBudget} → Reachable (new_budget limit max) s → IsWithin limit max s
reachable-IsWithin limit max here = new_budget-IsWithin limit max
reachable-IsWithin limit max (after r step) =
    step-IsWithin limit max step (reachable-IsWithin limit max r)

-- Whatever steps a new budget goes through, the amounts that its calls reserved or cost are
-- together within its limit, and its requests are distinct and at most max.
pub occupied-Reachable :
    (limit max : ℕ) (s : SpendBudget)
    → Reachable (new_budget limit max) s
    → (occupied s.calls ≤ limit) × (length s.requests ≤ max) × Distinct s.requests
occupied-Reachable limit max s r =
    let h = reachable-IsWithin limit max r in (h.total, h.count, h.distinct)
