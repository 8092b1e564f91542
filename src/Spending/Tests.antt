-- ===== src/Spending/Tests.antt =====
-- One call that is reserved and settled, and the theorems at it.
use ritesmith.Prelude.{
  ◌≤◌, String, ◌≡◌, refl, true, false, Option, none, some, elem, length, text_given,
}
use ritesmith.Json.{int, pos}
use ritesmith.Spending.{
  Call, SpendBudget, Kwargs, Response, new_budget, stop, occupied, prices, maximum, reserve,
  reserve_model, reserve_priced, request, call_at, reserved, settle, settle_usage, charge, cost,
  within_bounds, natural, default_tier, token_bound, output_bound, new_call, set_call, last_cell,
  amount,
}
use ritesmith.Spending.Steps.{Reachable, requested, called, settling, here, after, dispatch}
use ritesmith.Spending.Within.{Distinct}
use ritesmith.Spending.Kept.{occupied-Reachable}
use ritesmith.Spending.Blocked.{dispatch-Reachable}

abbrev kwargs : Kwargs
kwargs = record {
  model = "gpt-5-mini";
  service_tier = none;
  has_tools = false;
  max_completion_tokens = some (int (pos 1000));
  max_tokens = none;
  bytes = 904;
}

abbrev response : Response
response = record {
  service_tier = none;
  usage =
      some
        (record { prompt_tokens = pos 200; completion_tokens = pos 100; cached_tokens = pos 40 });
  has_choices = true;
}

abbrev asked : SpendBudget
asked = (reserve kwargs (request "cell" (new_budget 1000000000 12)).1).1

abbrev call : Call
call = record {
  model = "gpt-5-mini";
  status = reserved;
  reserved_usd = 3250000;
  actual_usd = none;
  input_token_bound = 5000;
  output_token_bound = 1000;
  cell = some "cell";
}

program : Unit {0}
unfolding new_budget occupied prices maximum reserve reserve_model reserve_priced request call_at
    settle settle_usage charge cost within_bounds natural default_tier token_bound output_bound
    new_call set_call last_cell amount elem
program = tt

call_at-asked : call_at 0 asked.calls ≡ some call
unfolding program
call_at-asked = refl

abbrev paid : SpendBudget
paid = (settle 0 call response asked).1

occupied-paid : (occupied asked.calls ≡ 3250000) × (occupied paid.calls ≡ 241000)
unfolding program
occupied-paid = (refl, refl)

paid-Reachable : Reachable (new_budget 1000000000 12) paid
paid-Reachable =
    after (after (after here (requested "cell")) (called kwargs))
      (settling 0 call response call_at-asked refl)

occupied-Reachable_example :
    (occupied paid.calls ≤ 1000000000) × (length paid.requests ≤ 12) × Distinct paid.requests
occupied-Reachable_example = occupied-Reachable 1000000000 12 paid paid-Reachable

abbrev halted : SpendBudget
halted = stop "limit" paid

halted-blocked : text_given halted.blocked ≡ true
unfolding stop
halted-blocked = refl

dispatch-Reachable_example :
    let t = (request "other" halted).1 in
    (text_given t.blocked ≡ true)
    × (t.requests ≡ halted.requests)
    × (length t.calls ≡ length halted.calls)
    × ((cell : String) → request cell t ≡ (false, t))
    × ((k : Kwargs) (answer : Option Response) → dispatch k answer t ≡ (false, t))
dispatch-Reachable_example =
    dispatch-Reachable halted (request "other" halted).1 halted-blocked
      (after here (requested "other"))
