-- ===== src/Repair.antt =====
-- ritesmith/core/repair.py: the repair loop, and the contract repair of core/execution.py that runs it
-- in the background. What an attempt does is a parameter of the loop, with a state of its own; the
-- time that is left is one as well. The pause after a rate limit, the trace, logging and metrics are left out.
pub mod Bounds
pub mod Contract
pub mod Repaired
mod Tests
use ritesmith.Prelude.{
  ℕ, suc, ◌+◌, ◌-◌, String, Bool, true, false, not, ◌&&◌, ◌||◌, Option, none, some, List, [], ◌∷◌,
  ◌==◌, ltb, leb, if◌then◌else◌,
}

-- How an attempt ends: with the Boolean that it returns, with `LLMRateLimitError`, with another
-- `LLMError` (whether `retryable` is False, and the category), or with another exception.
pub data Tried : Type 0 where
  returned : Bool → Tried
  rate_limited : Tried
  llm_error : Bool → String → Tried
  crashed : Tried

-- `Diagnostic`: whether it is repairable, and its JSON.
pub record Diagnostic : Type 0 where
  pub repairable : Bool
  pub json : String

-- The local variables of the loop and what remains of the recovery allowance.
pub record Progress : Type 0 where
  pub remaining : ℕ
  pub success : Bool
  pub performed : ℕ
  pub previous : Option (String × List String)
  pub consecutive_parse_failures : ℕ

unfoldable pub texts_eq : List String → List String → Bool
texts_eq [] [] = true
texts_eq (s ∷ ss) (t ∷ ts) = s == t && texts_eq ss ts
texts_eq _ _ = false

unfoldable pub is_previous : String × List String → Option (String × List String) → Bool
unfolding texts_eq
is_previous (c, ds) none = false
is_previous (c, ds) (some (c', ds')) = c == c' && texts_eq ds ds'

unfoldable pub all_repairable : List Diagnostic → Bool
all_repairable [] = true
all_repairable (d ∷ ds) = d.repairable && all_repairable ds

unfoldable pub json_of : List Diagnostic → List String
json_of [] = []
json_of (d ∷ ds) = d.json ∷ json_of ds

-- `RecoveryAllowance.claim`; the Boolean is whether the budget, where there is one, leaves enough time.
unfoldable pub claim : Bool → ℕ → Option ℕ
claim time_left ℕ.zero = none
claim time_left (suc n) = if time_left then some n else none

-- The settings and arguments that bound the recoveries.
pub record Recovery : Type 0 where
  pub generation_bounded_recovery : Bool
  pub generation_recovery_attempts : ℕ
  pub initial_recoveries : ℕ
  pub max_attempts : ℕ

unfoldable pub allowance : Recovery → ℕ
allowance r =
    if r.generation_bounded_recovery
    then r.generation_recovery_attempts - r.initial_recoveries
    else r.max_attempts - 1

-- Whether the loop goes on after an attempt.
pub data Next : Type 0 where
  again stop raised : Progress → Next

unfoldable pub compare_state : Progress → String × List Diagnostic → Next
unfolding is_previous all_repairable json_of
compare_state p (candidate, diagnostics) =
    let state : String × List String = (candidate, json_of diagnostics) in
    if not (all_repairable diagnostics) || is_previous state p.previous
    then stop p
    else again (record p { previous = some state })

unfoldable pub after_failure {ℓ} :
    {S : Type ℓ} → Option (S → String × List Diagnostic) → Progress → S → Next
unfolding compare_state
after_failure none p s = again p
after_failure (some f) p s = compare_state p (f s)

-- An error of the category of a response that cannot be read; the third in a row ends the loop.
unfoldable pub after_parse_failure : Progress → Next
after_parse_failure p =
    if leb 3 (p.consecutive_parse_failures + 1)
    then stop (record p { consecutive_parse_failures = p.consecutive_parse_failures + 1 })
    else again (record p { consecutive_parse_failures = p.consecutive_parse_failures + 1 })

unfoldable pub is_parse_failure : String → Bool
is_parse_failure category =
    category == "response" || (category == "graph" || category == "truncated")

-- The allowance of an attempt: the first one is free.
unfoldable pub admit : (ℕ → Bool) → ℕ → ℕ → Option ℕ
unfolding claim
admit time_left attempt remaining =
    if ltb 1 attempt then claim (time_left attempt) remaining else some remaining

-- `rest` is what the further attempts do.
unfoldable pub go_on {ℓ} :
    {S : Type ℓ} → (Progress → S → Bool × Progress × S) → S → Next → Bool × Progress × S
go_on rest s (again p) = rest p s
go_on rest s (stop p) = (true, p, s)
go_on rest s (raised p) = (false, p, s)

module _ {ℓ} {S : Type ℓ} (bounded : Bool) (time_left : ℕ → Bool)
    (attempt_fn : ℕ → ℕ → S → Tried × ℕ × S)
    (state_fn : Option (S → String × List Diagnostic)) where
  unfoldable pub after_attempt : Progress → Tried → S → Next
  unfolding after_failure after_parse_failure is_parse_failure
  after_attempt p (returned true) s =
      stop (record p { success = true; consecutive_parse_failures = 0 })
  after_attempt p (returned false) s =
      after_failure state_fn (record p { success = false; consecutive_parse_failures = 0 }) s
  after_attempt p rate_limited s = again p
  after_attempt p (llm_error true category) s = stop p
  after_attempt p (llm_error false category) s =
      if not bounded && is_parse_failure category then after_parse_failure p else again p
  after_attempt p crashed s = raised p

  unfoldable pub conclude :
      (Progress → S → Bool × Progress × S) → ℕ → Progress → Tried × ℕ × S → Bool × Progress × S
  unfolding go_on
  conclude rest attempt p (t, remaining, s) =
      go_on rest s (after_attempt (record p { performed = attempt; remaining = remaining }) t s)

  unfoldable pub try :
      (Progress → S → Bool × Progress × S) → ℕ → Progress → S → Option ℕ → Bool × Progress × S
  unfolding conclude
  try rest attempt p s none = (true, p, s)
  try rest attempt p s (some remaining) = conclude rest attempt p (attempt_fn attempt remaining s)

  -- `rounds` attempts are left, the next of which is `attempt`.
  unfoldable pub loop : ℕ → ℕ → Progress → S → Bool × Progress × S
  unfolding try
  loop ℕ.zero attempt p s = (true, p, s)
  loop (suc rounds) attempt p s =
      try (loop rounds (attempt + 1)) attempt p s (admit time_left attempt p.remaining)

unfoldable pub unstarted : ℕ → Progress
unstarted remaining = record {
  remaining = remaining;
  success = false;
  performed = 0;
  previous = none;
  consecutive_parse_failures = 0;
}

-- The first component is false where an exception leaves the loop. The caller gets `performed`.
unfoldable pub run_repair_loop {ℓ} :
    {S : Type ℓ}
    → Recovery
    → (ℕ → Bool)
    → (ℕ → ℕ → S → Tried × ℕ × S)
    → Option (S → String × List Diagnostic)
    → S
    → Bool × Progress × S
unfolding loop unstarted allowance
run_repair_loop r time_left attempt_fn state_fn s =
    loop r.generation_bounded_recovery time_left attempt_fn state_fn r.max_attempts 1
      (unstarted (allowance r)) s
