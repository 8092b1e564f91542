-- ===== src/Repair/Bounds.antt =====
-- How many attempts run_repair_loop of core/repair.py makes, and what a success of it means.
use ritesmith.Prelude.{
  ℕ, suc, ◌+◌, ◌≤◌, String, ◌≡◌, refl, ap, subst, ◌⊎◌, inl, inr, Bool, true, false, Option, none,
  some, List, arith, Option-cases,
}
use ritesmith.Repair.{
  Tried, returned, rate_limited, llm_error, crashed, Diagnostic, Progress, Recovery, Next, again,
  stop, raised, claim, allowance, admit, after_attempt, after_failure, after_parse_failure,
  compare_state, go_on, conclude, try, loop, unstarted, run_repair_loop,
}

abbrev progress_of : Next → Progress
progress_of (again p) = p
progress_of (stop p) = p
progress_of (raised p) = p

compare_state-counts :
    (p : Progress) (c : String × List Diagnostic)
    → ((progress_of (compare_state p c)).performed ≡ p.performed)
      × ((progress_of (compare_state p c)).remaining ≡ p.remaining)
unfolding compare_state
compare_state-counts p c = ground arith

after_failure-counts {ℓ} :
    {S : Type ℓ} (f : Option (S → String × List Diagnostic)) (p : Progress) (s : S)
    → ((progress_of (after_failure f p s)).performed ≡ p.performed)
      × ((progress_of (after_failure f p s)).remaining ≡ p.remaining)
unfolding after_failure
after_failure-counts none p s = (refl, refl)
after_failure-counts (some f) p s = compare_state-counts p (f s)

-- The first attempt is free; each further one takes one from the allowance.
admit-le :
    (time_left : ℕ → Bool) (performed remaining m : ℕ)
    → admit time_left (performed + 1) remaining ≡ some m
    → ((performed ≡ 0) × (m ≡ remaining)) ⊎ ((1 ≤ performed) × (m + 1 ≡ remaining))
unfolding admit claim
admit-le time_left performed remaining m h = ground arith

module _ {ℓ} {S : Type ℓ} (bounded : Bool) (time_left : ℕ → Bool)
    (attempt_fn : ℕ → ℕ → S → Tried × ℕ × S)
    (state_fn : Option (S → String × List Diagnostic)) where
  -- The judgement of an attempt changes neither count.
  after_attempt-counts :
      (p : Progress) (t : Tried) (s : S)
      → ((progress_of (after_attempt bounded time_left attempt_fn state_fn p t s)).performed
          ≡ p.performed)
        × ((progress_of (after_attempt bounded time_left attempt_fn state_fn p t s)).remaining
            ≡ p.remaining)
  unfolding after_attempt after_parse_failure
  after_attempt-counts p (returned true) s = (refl, refl)
  after_attempt-counts p (returned false) s =
      after_failure-counts state_fn (record p { success = false; consecutive_parse_failures = 0 }) s
  after_attempt-counts p rate_limited s = (refl, refl)
  after_attempt-counts p (llm_error true c) s = (refl, refl)
  after_attempt-counts p (llm_error false c) s = ground arith
  after_attempt-counts p crashed s = (refl, refl)

  module _ (limit : ℕ) (nested : (a n : ℕ) (s : S) → (attempt_fn a n s).1 ≤ n) where
    -- Before attempt `performed + 1`: what was performed and what is left stay within the allowance and the
    -- first attempt.
    abbrev WithinAllowance : Progress → Type 0
    WithinAllowance p =
        ((p.performed ≡ 0) × (p.remaining ≤ limit))
        ⊎ ((1 ≤ p.performed) × (p.performed + p.remaining ≤ limit + 1))

    abbrev Few : ℕ → Progress → Bool × Progress × S → Type 0
    Few rounds p r = ((r.1).performed ≤ p.performed + rounds) × ((r.1).performed ≤ limit + 1)

    go_on-Few :
        (rounds : ℕ) (p : Progress) (rest : Progress → S → Bool × Progress × S) (s : S) (n : Next)
        → ((q : Progress)
            → q.performed ≡ p.performed + 1
            → WithinAllowance q
            → Few rounds q (rest q s))
        → ((progress_of n).performed ≡ p.performed + 1)
        → WithinAllowance (progress_of n)
        → Few (suc rounds) p (go_on rest s n)
    unfolding go_on
    go_on-Few rounds p rest s (again q) ih e w = ground (arith, ih q e w)
    go_on-Few rounds p rest s (stop q) ih e w = ground arith
    go_on-Few rounds p rest s (raised q) ih e w = ground arith

    loop-Few :
        (rounds : ℕ) (p : Progress) (s : S)
        → WithinAllowance p
        → Few rounds p (loop bounded time_left attempt_fn state_fn rounds (p.performed + 1) p s)
    unfolding loop try conclude
    loop-Few ℕ.zero p s w = ground arith
    loop-Few (suc rounds) p s w =
        elim (Option-cases (admit time_left (p.performed + 1) p.remaining)) [
          | inl none_left ↦ rw none_left (ground arith)
          | inr (m, admitted) ↦ rw admitted (
              let (t, n, s') = attempt_fn (p.performed + 1) m s in
              let next =
                after_attempt bounded time_left attempt_fn state_fn
                  (record p { performed = p.performed + 1; remaining = n }) t s' in
              let counts =
                after_attempt-counts (record p { performed = p.performed + 1; remaining = n }) t
                  s' in
              let spent = admit-le time_left p.performed p.remaining m admitted in
              go_on-Few rounds p
                (loop bounded time_left attempt_fn state_fn rounds (p.performed + 1 + 1)) s' next
                (λ q e w'.
                  subst
                    (λ k. Few rounds q (loop bounded time_left attempt_fn state_fn rounds k q s'))
                    (ap (λ k. k + 1) e) (loop-Few rounds q s' w'))
                (counts.0) (ground (arith, nested (p.performed + 1) m s)))
        ]

-- If no attempt raises the allowance that it is given, the loop makes at most `max_attempts`
-- attempts, and at most one more than the recovery allowance it starts with.
pub performed-run_repair_loop {ℓ} :
    {S : Type ℓ} (r : Recovery) (time_left : ℕ → Bool) (attempt_fn : ℕ → ℕ → S → Tried × ℕ × S)
    (state_fn : Option (S → String × List Diagnostic)) (s : S)
    → ((a n : ℕ) (s' : S) → (attempt_fn a n s').1 ≤ n)
    → (((run_repair_loop r time_left attempt_fn state_fn s).1).performed ≤ r.max_attempts)
      × (((run_repair_loop r time_left attempt_fn state_fn s).1).performed ≤ allowance r + 1)
unfolding run_repair_loop unstarted
performed-run_repair_loop r time_left attempt_fn state_fn s nested =
    let few =
      loop-Few r.generation_bounded_recovery time_left attempt_fn state_fn (allowance r) nested
        r.max_attempts (unstarted (allowance r)) s (inl (refl, omega arith)) in
    (omega (arith, few.0), few.1)
