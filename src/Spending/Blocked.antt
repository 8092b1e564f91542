-- ===== src/Spending/Blocked.antt =====
-- A budget of ritesmith/llm/spend_budget.py that is blocked sends nothing any more.
use ritesmith.Prelude.{
  ℕ, suc, String, ◌≡◌, refl, ap, ◌∙◌, inl, inr, Bool, true, false, Option, none, some, List, [],
  ◌∷◌, length, text_given, Bool-cases, Option-cases,
}
use ritesmith.Spending.{
  Price, prices, Call, SpendBudget, Kwargs, Response, stop, any_reserved, restart, request, reserve,
  set_call, unknown_usage, charge, settle_usage, settle, default_tier, within_bounds, natural,
}
use ritesmith.Spending.Steps.{
  Step, Reachable, requested, called, settling, failing, stopped, restarted, here, after,
  after_reserve, dispatch,
}

length-set_call : (i : ℕ) (d : Call) (cs : List Call) → length (set_call i d cs) ≡ length cs
unfolding set_call
length-set_call i d [] = refl
length-set_call ℕ.zero d (c ∷ cs) = refl
length-set_call (suc i) d (c ∷ cs) = ap suc (length-set_call i d cs)

-- What a blocked budget keeps.
record IsStill (s t : SpendBudget) : Type 0 where
  blocked : text_given t.blocked ≡ true
  requests : t.requests ≡ s.requests
  calls : length t.calls ≡ length s.calls

module _ (i : ℕ) (c : Call) (s t : SpendBudget) (h : IsStill s t) where
  unknown_usage-IsStill :
      (reason : String) → text_given (some reason) ≡ true → IsStill s (unknown_usage i c reason t)
  unfolding unknown_usage stop
  unknown_usage-IsStill reason given = record {
    blocked = given;
    requests = h.requests;
    calls = length-set_call i _ t.calls ∙ h.calls;
  }

  charge-IsStill :
      (p : Option Price) (has_choices : Bool) (prompt cached completion : ℕ)
      → IsStill s ((charge i c p has_choices prompt cached completion t).1)
  unfolding charge
  charge-IsStill none has_choices prompt cached completion = h
  charge-IsStill (some p) false prompt cached completion = h
  charge-IsStill (some p) true prompt cached completion = record {
    blocked = h.blocked;
    requests = h.requests;
    calls = length-set_call i _ t.calls ∙ h.calls;
  }

  settle_usage-IsStill :
      (has_choices : Bool) (n : Option (ℕ × ℕ × ℕ))
      → IsStill s ((settle_usage i c has_choices n t).1)
  unfolding settle_usage
  settle_usage-IsStill has_choices none = unknown_usage-IsStill "usage_exceeds_reservation" refl
  settle_usage-IsStill has_choices (some n) =
      charge-IsStill (prices c.model) has_choices n.0 n.1 n.2

  settle-IsStill : (response : Response) → IsStill s ((settle i c response t).1)
  unfolding settle
  settle-IsStill response = elim (Bool-cases (default_tier response.service_tier)) [
    | inr other ↦
        rw (other, settle) (unknown_usage-IsStill "unaccounted_response_service_tier" refl)
    | inl default ↦ elim (Option-cases response.usage) [
      | inl absent ↦ rw (default, absent, settle) (unknown_usage-IsStill "missing_usage" refl)
      | inr (u, given) ↦
          rw (default, given, settle)
            (settle_usage-IsStill response.has_choices (
              within_bounds c (natural u.prompt_tokens) (natural u.cached_tokens)
                (natural u.completion_tokens)))
    ]
  ]

restart-IsStill : (s t : SpendBudget) → IsStill s t → IsStill s (restart t)
unfolding restart
restart-IsStill s t h = elim (Bool-cases (any_reserved t.calls)) [
  | inl some_reserved ↦
      rw some_reserved (record { blocked = refl; requests = h.requests; calls = h.calls })
  | inr none_reserved ↦ rw none_reserved h
]

step-IsStill : (s : SpendBudget) {t u : SpendBudget} → Step t u → IsStill s t → IsStill s u
unfolding request reserve stop
step-IsStill s {t} (requested cell) h = rw (h.blocked, request) h
step-IsStill s {t} (called kwargs) h = rw (h.blocked, reserve) h
step-IsStill s {t} (settling i c response there busy) h = settle-IsStill i c s t h response
step-IsStill s {t} (failing i c reason there busy given) h =
    unknown_usage-IsStill i c s t h reason given
step-IsStill s {t} (stopped reason given) h = record {
  blocked = given;
  requests = h.requests;
  calls = h.calls;
}
step-IsStill s {t} restarted h = restart-IsStill s t h

reachable-IsStill :
    (s : SpendBudget) {t : SpendBudget} → text_given s.blocked ≡ true → Reachable s t → IsStill s t
reachable-IsStill s b here = record { blocked = b; requests = refl; calls = refl }
reachable-IsStill s b (after r step) = step-IsStill s step (reachable-IsStill s b r)

-- A budget that is blocked stays blocked, with the same requests and the same number of calls,
-- whatever steps it goes through, and every request and every dispatch after them is refused and
-- changes nothing.
pub dispatch-Reachable :
    (s t : SpendBudget)
    → text_given s.blocked ≡ true
    → Reachable s t
    → (text_given t.blocked ≡ true)
      × (t.requests ≡ s.requests)
      × (length t.calls ≡ length s.calls)
      × ((cell : String) → request cell t ≡ (false, t))
      × ((kwargs : Kwargs) (answer : Option Response) → dispatch kwargs answer t ≡ (false, t))
unfolding request reserve dispatch after_reserve
dispatch-Reachable s t b r =
    let h = reachable-IsStill s b r in
    (
      h.blocked,
      h.requests,
      h.calls,
      λ cell. rw (h.blocked, request) refl,
      λ kwargs answer. rw (h.blocked, reserve) refl,
    )
