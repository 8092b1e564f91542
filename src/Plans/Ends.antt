-- ===== src/Plans/Ends.antt =====
-- The ends of a plan's life on the board of core/planning.py, and the way round them.
use ritesmith.Prelude.{
  ℕ, String, ◌≡◌, refl, ap, ◌∙◌, inl, inr, Bool, true, false, not, none, some, List, [], ◌∷◌, arith,
  ◌==◌, eq_iff, eq_refl, eq_of, Bool-cases, All,
}
use ritesmith.Execution.{Settings}
use ritesmith.Plans.{
  PlanStatus, blocked, rejected, completed, failed, cancelled, superseded, State, allowed,
}
use ritesmith.Plans.Board.{
  Op, approve, reject, persist, complete, cancel, plan_of, permits, moves, grant, step, play, Board,
  board, run,
}
use ritesmith.Plans.Refined.{run_refines}

-- The statuses that no request of the service but `persist` leaves.
abbrev pub ended : PlanStatus → Bool
ended blocked = true
ended rejected = true
ended completed = true
ended failed = true
ended cancelled = true
ended superseded = true
ended _ = false

-- A request that does not persist the plan `k`.
abbrev pub spares : String → Op → Bool
spares k (persist j) = not (j == k)
spares k op = true

ended-refuses :
    (k : String) (op : Op) (t : PlanStatus)
    → ended t ≡ true
    → spares k op ≡ true
    → plan_of op ≡ k
    → permits op t ≡ false
unfolding allowed
ended-refuses k (persist j) t e s same = absurd (ground (arith, eq_iff j k))
ended-refuses k (approve j) t e s same = ground arith
ended-refuses k (reject j) t e s same = ground arith
ended-refuses k (complete j status summary) t e s same = ground arith
ended-refuses k (cancel j reason) t e s same = ground arith

grant-elsewhere :
    (op : Op) (g : Bool) (b : Board) (k : String) → (plan_of op == k) ≡ false → grant op g b k ≡ b k
grant-elsewhere op true b k h = rw h refl
grant-elsewhere op false b k h = refl

step-ended :
    (k : String) (op : Op) (t : PlanStatus) (b : Board)
    → ended t ≡ true
    → spares k op ≡ true
    → b k ≡ some t
    → ((step op b).1) k ≡ some t
unfolding step
step-ended k op t b e s h = elim (Bool-cases (plan_of op == k)) [
  | inl same ↦
      let refused : moves op (b (plan_of op)) ≡ false =
        ap (λ j. moves op (b j)) (eq_of (plan_of op) k same)
        ∙ ap (moves op) h
        ∙ ended-refuses k op t e s (eq_of (plan_of op) k same) in
      rw refused h
  | inr other ↦ grant-elsewhere op (moves op (b (plan_of op))) b k other ∙ h
]

play-ended :
    (k : String) (ops : List Op) (t : PlanStatus) (b : Board)
    → ended t ≡ true
    → All (λ op. spares k op ≡ true) ops
    → b k ≡ some t
    → ((play ops b).1) k ≡ some t
unfolding play
play-ended k [] t b e s h = h
play-ended k (op ∷ ops) t b e s h =
    play-ended k ops t ((step op b).1) e (s.1) (step-ended k op t b e (s.0) h)

-- A plan that is blocked, rejected, completed, failed, cancelled or superseded keeps its status
-- under every sequence of requests to approve, reject, complete, cancel and persist plans in which
-- it is not persisted. (A replanning is not among these requests.)
pub run-ended :
    (settings : Settings) (now : ℕ) (k : String) (ops : List Op) (t : PlanStatus) (s : State)
    → ended t ≡ true
    → All (λ op. spares k op ≡ true) ops
    → board s k ≡ some t
    → board ((run settings now ops s).1) k ≡ some t
run-ended settings now k ops t s e spared h =
    ap (λ q. q.1 k) (run_refines settings now ops s) ∙ play-ended k ops t (board s) e spared h

play-revived :
    (k : String) (t : PlanStatus) (b : Board)
    → b k ≡ some t
    → ((play (persist k ∷ complete k "completed" none ∷ []) b).0 ≡ true ∷ true ∷ [])
      × ((play (persist k ∷ complete k "completed" none ∷ []) b).1 k ≡ some completed)
unfolding play step allowed
play-revived k t b h = ground (arith, eq_refl k)

-- A plan in any status, also one that was rejected, cancelled or superseded, can be persisted; after that it can be
-- completed.
pub run-revived :
    (settings : Settings) (now : ℕ) (k : String) (t : PlanStatus) (s : State)
    → board s k ≡ some t
    → ((run settings now (persist k ∷ complete k "completed" none ∷ []) s).0 ≡ true ∷ true ∷ [])
      × (board ((run settings now (persist k ∷ complete k "completed" none ∷ []) s).1) k
          ≡ some completed)
run-revived settings now k t s h =
    let played = run_refines settings now (persist k ∷ complete k "completed" none ∷ []) s in
    let (granted, shown) = play-revived k t (board s) h in
    (ap (λ q. q.0) played ∙ granted, ap (λ q. q.1 k) played ∙ shown)
