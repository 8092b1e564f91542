-- ===== src/Plans/Refined.antt =====
-- The operations of core/planning.py refine the board of statuses.
use mathlib.Core.Path.{fun_ext}
use Prim.Native.String.{◌++◌}
use ritesmith.Prelude.{
  ℕ, suc, String, ◌≡◌, refl, sym, ap, subst, ◌∙◌, inl, inr, Bool, true, false, Option, none, some,
  List, [], ◌∷◌, arith, ◌==◌, eq_iff, Bool-cases, Option-cases, if◌then◌else◌,
}
use ritesmith.Registry.{ok, err, not_found, invalid_transition}
use ritesmith.Execution.{Settings}
use ritesmith.Plans.{
  PlanStatus, approved, rejected, persisted, cancelled, Plan, State, allowed, find_plan, write_plan,
  get_orm, assert_transition,
}
use ritesmith.Plans.Lifecycle.{
  status_name, log_plan, store_plan, notify, finish, outcome_of, approve_plan, reject_plan,
  complete_plan, cancel_plan, persist_artifacts, summary_or,
}
use ritesmith.Plans.Board.{
  Op, approve, reject, persist, complete, cancel, plan_of, permits, grant, step, play, Board,
  status_of, board, apply, settle, run,
}

pub find_plan-id :
    (k : String) (rows : List Plan) (p : Plan) → find_plan k rows ≡ some p → p.plan_id ≡ k
unfolding find_plan
find_plan-id k [] p h = ground arith
find_plan-id k (q ∷ rows) p h = ground (arith, find_plan-id k rows p, eq_iff q.plan_id k)

-- What is found after a write to a row that is there.
pub status-write_plan :
    (k j : String) (t : PlanStatus) (f : Plan → Plan)
    → ((p : Plan) → (f p).plan_id ≡ p.plan_id)
    → ((p : Plan) → (f p).status ≡ t)
    → (rows : List Plan) (p : Plan) → find_plan k rows ≡ some p
    → status_of (find_plan j (write_plan k f rows))
      ≡ (if k == j then some t else status_of (find_plan j rows))
unfolding find_plan write_plan
status-write_plan k j t f keeps sets [] p h = absurd (ground arith)
status-write_plan k j t f keeps sets (q ∷ rows) p h = ground (
  arith,
  keeps q,
  sets q,
  status-write_plan k j t f keeps sets rows p,
  eq_iff q.plan_id k,
  eq_iff q.plan_id j,
  eq_iff k j,
)

pub get_orm-ok :
    (k : String) (s : State) (p : Plan) → find_plan k s.plans ≡ some p → get_orm k s ≡ ok p
unfolding get_orm
get_orm-ok k s p h = rw (h, get_orm) refl

get_orm-err : (k : String) (s : State) → find_plan k s.plans ≡ none → get_orm k s ≡ err not_found
unfolding get_orm
get_orm-err k s h = rw (h, get_orm) refl

pub assert_transition-ok : (a b : PlanStatus) → allowed a b ≡ true → assert_transition a b ≡ ok tt
unfolding assert_transition
assert_transition-ok a b h = rw h refl

pub assert_transition-err :
    (a b : PlanStatus) → allowed a b ≡ false → assert_transition a b ≡ err invalid_transition
unfolding assert_transition
assert_transition-err a b h = rw h refl

module _ (settings : Settings) (now : ℕ) where
  notify-plans :
      (p : Plan) (t : PlanStatus) (summary : Option String) (s : State)
      → (notify settings now p t summary s).plans ≡ s.plans
  unfolding notify
  notify-plans p t summary s = ground arith

  board-store_plan :
      (k : String) (t : PlanStatus) (f : Plan → Plan) (s : State) (p : Plan)
      → ((q : Plan) → (f q).plan_id ≡ q.plan_id)
      → ((q : Plan) → (f q).status ≡ t)
      → find_plan k s.plans ≡ some p
      → board (store_plan k f s) ≡ (λ j. if k == j then some t else board s j)
  unfolding store_plan
  board-store_plan k t f s p keeps sets found =
      fun_ext (λ j. status-write_plan k j t f keeps sets s.plans p found)

  finish-ok :
      (p : Plan) (t : PlanStatus) (summary : Option String) (k : String) (s : State)
      → find_plan k s.plans ≡ some p
      → allowed p.status t ≡ true
      → (s' : State) × (finish settings now p t summary s ≡ ok s')
        × (board s' ≡ (λ j. if k == j then some t else board s j))
  unfolding finish
  finish-ok p t summary k s found fine =
      let f : Plan → Plan = λ row. record row {
        status = t;
        updated_at = now;
        summary = summary_or summary row.summary;
      } in
      let stored =
        log_plan settings ("plan." ++ status_name t) p.plan_id (store_plan p.plan_id f s) in
      let same : p.plan_id ≡ k = find_plan-id k s.plans p found in
      (
        notify settings now p t (summary_or summary p.summary) stored,
        rw (assert_transition-ok p.status t fine) refl,
        ap (λ rows. (λ (j : String). status_of (find_plan j rows)))
              (notify-plans p t (summary_or summary p.summary) stored)
            ∙ board-store_plan p.plan_id t f s p (λ q. refl) (λ q. refl)
                (subst (λ i. find_plan i s.plans ≡ some p) (sym same) found)
            ∙ ap (λ i. (λ (j : String). if i == j then some t else board s j)) same,
      )

  -- A request that the board grants succeeds, and moves the plan on the board.
  apply-ok :
      (op : Op) (s : State) (p : Plan)
      → find_plan (plan_of op) s.plans ≡ some p
      → permits op p.status ≡ true
      → (s' : State) × (apply settings now op s ≡ ok s') × (board s' ≡ grant op true (board s))
  unfolding apply approve_plan reject_plan complete_plan cancel_plan persist_artifacts outcome_of
  apply-ok (approve k) s p found fine =
      let f : Plan → Plan =
        λ row. record row { status = approved; approved_at = some now; updated_at = now } in
      (
        log_plan settings "plan.approved" k (store_plan k f s),
        rw (get_orm-ok k s p found, assert_transition-ok p.status approved fine) refl,
        board-store_plan k approved f s p (λ q. refl) (λ q. refl) found,
      )
  apply-ok (reject k) s p found fine =
      let f : Plan → Plan = λ row. record row { status = rejected; updated_at = now } in
      (
        log_plan settings "plan.rejected" k (store_plan k f s),
        rw (get_orm-ok k s p found, assert_transition-ok p.status rejected fine) refl,
        board-store_plan k rejected f s p (λ q. refl) (λ q. refl) found,
      )
  apply-ok (persist k) s p found fine =
      let f : Plan → Plan = λ row. record row { status = persisted; updated_at = now } in
      (
        store_plan k f s,
        rw (get_orm-ok k s p found) refl,
        board-store_plan k persisted f s p (λ q. refl) (λ q. refl) found,
      )
  apply-ok (complete k status summary) s p found fine =
      let (s', done, moved) = finish-ok p (outcome_of status) summary k s found fine in
      (s', rw (get_orm-ok k s p found, done) refl, moved)
  apply-ok (cancel k reason) s p found fine =
      let (s', done, moved) = finish-ok p cancelled reason k s found fine in
      (s', rw (get_orm-ok k s p found, done) refl, moved)

  apply-err_missing :
      (op : Op) (s : State)
      → find_plan (plan_of op) s.plans ≡ none
      → apply settings now op s ≡ err not_found
  unfolding apply approve_plan reject_plan complete_plan cancel_plan persist_artifacts
  apply-err_missing (approve k) s h = rw (get_orm-err k s h) refl
  apply-err_missing (reject k) s h = rw (get_orm-err k s h) refl
  apply-err_missing (persist k) s h = rw (get_orm-err k s h) refl
  apply-err_missing (complete k status summary) s h = rw (get_orm-err k s h) refl
  apply-err_missing (cancel k reason) s h = rw (get_orm-err k s h) refl

  apply-err_refused :
      (op : Op) (s : State) (p : Plan)
      → find_plan (plan_of op) s.plans ≡ some p
      → permits op p.status ≡ false
      → apply settings now op s ≡ err invalid_transition
  unfolding apply approve_plan reject_plan complete_plan cancel_plan persist_artifacts finish
      outcome_of
  apply-err_refused (approve k) s p found h =
      rw (get_orm-ok k s p found, assert_transition-err p.status approved h) refl
  apply-err_refused (reject k) s p found h =
      rw (get_orm-ok k s p found, assert_transition-err p.status rejected h) refl
  apply-err_refused (persist k) s p found h = absurd (ground arith)
  apply-err_refused (complete k status summary) s p found h =
      rw (get_orm-ok k s p found, assert_transition-err p.status (outcome_of status) h) refl
  apply-err_refused (cancel k reason) s p found h =
      rw (get_orm-ok k s p found, assert_transition-err p.status cancelled h) refl

  apply-step :
      (op : Op) (s : State)
      → let (granted, s') = settle s (apply settings now op s) in
        ◌≡◌ {A = Bool × Board} (granted, board s') (step op (board s))
  unfolding step
  apply-step op s = elim (Option-cases (find_plan (plan_of op) s.plans)) [
    | inl missing ↦ rw (missing, apply-err_missing op s missing) refl
    | inr (p, found) ↦ elim (Bool-cases (permits op p.status)) [
      | inl fine ↦
          let (s', done, moved) = apply-ok op s p found fine in rw (done, found, fine, moved) refl
      | inr refused ↦ rw (found, refused, apply-err_refused op s p found refused) refl
    ]
  ]

-- However requests to approve, reject, complete, cancel and persist plans follow one another, the
-- service grants exactly the requests that the board of statuses grants, and shows that board
-- after them.
pub run_refines :
    (settings : Settings) (now : ℕ) (ops : List Op) (s : State)
    → let (granted, s') = run settings now ops s in
      ◌≡◌ {A = List Bool × Board} (granted, board s') (play ops (board s))
unfolding run play
run_refines settings now [] s = refl
run_refines settings now (op ∷ ops) s =
    let (granted, s') = settle s (apply settings now op s) in
    ap (λ q. (granted ∷ q.0, q.1)) (run_refines settings (suc now) ops s')
    ∙ ap (λ q. let (rest, b) = play ops (q.1) in (q.0 ∷ rest, b)) (apply-step settings now op s)
