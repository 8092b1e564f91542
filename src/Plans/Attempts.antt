-- ===== src/Plans/Attempts.antt =====
-- How often a plan is replanned, and what one replanning does (replan of core/planning.py).
use mathlib.Core.Option.{some-injective, none-ne-some}
use mathlib.Core.Bool.{false≢true}
use ritesmith.Prelude.{
  ℕ, suc, ◌+◌, ◌-◌, ◌≤◌, String, ◌≡◌, refl, sym, ap, subst, ◌∙◌, Bool, true, false, Option, none,
  some, List, [], ◌∷◌, arith, ◌==◌, eq_iff, eq_refl, if◌then◌else◌, Bool-cases, Option-cases, inl,
  inr,
}
use ritesmith.Json.{pos, int, text, Fields}
use ritesmith.Policy
use ritesmith.Execution
use ritesmith.Execution.Stamped.{lookup-set_field}
use ritesmith.Execution.Delegated.{set_field}
use ritesmith.Plans.{
  PlanStatus, superseded, failed, Plan, State, find_plan, write_plan, get_orm, allowed,
}
use ritesmith.Plans.Lifecycle.{store_plan, log_plan}
use ritesmith.Plans.Created.{Planner, Built, build_plan, plan_row}
use ritesmith.Plans.Refined.{assert_transition-ok, assert_transition-err}
use ritesmith.Plans.Built.{build_plan-Built, build_plan-context}
use ritesmith.Plans.Replans.{
  limit_reached, next_count, replan_count, new_context, fields_or, exhausted, raised, replanned,
  built_or, successor, superseded_by, replan_row, replan,
}

-- The context of the successor has the next count.
replan_count-new_context :
    (k reason : String) (context : Option Fields)
    → replan_count (some (new_context k reason context)) ≡ next_count (replan_count context)
unfolding replan_count new_context
replan_count-new_context k reason context =
    let v = next_count (replan_count context) in
    let counted = set_field "replan_count" v (set_field "replan_of" (text k) (fields_or context)) in
    rw
      (
        replan_count,
        lookup-set_field "replan_count" "previous_failure" (text reason) counted,
        lookup-set_field "replan_count" "replan_count" v
            (set_field "replan_of" (text k) (fields_or context)),
        replan_count,
      )
      refl

-- What is found after a write to a row that is there.
find_plan-write_plan :
    (k j : String) (f : Plan → Plan)
    → ((p : Plan) → (f p).plan_id ≡ p.plan_id)
    → (rows : List Plan) (p : Plan) → find_plan k rows ≡ some p
    → find_plan j (write_plan k f rows) ≡ (if k == j then some (f p) else find_plan j rows)
unfolding find_plan write_plan
find_plan-write_plan k j f keeps [] p h = absurd (ground arith)
find_plan-write_plan k j f keeps (q ∷ rows) p h = ground (
  arith,
  keeps q,
  find_plan-write_plan k j f keeps rows p,
  eq_iff q.plan_id k,
  eq_iff q.plan_id j,
  eq_iff k j,
)

superseded-allowed : (a : PlanStatus) → allowed a superseded ≡ true → a ≡ failed
unfolding allowed
superseded-allowed failed h = refl
superseded-allowed _ h = absurd (false≢true h)

raised-replanned : (b : Built) → ¬ (raised ≡ replanned b)
raised-replanned b = cc

exhausted-replanned : (b : Built) → ¬ (exhausted ≡ replanned b)
exhausted-replanned b = cc

built_or-eq : (r : Option Built) (b : Built) → built_or r ≡ replanned b → r ≡ some b
unfolding built_or
built_or-eq none b e = absurd (raised-replanned b e)
built_or-eq (some c) b e = cc

module _ (planner : Planner) (policy : Policy.Settings) (settings : Execution.Settings) (max : ℕ)
    (plan_id : String) (new_id : ℕ → String) (now : ℕ) (k reason : String) (s : State)
    (b : Built) where
  -- The state that the successor is built in.
  closed_off : State
  closed_off =
      log_plan settings "plan.superseded" k
        (store_plan k (λ row. record row { status = superseded; updated_at = now }) s)

  record Parts : Type 0 where
    old : Plan
    there : find_plan k s.plans ≡ some old
    left : limit_reached max (replan_count old.context) ≡ some false
    legal : allowed old.status superseded ≡ true
    made :
        build_plan planner policy settings plan_id new_id now
          (successor planner policy settings max plan_id new_id now k reason old)
          closed_off
        ≡ some b

  in_row :
      (p : Plan)
      → find_plan k s.plans ≡ some p
      → (over : Option Bool) → limit_reached max (replan_count p.context) ≡ over
      → replan_row planner policy settings max plan_id new_id now k reason p s over ≡ replanned b
      → Parts
  unfolding replan_row superseded_by closed_off
  in_row p there none r e = absurd (raised-replanned b e)
  in_row p there (some true) r e = absurd (exhausted-replanned b e)
  in_row p there (some false) r e = elim (Bool-cases (allowed p.status superseded)) [
    | inl legal ↦ record {
      old = p;
      there = there;
      left = r;
      legal = legal;
      made = built_or-eq _ b (rw (assert_transition-ok p.status superseded legal, replan_row) at e);
    }
    | inr illegal ↦ absurd (
        raised-replanned b
          (rw (assert_transition-err p.status superseded illegal, replan_row) at e))
  ]

  parts : replan planner policy settings max plan_id new_id now k reason s ≡ replanned b → Parts
  unfolding replan get_orm
  parts e = elim (Option-cases (find_plan k s.plans)) [
    | inl gone ↦ absurd (raised-replanned b (rw (gone, replan, get_orm) at e))
    | inr (p, there) ↦
        in_row p there (limit_reached max (replan_count p.context)) refl
          (rw (there, replan, get_orm) at e)
  ]

  shown :
      (t : Parts) (j : String)
      → find_plan j closed_off.plans ≡ (
          if k == j
          then some (record t.old { status = superseded; updated_at = now })
          else find_plan j s.plans)
  unfolding closed_off store_plan log_plan
  shown t j =
      find_plan-write_plan k j (λ row. record row { status = superseded; updated_at = now })
        (λ q. refl) s.plans t.old t.there

  -- The id of the successor is new, so it is not that of the failed plan.
  differs :
      (t : Parts)
      → find_plan plan_id closed_off.plans ≡ none
      → (k == plan_id) ≡ false × (find_plan plan_id s.plans ≡ none)
  differs t fresh = ground (arith, fresh, shown t plan_id)

  -- If a replanning gives a new plan, the old plan had failed, and its row is as it was but for the
  -- status superseded and the time of the update; the id of the new plan was unused, and its row has
  -- the status and the artifact ids of the new plan, the intent of the old one and the next context;
  -- the row of every other plan is as it was.
  pub replan-Superseded :
      replan planner policy settings max plan_id new_id now k reason s ≡ replanned b
      → (old new : Plan) × (find_plan k s.plans ≡ some old)
        × (old.status ≡ failed)
        × (find_plan k b.state.plans ≡ some (record old { status = superseded; updated_at = now }))
        × (find_plan plan_id s.plans ≡ none)
        × (find_plan plan_id b.state.plans ≡ some new)
        × (new.status ≡ b.status)
        × (new.artifact_ids ≡ b.artifact_ids)
        × (new.intent ≡ old.intent)
        × (new.context ≡ some (new_context k reason old.context))
        × ((j : String)
            → (k == j) ≡ false
            → (plan_id == j) ≡ false
            → find_plan j b.state.plans ≡ find_plan j s.plans)
  unfolding plan_row successor
  replan-Superseded e =
      let t = parts e in
      let h =
        build_plan-Built planner policy settings plan_id new_id now
          (successor planner policy settings max plan_id new_id now k reason t.old) closed_off b
          t.made in
      let (apart, unknown) = differs t h.unused in
      (
        t.old,
        _,
        t.there,
        superseded-allowed t.old.status t.legal,
        h.others k (ground (arith, apart, eq_iff k plan_id, eq_iff plan_id k))
            ∙ shown t k
            ∙ rw (eq_refl k) refl,
        unknown,
        h.row,
        refl,
        refl,
        refl,
        refl,
        λ j other away. h.others j away ∙ shown t j ∙ rw other refl,
      )

  -- The successor has a row, its count is the next one, and the limit was not limit_reached.
  counted :
      replan planner policy settings max plan_id new_id now k reason s ≡ replanned b
      → (old new : Plan) × (find_plan k s.plans ≡ some old)
        × (find_plan plan_id b.state.plans ≡ some new)
        × (limit_reached max (replan_count old.context) ≡ some false)
        × (replan_count new.context ≡ next_count (replan_count old.context))
  unfolding successor
  counted e =
      let t = parts e in
      let (new, there, context) =
        build_plan-context planner policy settings plan_id new_id now
          (successor planner policy settings max plan_id new_id now k reason t.old) closed_off b
          t.made in
      (
        t.old,
        new,
        t.there,
        there,
        t.left,
        ap replan_count context ∙ replan_count-new_context k reason t.old.context,
      )

-- The context of a plan in the table.
abbrev pub context_in : Option Plan → Option (Option Fields)
context_in none = none
context_in (some p) = some p.context

abbrev pub context_of : String → State → Option (Option Fields)
context_of k s = context_in (find_plan k s.plans)

-- A plan that is replanned again and again: n successors one after the other, each of the one before. Between two
-- replannings the state may change in any way that keeps the context of the last plan.
pub data Attempts (planner : Planner) (policy : Policy.Settings) (settings : Execution.Settings)
    (max : ℕ) : ℕ → String → State → Type 0 where
  over : {k : String} {s : State} → Attempts planner policy settings max 0 k s
  again :
      {n : ℕ} {k : String} {s : State} (plan_id : String) (new_id : ℕ → String) (now : ℕ)
      (reason : String) (b : Built) (later : State)
      → replan planner policy settings max plan_id new_id now k reason s ≡ replanned b
      → context_of plan_id later ≡ context_of plan_id b.state
      → Attempts planner policy settings max n plan_id later
      → Attempts planner policy settings max (suc n) k s

-- The count of a plan that is in the table, where it is a natural number.
abbrev pub Counts : String → State → ℕ → Type 0
Counts k s c = (p : Plan) × (find_plan k s.plans ≡ some p) × (replan_count p.context ≡ int (pos c))

not_reached : (max c : ℕ) → limit_reached max (int (pos c)) ≡ some false → suc c ≤ max
unfolding limit_reached
not_reached max c h = ground (arith, h)

context_in-eq :
    (row : Option Plan) (context : Option Fields)
    → context_in row ≡ some context
    → (p : Plan) × (row ≡ some p) × (p.context ≡ context)
context_in-eq none context e = absurd (none-ne-some _ e)
context_in-eq (some p) context e = (p, refl, some-injective _ _ e)

context_of-Counts :
    (k : String) (s t : State) (p : Plan) (c : ℕ)
    → context_of k t ≡ context_of k s
    → find_plan k s.plans ≡ some p
    → replan_count p.context ≡ int (pos c)
    → Counts k t c
context_of-Counts k s t p c e there count =
    let (q, found, same) =
      context_in-eq (find_plan k t.plans) p.context (e ∙ ap context_in there) in
    (q, found, ap replan_count same ∙ count)

-- A plan whose count of attempts is a natural number c is replanned, successor after successor, at
-- most max - c times (0 if c is above max), whatever happens to the plans in between that keeps
-- the context of the last one.
pub replan-Attempts :
    (planner : Planner) (policy : Policy.Settings) (settings : Execution.Settings) (max n c : ℕ)
    (k : String) (s : State)
    → Counts k s c
    → Attempts planner policy settings max n k s
    → n ≤ max - c
replan-Attempts planner policy settings max n c k s h over = omega arith
replan-Attempts planner policy settings max n c k s (p, there, count)
      (again plan_id new_id now reason b later done same rest) =
    let (old, new, found, made, left, next) =
      counted planner policy settings max plan_id new_id now k reason s b done in
    let e : replan_count old.context ≡ int (pos c) =
      ap replan_count (ap (λ (u : Plan). u.context) (some-injective old p (sym found ∙ there)))
      ∙ count in
    let more : suc c ≤ max =
      not_reached max c (subst (λ v. limit_reached max v ≡ some false) e left) in
    let following : Counts plan_id later (c + 1) =
      context_of-Counts plan_id b.state later new (c + 1) same made
        (next ∙ rw e (unfold next_count in refl)) in
    let fewer =
      replan-Attempts planner policy settings max _ (c + 1) plan_id later following rest in
    omega arith
