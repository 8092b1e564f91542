-- ===== src/Workflow/Worklist/Reach.antt =====
-- The loop collects exactly the nodes that can be reached.
use mathlib.Core.List.{reverse}
use ritesmith.Prelude.{
  ℕ, zero, suc, String, ◌≡◌, ◌⊎◌, ◌↔◌, Bool, true, false, not, ◌||◌, some, List, [], ◌∷◌, ◌++◌,
  ◌==◌, arith, elem, Bool-cases, inl, inr, eq_of, subst, elem-append, elem-reverse, elem-here,
  elem-there, elem-tail,
}
use ritesmith.Workflow.Dfs.Walks.{Walk, here, step, snoc}
use ritesmith.Workflow.Worklist.{collect, enough}
use ritesmith.Workflow.Worklist.Ends.{collect-returns}

module _ (known : String → Bool) (succ : String → List String) where
  pub starts_known : {v u : String} → Walk known succ v u → known v ≡ true → known u ≡ true
  starts_known here k = k
  starts_known (step d p) k = d.0

module _ (known : String → Bool) (succ : String → List String) (entry : String) where
  abbrev FromEntry : List String → Type 0
  FromEntry l = (u : String) → elem u l ≡ true → Walk known succ u entry

  -- What holds between two rounds.
  record Inv (stack members : List String) : Type 0 where
    waiting : FromEntry stack
    sound : FromEntry members
    are_known : (u : String) → elem u members ≡ true → known u ≡ true
    start : known entry ≡ true → (elem entry stack ≡ true) ⊎ (elem entry members ≡ true)
    closed :
        (u v : String)
        → elem u members ≡ true
        → elem v (succ u) ≡ true
        → known v ≡ true
        → (elem v stack ≡ true) ⊎ (elem v members ≡ true)

  -- A node that is known and was waiting is a member, or still waits.
  Inv-skip :
      (nid : String) (stack members : List String)
      → (elem nid members ≡ true) ⊎ (known nid ≡ false)
      → Inv (nid ∷ stack) members
      → Inv stack members
  Inv-skip nid stack members why h = record {
    waiting = λ u q. h.waiting u (elem-there u nid stack q);
    sound = h.sound;
    are_known = h.are_known;
    start = λ k. settle entry k (h.start k);
    closed = λ u v m e k. settle v k (h.closed u v m e k);
  }
    where
      settle :
          (v : String)
          → known v ≡ true
          → (elem v (nid ∷ stack) ≡ true) ⊎ (elem v members ≡ true)
          → (elem v stack ≡ true) ⊎ (elem v members ≡ true)
      settle v k (inr m) = inr m
      settle v k (inl q) = elim (Bool-cases (v == nid)) [
        | inl same ↦ elim why [
          | inl m ↦ inr (rw (eq_of v nid same) m)
          | inr unknown ↦ absurd (ground (arith, eq_of v nid same))
        ]
        | inr other ↦ inl (elem-tail v nid stack q other)
      ]

  Inv-enter :
      (nid : String) (stack members : List String)
      → known nid ≡ true
      → Inv (nid ∷ stack) members
      → Inv (reverse (succ nid) ++ stack) (nid ∷ members)
  Inv-enter nid stack members k h = record {
    waiting = λ u q. waiting_of u (pushed u q);
    sound = λ u m. sound_of u m;
    are_known = λ u m. known_of u m;
    start = λ ke. moved entry (h.start ke);
    closed = λ u v m e kv. closed_of u v m e kv;
  }
    where
      w : Walk known succ nid entry
      w = h.waiting nid (elem-here nid stack)

      pushed :
          (u : String)
          → elem u (reverse (succ nid) ++ stack) ≡ true
          → (elem u (succ nid) ≡ true) ⊎ (elem u stack ≡ true)
      pushed u q =
          ground (arith, elem-append u (reverse (succ nid)) stack, elem-reverse u (succ nid))

      push :
          (u : String)
          → (elem u (succ nid) ≡ true) ⊎ (elem u stack ≡ true)
          → elem u (reverse (succ nid) ++ stack) ≡ true
      push u q = ground (arith, elem-append u (reverse (succ nid)) stack, elem-reverse u (succ nid))

      waiting_of :
          (u : String)
          → (elem u (succ nid) ≡ true) ⊎ (elem u stack ≡ true)
          → Walk known succ u entry
      waiting_of u (inl q) = snoc known succ w (k, q)
      waiting_of u (inr q) = h.waiting u (elem-there u nid stack q)

      sound_of : (u : String) → elem u (nid ∷ members) ≡ true → Walk known succ u entry
      sound_of u m = elim (Bool-cases (u == nid)) [
        | inl same ↦ rw (eq_of u nid same) w
        | inr other ↦ h.sound u (elem-tail u nid members m other)
      ]

      known_of : (u : String) → elem u (nid ∷ members) ≡ true → known u ≡ true
      known_of u m = elim (Bool-cases (u == nid)) [
        | inl same ↦ rw (eq_of u nid same) k
        | inr other ↦ h.are_known u (elem-tail u nid members m other)
      ]

      moved :
          (v : String)
          → (elem v (nid ∷ stack) ≡ true) ⊎ (elem v members ≡ true)
          → (elem v (reverse (succ nid) ++ stack) ≡ true) ⊎ (elem v (nid ∷ members) ≡ true)
      moved v (inr m) = inr (elem-there v nid members m)
      moved v (inl q) = elim (Bool-cases (v == nid)) [
        | inl same ↦ inr (rw (eq_of v nid same) (elem-here nid members))
        | inr other ↦ inl (push v (inr (elem-tail v nid stack q other)))
      ]

      closed_of :
          (u v : String)
          → elem u (nid ∷ members) ≡ true
          → elem v (succ u) ≡ true
          → known v ≡ true
          → (elem v (reverse (succ nid) ++ stack) ≡ true) ⊎ (elem v (nid ∷ members) ≡ true)
      closed_of u v m e kv = elim (Bool-cases (u == nid)) [
        | inl same ↦ inl (push v (inl (subst (λ x. elem v (succ x) ≡ true) (eq_of u nid same) e)))
        | inr other ↦ moved v (h.closed u v (elem-tail u nid members m other) e kv)
      ]

  collect-Inv :
      (fuel : ℕ) (stack members r : List String)
      → Inv stack members
      → collect known succ fuel stack members ≡ some r
      → Inv [] r
  unfolding collect
  collect-Inv fuel [] members r h e = subst (Inv []) (ground arith) h
  collect-Inv zero (nid ∷ stack) members r h e = absurd (cc)
  collect-Inv (suc fuel) (nid ∷ stack) members r h e =
      elim (Bool-cases (elem nid members || not (known nid))) [
        | inl skip ↦
            collect-Inv fuel stack members r (Inv-skip nid stack members (ground arith) h)
              (rw skip at e)
        | inr enter ↦
            collect-Inv fuel (reverse (succ nid) ++ stack) (nid ∷ members) r
              (Inv-enter nid stack members (ground arith) h) (rw enter at e)
      ]

  -- With an empty stack the members are closed under the edges to known nodes.
  complete :
      (r : List String)
      → Inv [] r
      → {v u : String} → Walk known succ v u
      → known v ≡ true
      → elem u r ≡ true
      → elem v r ≡ true
  complete r h here k m = m
  complete r h (step {u} {v = x} d p) k m =
      elim (h.closed u x m d.1 (starts_known known succ p k)) [
        | inl q ↦ absurd (unfold elem in ground arith)
        | inr m' ↦ complete r h p k m'
      ]

  start : Inv (entry ∷ []) []
  start = record {
    waiting = λ u q. elim (Bool-cases (u == entry)) [
      | inl same ↦ rw (eq_of u entry same) here
      | inr other ↦ absurd (unfold elem in ground arith)
    ];
    sound = λ u m. absurd (unfold elem in ground arith);
    are_known = λ u m. absurd (unfold elem in ground arith);
    start = λ _. inl (elem-here entry []);
    closed = λ u v m e k. absurd (unfold elem in ground arith);
  }

  -- From a start, the loop returns, and it has collected exactly the nodes to which a walk leads.
  pub collect-decides :
      (ids : List String)
      → ((s : String) → known s ≡ true → elem s ids ≡ true)
      → (r : List String) × (collect known succ (enough known succ ids) (entry ∷ []) [] ≡ some r)
        × ((v : String) → (elem v r ≡ true) ↔ (known v ≡ true) × Walk known succ v entry)
  unfolding enough
  collect-decides ids listed =
      let (r, e) =
        collect-returns known succ ids listed (enough known succ ids) (entry ∷ []) []
          (omega arith) in
      let inv = collect-Inv (enough known succ ids) (entry ∷ []) [] r start e in
      (
        r,
        e,
        λ v. (
          λ m. (inv.are_known v m, inv.sound v m),
          λ (k, w). elim (inv.start (starts_known known succ w k)) [
            | inl q ↦ absurd (unfold elem in ground arith)
            | inr m ↦ complete r inv w k m
          ],
        ),
      )
