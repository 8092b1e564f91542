-- ===== src/Workflow/Worklist/Ends.antt =====
-- The loop ends: each round takes a node off the stack, and pushes the edges of a node only once.
use mathlib.Core.List.{reverse}
use ritesmith.Prelude.{
  ℕ, zero, suc, ◌+◌, ◌≤◌, String, ◌≡◌, Bool, true, false, not, ◌||◌, some, List, [], ◌∷◌, ◌++◌,
  arith, elem, length, Bool-cases, inl, inr, eq_iff, eq_refl, length-append, length-reverse,
}
use ritesmith.Workflow.Worklist.{collect, edges}

module _ (known : String → Bool) (succ : String → List String) where
  edges-cons-le :
      (ids members : List String) (s : String)
      → edges known succ ids (s ∷ members) ≤ edges known succ ids members
  unfolding edges elem
  edges-cons-le [] members s = omega arith
  edges-cons-le (t ∷ ids) members s = ground (arith, edges-cons-le ids members s)

  edges-enter :
      (ids members : List String) (s : String)
      → elem s ids ≡ true
      → elem s members ≡ false
      → length (succ s) + edges known succ ids (s ∷ members) ≤ edges known succ ids members
  unfolding edges elem
  edges-enter [] members s h e = absurd (ground arith)
  edges-enter (t ∷ ids) members s h e =
      ground (arith, edges-cons-le ids members s, edges-enter ids members s, eq_iff s t, eq_refl s)

  pub collect-returns :
      (ids : List String)
      → ((s : String) → known s ≡ true → elem s ids ≡ true)
      → (fuel : ℕ) (stack members : List String)
      → length stack + edges known succ ids members ≤ fuel
      → (r : List String) × (collect known succ fuel stack members ≡ some r)
  unfolding collect
  collect-returns ids listed fuel [] members h = (members, ground arith)
  collect-returns ids listed zero (nid ∷ stack) members h = absurd (omega arith)
  collect-returns ids listed (suc fuel) (nid ∷ stack) members h =
      elim (Bool-cases (elem nid members || not (known nid))) [
        | inl skip ↦
            let (r, e) = collect-returns ids listed fuel stack members (omega arith) in
            (r, rw skip e)
        | inr enter ↦
            let less = edges-enter ids members nid (listed nid (ground arith)) (ground arith) in
            let (r, e) =
              collect-returns ids listed fuel (reverse (succ nid) ++ stack) (nid ∷ members) (
                omega
                  (arith, length-append (reverse (succ nid)) stack, length-reverse (succ nid))) in
            (r, rw enter e)
      ]
