-- ===== src/Workflow/Dfs/Complete.antt =====
-- Where the search reports no cycle, every walk from the node ends.
use mathlib.Core.WellFounded.{Acc}
use ritesmith.Prelude.{
  ℕ, zero, suc, String, ◌≡◌, ◌⊎◌, Bool, true, false, some, List, [], ◌∷◌, arith, ◌==◌, elem,
  discard, elem-here, elem-there, elem-tail, elem-discard_of_ne, subst, sym, Bool-cases, inl, inr,
  eq_of,
}
use ritesmith.Workflow.Dfs.{Marks, enter, Outcome, scan, dfs}
use ritesmith.Workflow.Dfs.Cases.{
  found, visited, closed, passed, unknown, cyclic, finished, scan_cases, dfs_cases,
}
use ritesmith.Workflow.Dfs.Walks.{Ends}

module _ (known : String → Bool) (succ : String → List String) where
  -- A visited node is still on the stack, or every walk from it ends.
  abbrev pub Settled : Marks → Type 0
  Settled m =
      (u : String) → elem u m.visited ≡ true → (elem u m.in_stack ≡ true) ⊎ Ends known succ u

  abbrev pub Clears : (String → Marks → Outcome) → Type 0
  Clears visit =
      (nid : String) (m m' : Marks)
      → Settled m
      → visit nid m ≡ some (false, m')
      → Settled m' × Ends known succ nid

  scan-Clears :
      (visit : String → Marks → Outcome) (ss : List String) (m m' : Marks)
      → Clears visit
      → Settled m
      → scan visit ss m ≡ some (false, m')
      → Settled m' × ((s : String) → elem s ss ≡ true → Ends known succ s)
  unfolding scan
  scan-Clears visit [] m m' v h e =
      (subst Settled (ground arith) h, λ s none. absurd (unfold elem in ground arith))
  scan-Clears visit (s ∷ ss) m m' v h e = elim (scan_cases visit s ss m e) [
    | found _ _ wrong ↦ absurd (cc)
    | visited m₁ _ first rest ↦
        let (h₁, ends) = v s m m₁ h first in
        let (h', all) = scan-Clears visit ss m₁ m' v h₁ rest in (h', with_head s ss ends all)
    | closed _ wrong ↦ absurd (cc)
    | passed old done rest ↦
        let (h', all) = scan-Clears visit ss m m' v h rest in
        (h', with_head s ss (off_stack s m h old done) all)
  ]
    where
      with_head :
          (s : String) (ss : List String)
          → Ends known succ s
          → ((t : String) → elem t ss ≡ true → Ends known succ t)
          → (t : String) → elem t (s ∷ ss) ≡ true
          → Ends known succ t
      with_head s ss ends all t h = elim (Bool-cases (t == s)) [
        | inl same ↦ subst (Ends known succ) (sym (eq_of t s same)) ends
        | inr other ↦ all t (elem-tail t s ss h other)
      ]

      off_stack :
          (s : String) (m : Marks)
          → Settled m
          → elem s m.visited ≡ true
          → elem s m.in_stack ≡ false
          → Ends known succ s
      off_stack s m h old done = elim (h s old) [ inl on ↦ absurd (cc) | inr ends ↦ ends ]

  entered : (nid : String) (m : Marks) → Settled m → Settled (enter nid m)
  unfolding enter
  entered nid m h u old = elim (Bool-cases (u == nid)) [
    | inl same ↦ inl (rw (eq_of u nid same) (elem-here nid m.in_stack))
    | inr other ↦ elim (h u (elem-tail u nid m.visited old other)) [
      | inl on ↦ inl (elem-there u nid m.in_stack on)
      | inr ends ↦ inr ends
    ]
  ]

  left :
      (nid : String) (m : Marks)
      → Settled m
      → Ends known succ nid
      → Settled (record m { in_stack = discard nid m.in_stack })
  left nid m h ends u old = elim (h u old) [
    | inl on ↦ elim (Bool-cases (u == nid)) [
      | inl same ↦ inr (subst (Ends known succ) (sym (eq_of u nid same)) ends)
      | inr other ↦ inl (elem-discard_of_ne u nid m.in_stack on other)
    ]
    | inr done ↦ inr done
  ]

  pub dfs-Clears : (fuel : ℕ) → Clears (dfs known succ fuel)
  unfolding dfs
  dfs-Clears zero nid m m' h e = absurd (cc)
  dfs-Clears (suc fuel) nid m m' h e = elim (dfs_cases known succ fuel nid m e) [
    | unknown u _ same ↦
        (subst Settled (sym same) h, Acc.intro nid (λ v edge. absurd (ground arith)))
    | cyclic _ _ wrong ↦ absurd (cc)
    | finished m₁ k rest _ same ↦
        let (h₁, all) =
          scan-Clears (dfs known succ fuel) (succ nid) (enter nid m) m₁ (dfs-Clears fuel)
            (entered nid m h) rest in
        let ends = Acc.intro nid (λ v edge. all v edge.1) in
        (subst Settled (sym same) (left nid m₁ h₁ ends), ends)
  ]
