-- ===== src/Workflow/Dfs/Cases.antt =====
-- The ways in which a round of the loop and a call of the search can go.
use ritesmith.Prelude.{
  suc, ℕ, String, ◌≡◌, refl, Bool, true, false, none, some, List, ◌∷◌, arith, elem, discard,
  Bool-cases, inl, inr,
}
use ritesmith.Workflow.Dfs.{Marks, enter, Outcome, go_on, scan, leave, dfs}

-- The ways in which a round that ends in `r` can go.
pub data Round (visit : String → Marks → Outcome) (s : String) (ss : List String) (m : Marks)
    (b : Bool) (m' : Marks) : Type 0 where
  found :
      elem s m.visited ≡ false → visit s m ≡ some (true, m') → b ≡ true → Round visit s ss m b m'
  visited :
      (m₁ : Marks)
      → elem s m.visited ≡ false
      → visit s m ≡ some (false, m₁)
      → scan visit ss m₁ ≡ some (b, m')
      → Round visit s ss m b m'
  closed : elem s m.in_stack ≡ true → b ≡ true → Round visit s ss m b m'
  passed :
      elem s m.visited ≡ true
      → elem s m.in_stack ≡ false
      → scan visit ss m ≡ some (b, m')
      → Round visit s ss m b m'

module _ (visit : String → Marks → Outcome) (s : String) (ss : List String) (m : Marks) {b : Bool}
    {m' : Marks} where
  after_visit :
      elem s m.visited ≡ false
      → (r : Outcome) → visit s m ≡ r
      → go_on r (scan visit ss) ≡ some (b, m')
      → Round visit s ss m b m'
  unfolding go_on
  after_visit fresh none v e = absurd (cc)
  after_visit fresh (some (true, m₁)) v e = found fresh (ground arith) (ground arith)
  after_visit fresh (some (false, m₁)) v e = visited m₁ fresh v e

  pub scan_cases : scan visit (s ∷ ss) m ≡ some (b, m') → Round visit s ss m b m'
  unfolding scan
  scan_cases e = elim (Bool-cases (elem s m.visited)) [
    | inl old ↦ elim (Bool-cases (elem s m.in_stack)) [
      | inl back ↦ closed back (ground arith)
      | inr done ↦ passed old done (ground arith)
    ]
    | inr fresh ↦ after_visit fresh (visit s m) refl (ground arith)
  ]

-- The ways in which a call that ends in `(b, m')` can go.
pub data Call (known : String → Bool) (succ : String → List String) (fuel : ℕ) (nid : String)
    (m : Marks) (b : Bool) (m' : Marks) : Type 0 where
  unknown : known nid ≡ false → b ≡ false → m' ≡ m → Call known succ fuel nid m b m'
  cyclic :
      known nid ≡ true
      → scan (dfs known succ fuel) (succ nid) (enter nid m) ≡ some (true, m')
      → b ≡ true
      → Call known succ fuel nid m b m'
  finished :
      (m₁ : Marks)
      → known nid ≡ true
      → scan (dfs known succ fuel) (succ nid) (enter nid m) ≡ some (false, m₁)
      → b ≡ false
      → m' ≡ record m₁ { in_stack = discard nid m₁.in_stack }
      → Call known succ fuel nid m b m'

module _ (known : String → Bool) (succ : String → List String) (fuel : ℕ) (nid : String) (m : Marks)
    {b : Bool} {m' : Marks} where
  after_scan :
      known nid ≡ true
      → (r : Outcome) → scan (dfs known succ fuel) (succ nid) (enter nid m) ≡ r
      → leave nid r ≡ some (b, m')
      → Call known succ fuel nid m b m'
  unfolding leave
  after_scan k none v e = absurd (cc)
  after_scan k (some (true, m₁)) v e = cyclic k (ground arith) (ground arith)
  after_scan k (some (false, m₁)) v e = finished m₁ k v (ground arith) (ground arith)

  pub dfs_cases : dfs known succ (suc fuel) nid m ≡ some (b, m') → Call known succ fuel nid m b m'
  unfolding dfs
  dfs_cases e = elim (Bool-cases (known nid)) [
    | inl k ↦ after_scan k (scan (dfs known succ fuel) (succ nid) (enter nid m)) refl (ground arith)
    | inr u ↦ unknown u (ground arith) (ground arith)
  ]
