-- ===== src/Workflow/Dfs/Sound.antt =====
-- Where the search reports a cycle, there is one.
use ritesmith.Prelude.{
  ℕ, zero, suc, String, ◌≡◌, Bool, true, false, some, List, [], ◌∷◌, arith, ◌==◌, elem, discard,
  Within, elem-here, elem-there, elem-tail, elem-discard, elem-discard_ne, subst, sym, Bool-cases,
  inl, inr, eq_of,
}
use ritesmith.Workflow.Dfs.{Marks, enter, Outcome, scan, dfs}
use ritesmith.Workflow.Dfs.Cases.{
  found, visited, closed, passed, unknown, cyclic, finished, scan_cases, dfs_cases,
}
use ritesmith.Workflow.Dfs.Walks.{Edge, Walk, here, Cycle, snoc}

-- The stack after a visit that found nothing is within the stack before.
abbrev pub Keeps : (String → Marks → Outcome) → Type 0
Keeps visit =
    (nid : String) (m m' : Marks) → visit nid m ≡ some (false, m') → Within m'.in_stack m.in_stack

pub scan-Keeps :
    (visit : String → Marks → Outcome) (ss : List String) (m m' : Marks)
    → Keeps visit
    → scan visit ss m ≡ some (false, m')
    → Within m'.in_stack m.in_stack
unfolding scan
scan-Keeps visit [] m m' v e u h = ground arith
scan-Keeps visit (s ∷ ss) m m' v e u h = elim (scan_cases visit s ss m e) [
  | found _ _ wrong ↦ absurd (cc)
  | visited m₁ _ first rest ↦ v s m m₁ first u (scan-Keeps visit ss m₁ m' v rest u h)
  | closed _ wrong ↦ absurd (cc)
  | passed _ _ rest ↦ scan-Keeps visit ss m m' v rest u h
]

discard-Within : (nid : String) (a b : List String) → Within a (nid ∷ b) → Within (discard nid a) b
discard-Within nid a b h u e =
    elem-tail u nid b (h u (elem-discard u nid a e)) (elem-discard_ne u nid a e)

module _ (known : String → Bool) (succ : String → List String) where
  pub dfs-Keeps : (fuel : ℕ) → Keeps (dfs known succ fuel)
  unfolding dfs enter
  dfs-Keeps zero nid m m' e u h = absurd (cc)
  dfs-Keeps (suc fuel) nid m m' e u h = elim (dfs_cases known succ fuel nid m e) [
    | unknown _ _ same ↦ ground arith
    | cyclic _ _ wrong ↦ absurd (cc)
    | finished m₁ _ rest _ same ↦
        discard-Within nid m₁.in_stack m.in_stack
          (scan-Keeps (dfs known succ fuel) (succ nid) (enter nid m) m₁ (dfs-Keeps fuel) rest) u
          (ground arith)
  ]

module _ (known : String → Bool) (succ : String → List String) (entry : String) where
  -- Every node of the stack leads to the node at hand.
  abbrev OnPath : String → Marks → Type 0
  OnPath nid m = (u : String) → elem u m.in_stack ≡ true → Walk known succ nid u

  -- A visit that finds a cycle has found one.
  abbrev Finds : (String → Marks → Outcome) → Type 0
  Finds visit =
      (nid : String) (m m' : Marks)
      → Walk known succ nid entry
      → OnPath nid m
      → visit nid m ≡ some (true, m')
      → Cycle known succ entry

  scan-Finds :
      (visit : String → Marks → Outcome) (nid : String) (ss : List String) (m m' : Marks)
      → Keeps visit
      → Finds visit
      → known nid ≡ true
      → Walk known succ nid entry
      → Within ss (succ nid)
      → OnPath nid m
      → scan visit ss m ≡ some (true, m')
      → Cycle known succ entry
  unfolding scan
  scan-Finds visit nid [] m m' v f k w within path e = absurd (cc)
  scan-Finds visit nid (s ∷ ss) m m' v f k w within path e =
      let edge : Edge known succ nid s = (k, within s (elem-here s ss)) in
      let later : Within ss (succ nid) = λ x h. within x (elem-there x s ss h) in
      elim (scan_cases visit s ss m e) [
        | found _ first _ ↦
            f s m m' (snoc known succ w edge) (λ u h. snoc known succ (path u h) edge) first
        | visited m₁ _ first rest ↦
            scan-Finds visit nid ss m₁ m' v f k w later (λ u h. path u (v s m m₁ first u h)) rest
        | closed back _ ↦ record {
          node = nid;
          next = s;
          reached = w;
          edge = edge;
          back = path s back;
        }
        | passed _ _ rest ↦ scan-Finds visit nid ss m m' v f k w later path rest
      ]

  pub dfs-Finds : (fuel : ℕ) → Finds (dfs known succ fuel)
  unfolding dfs
  dfs-Finds zero nid m m' w path e = absurd (cc)
  dfs-Finds (suc fuel) nid m m' w path e = elim (dfs_cases known succ fuel nid m e) [
    | unknown _ wrong _ ↦ absurd (cc)
    | cyclic k rest _ ↦
        scan-Finds (dfs known succ fuel) nid (succ nid) (enter nid m) m' (dfs-Keeps known succ fuel)
          (dfs-Finds fuel) k w (λ s h. h) (unfold enter in entered) rest
    | finished _ _ _ wrong _ ↦ absurd (cc)
  ]
    where
      entered : OnPath nid (record { visited = nid ∷ m.visited; in_stack = nid ∷ m.in_stack })
      entered u h = elim (Bool-cases (u == nid)) [
        | inl same ↦ subst (Walk known succ nid) (sym (eq_of u nid same)) here
        | inr other ↦ path u (elem-tail u nid m.in_stack h other)
      ]
