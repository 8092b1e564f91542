-- ===== src/Workflow/Cycles/V2.antt =====
-- The v2 search decides whether a cycle can be reached from the entrypoint.
use ritesmith.Prelude.{
  suc, ◌≤◌, String, ◌≡◌, ◌↔◌, refl, Bool, true, false, some, List, [], arith, elem, length,
  Bool-cases, inl, inr,
}
use ritesmith.Json.{Value}
use ritesmith.Workflow.Dfs.{Marks, unmarked, dfs}
use ritesmith.Workflow.Dfs.Walks.{Cycle, Ends-no-Cycle}
use ritesmith.Workflow.Dfs.Walks
use ritesmith.Workflow.Dfs.Sound.{dfs-Finds}
use ritesmith.Workflow.Dfs.Complete.{dfs-Clears}
use ritesmith.Workflow.Dfs.Total.{room, room-le, Bounded, dfs-Returns}
use ritesmith.Workflow.Graph.{successors}
use ritesmith.Workflow.Cycles.{answer, detect_v2_cycles}

-- A walk over the nodes of a workflow and the edges of `successors`.
abbrev pub HasCycle : List Value → List String → String → Type 0
HasCycle nodes ids entrypoint = Cycle (λ nid. elem nid ids) (successors nodes) entrypoint

-- From unmarked nodes, the search says whether the node leads to a cycle.
pub dfs-decides :
    (known : String → Bool) (succ : String → List String) (ids : List String) (entry : String)
    → ((s : String) → known s ≡ true → elem s ids ≡ true)
    → (b : Bool) × (answer (dfs known succ (suc (length ids)) entry unmarked) ≡ some b)
      × ((b ≡ true) ↔ Cycle known succ entry)
unfolding elem
dfs-decides known succ ids entry listed = verdict (
    dfs-Returns known succ ids (λ _. Unit {0}) all (suc (length ids)) entry unmarked tt refl
      (omega (arith, room-le ids [])))
  where
    all : Bounded known succ ids (λ _. Unit {0})
    all = record { listed = λ s _. listed s; onward = λ s t _ _. tt }

    verdict :
        (b : Bool) × (m' : Marks) × (dfs known succ (suc (length ids)) entry unmarked
            ≡ some (b, m'))
          × (room ids m'.visited ≤ room ids [])
        → (b : Bool) × (answer (dfs known succ (suc (length ids)) entry unmarked) ≡ some b)
          × ((b ≡ true) ↔ Cycle known succ entry)
    verdict (true, m', e, _) = (
      true,
      rw e,
      (
        λ _.
            dfs-Finds known succ entry (suc (length ids)) entry unmarked m' Walks.here
              (λ u h. absurd (ground arith)) e,
        λ c. refl,
      ),
    )
    verdict (false, m', e, _) = (
      false,
      rw e,
      (
        λ wrong. absurd (cc),
        λ c. absurd (
            Ends-no-Cycle known succ entry
              (dfs-Clears known succ (suc (length ids)) entry unmarked m'
                (λ u h. absurd (ground arith)) e).1
              c),
      ),
    )

-- The detector always returns, and reports a cycle exactly if the entrypoint is a node from which
-- the successors lead to a node and back to it.
pub detect_v2_cycles-decides :
    (nodes : List Value) (entrypoint : String) (ids : List String)
    → (b : Bool) × (detect_v2_cycles nodes entrypoint ids ≡ some b)
      × ((b ≡ true) ↔ (elem entrypoint ids ≡ true) × HasCycle nodes ids entrypoint)
unfolding detect_v2_cycles
detect_v2_cycles-decides nodes entrypoint ids = elim (Bool-cases (elem entrypoint ids)) [
  | inl k ↦
      let (b, e, iff) =
        dfs-decides (λ nid. elem nid ids) (successors nodes) ids entrypoint (λ s h. h) in
      (b, rw k e, (λ h. (k, iff.0 h), λ h. iff.1 h.1))
  | inr u ↦ (false, rw u, (λ wrong. absurd (cc), λ h. absurd (ground arith)))
]
