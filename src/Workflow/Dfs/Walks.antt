-- ===== src/Workflow/Dfs/Walks.antt =====
-- Walks along the edges of a graph, and accessibility: no walk from a node goes on for ever.
use mathlib.Core.WellFounded.{Acc}
use ritesmith.Prelude.{String, ◌≡◌, Bool, true, List, elem}

module _ (known : String → Bool) (succ : String → List String) where
  abbrev pub Edge : String → String → Type 0
  Edge u v = (known u ≡ true) × (elem v (succ u) ≡ true)

  -- The walks to `target`.
  pub data Walk (target : String) : String → Type 0 where
    here : Walk target target
    step : {u v : String} → Edge u v → Walk target v → Walk target u

  -- A walk from `entry` leads to a node, and an edge out of that node leads back to it.
  pub record Cycle (entry : String) : Type 0 where
    pub node : String
    pub next : String
    pub reached : Walk node entry
    pub edge : Edge node next
    pub back : Walk node next

  abbrev Below : String → String → Type 0
  Below v u = Edge u v

  -- Every walk from the node ends.
  abbrev pub Ends : String → Type 0
  Ends = Acc Below

  pub snoc : {v w u : String} → Walk v u → Edge v w → Walk w u
  snoc here e = step e here
  snoc (step d p) e = step d (snoc p e)

  pub join : {v w u : String} → Walk v u → Walk w v → Walk w u
  join here q = q
  join (step d p) q = step d (join p q)

  Ends-along : {v u : String} → Walk v u → Ends u → Ends v
  Ends-along here a = a
  Ends-along (step d p) (Acc.intro _ below) = Ends-along p (below _ d)

  no_return : (v w : String) → Ends v → Edge v w → ¬ Walk v w
  no_return v w (Acc.intro _ below) e here = no_return w w (below w e) e here
  no_return v w (Acc.intro _ below) e (step {v = x} d p) = no_return w x (below w e) d (snoc p e)

  pub Ends-no-Cycle : (u : String) → Ends u → ¬ Cycle u
  Ends-no-Cycle u a c = no_return c.node c.next (Ends-along c.reached a) c.edge c.back
