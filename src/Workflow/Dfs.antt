-- ===== src/Workflow/Dfs.antt =====
-- The depth-first search for a cycle, which `_detect_v2_cycles` of
-- workflows/validator.py holds as the inner function `dfs`. `known` and `succ` stand for what it
-- closes over; `none` means that the fuel ran out.
mod Cases
pub mod Walks
pub mod Sound
pub mod Complete
pub mod Total
use ritesmith.Prelude.{
  ℕ, zero, suc, String, Bool, true, false, not, Option, none, some, List, [], ◌∷◌, ◌==◌, elem,
  discard, if◌then◌else◌,
}

pub record Marks : Type 0 where
  pub visited : List String
  pub in_stack : List String

abbrev pub unmarked : Marks
unmarked = record { visited = []; in_stack = [] }

unfoldable pub enter : String → Marks → Marks
enter nid m = record { visited = nid ∷ m.visited; in_stack = nid ∷ m.in_stack }

abbrev pub Outcome : Type 0
Outcome = Option (Bool × Marks)

-- A call that found a cycle ends the loop; one that did not goes on with its marks.
unfoldable pub go_on : Outcome → (Marks → Outcome) → Outcome
go_on none rest = none
go_on (some (true, m)) rest = some (true, m)
go_on (some (false, m)) rest = rest m

-- The `for` loop over the successors.
unfoldable pub scan : (String → Marks → Outcome) → List String → Marks → Outcome
scan visit [] m = some (false, m)
scan visit (s ∷ ss) m =
    let rest = scan visit ss in
    if not (elem s m.visited)
    then go_on (visit s m) rest
    else if elem s m.in_stack
    then some (true, m)
    else rest m

-- What stands after the loop.
unfoldable pub leave : String → Outcome → Outcome
leave nid none = none
leave nid (some (true, m)) = some (true, m)
leave nid (some (false, m)) = some (false, record m { in_stack = discard nid m.in_stack })

module _ (known : String → Bool) (succ : String → List String) where
  unfoldable pub dfs : ℕ → String → Marks → Outcome
  dfs zero nid m = none
  dfs (suc fuel) nid m =
      if not (known nid)
      then some (false, m)
      else leave nid (scan (dfs fuel) (succ nid) (enter nid m))
