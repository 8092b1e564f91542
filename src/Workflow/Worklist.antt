-- ===== src/Workflow/Worklist.antt =====
-- The `while stack` loops of workflows/validator.py (`_branch_sets`) and of
-- workflows/semantic_validation.py (`uninitialized_reference_errors`, `validate_semantics`): all
-- collect the nodes that can be reached. `known` and `succ` stand for the node map that they close
-- over. The head of the list is the end of Python's `stack`; `none` means that the fuel ran out.
pub mod Reach
pub mod Ends
use mathlib.Core.List.{reverse}
use ritesmith.Prelude.{
  ℕ, zero, suc, ◌+◌, String, Bool, not, ◌||◌, Option, none, some, List, [], ◌∷◌, ◌++◌, elem, length,
  if◌then◌else◌,
}

module _ (known : String → Bool) (succ : String → List String) where
  unfoldable pub collect : ℕ → List String → List String → Option (List String)
  collect fuel [] members = some members
  collect zero (nid ∷ stack) members = none
  collect (suc fuel) (nid ∷ stack) members =
      let skipped = collect fuel stack members in
      let entered = collect fuel (reverse (succ nid) ++ stack) (nid ∷ members) in
      if elem nid members || not (known nid) then skipped else entered

  -- The edges out of the nodes of `ids` that are not yet members.
  unfoldable pub edges : List String → List String → ℕ
  edges [] members = 0
  edges (s ∷ ids) members =
      let rest = edges ids members in if elem s members then rest else length (succ s) + rest

  -- A fuel for the nodes `ids` and a start.
  unfoldable pub enough : List String → ℕ
  enough ids = suc (edges ids [])
