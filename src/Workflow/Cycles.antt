-- ===== src/Workflow/Cycles.antt =====
-- `_detect_v2_cycles` of workflows/validator.py. The fuel is one more than
-- the number of nodes that the search can visit; `none` would mean that it did not suffice.
pub mod V2
use ritesmith.Prelude.{
  ℕ, suc, String, Bool, true, false, not, Option, none, some, List, [], ◌∷◌, ◌++◌, elem, length,
  if◌then◌else◌,
}
use ritesmith.Json.{Value, texts}
use ritesmith.Workflow.Dfs.{Marks, unmarked, Outcome, go_on, dfs}
use ritesmith.Workflow.Graph.{successors, list_field, find_under, ids_under}

-- The Boolean that the search returns.
abbrev pub answer : Outcome → Option Bool
answer none = none
answer (some (b, m)) = some b

-- Whether a cycle is reported, for the ids in `node_ids`.
unfoldable pub detect_v2_cycles : List Value → String → List String → Option Bool
detect_v2_cycles nodes entrypoint node_ids =
    if elem entrypoint node_ids
    then answer (
        dfs (λ nid. elem nid node_ids) (successors nodes) (suc (length node_ids)) entrypoint
          unmarked)
    else some false
