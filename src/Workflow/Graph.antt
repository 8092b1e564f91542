-- ===== src/Workflow/Graph.antt =====
-- The graph of a v2 definition: the nodes by their ids, and `_v2_successors` of
-- workflows/validator.py. The fields that hold texts are read as texts: `native_shape_errors`
-- has refused every other value before the graph is built.
pub mod Lookup
use ritesmith.Prelude.{
  String, Bool, true, false, not, ◌&&◌, ◌||◌, Option, none, some, List, [], ◌∷◌, ◌++◌, map, ◌==◌,
  text_or, text_given, is_text, present, if◌then◌else◌,
}
use ritesmith.Json.{Value, Items, Fields, text, arr, obj, get, as_text, as_list, elements, texts}

-- `node.get(key)` at a field that holds a text
unfoldable pub text_field : String → Value → Option String
unfolding get
text_field key node = as_text (get key node)

unfoldable pub list_field : String → Value → List Value
unfolding get elements
list_field key node = as_list (get key node)

-- `c.get(key, "end")`
unfoldable pub or_end : Option String → String
or_end none = "end"
or_end (some s) = s

-- `[t for t in targets if t and t != "end"]`
unfoldable pub inner : List String → List String
inner [] = []
inner (t ∷ ts) = let rest = inner ts in if not (t == "") && not (t == "end") then t ∷ rest else rest

unfoldable pub has_kind : String → Value → Bool
unfolding text_field
has_kind kind node = is_text (text_field "kind" node) kind

unfoldable pub targets : Value → List String
targets node =
    if has_kind "task" node || has_kind "sleep" node || has_kind "join" node
    then text_or (text_field "next" node) "end" ∷ []
    else if has_kind "switch" node
    then map (λ c. or_end (text_field "target" c)) (list_field "cases" node)
      ++ or_end (text_field "default" node) ∷ []
    else if has_kind "split" node
    then texts (list_field "branches" node) ++ text_or (text_field "join" node) "end" ∷ []
    else []

unfoldable pub v2_successors : Value → List String
unfolding targets inner
v2_successors node = inner (targets node)

-- The values of a field that are given: the ids of the nodes that have one.
unfoldable pub ids_under : String → List Value → List String
unfolding text_field
ids_under key [] = []
ids_under key (n ∷ ns) =
    let rest = ids_under key ns in
    if text_given (text_field key n) then text_or (text_field key n) "" ∷ rest else rest

unfoldable pub node_ids : List Value → List String
unfolding ids_under
node_ids = ids_under "id"

-- `{n["id"]: n for n in nodes if n.get("id")}.get(k)`: the last node of an id stands.
unfoldable pub newest : Option Value → Option Value → Option Value
newest (some later) n = some later
newest none n = n

unfoldable pub find_under : String → String → List Value → Option Value
unfolding newest text_field
find_under key k [] = none
find_under key k (n ∷ ns) =
    newest (find_under key k ns)
      (if text_given (text_field key n) && is_text (text_field key n) k then some n else none)

unfoldable pub find_node : String → List Value → Option Value
unfolding find_under
find_node = find_under "id"

-- `_v2_successors(node_map.get(nid))`
unfoldable pub successors_of : Option Value → List String
unfolding v2_successors
successors_of none = []
successors_of (some node) = v2_successors node

unfoldable pub successors : List Value → String → List String
unfolding successors_of find_node
successors nodes nid = successors_of (find_node nid nodes)
