-- ===== src/Workflow/Shape.antt =====
-- `native_shape_errors` of workflows/validator.py: the containers and texts that the graph
-- checks and the transport rely on.
use ritesmith.Prelude.{
  ℕ, ◌+◌, String, Bool, true, false, not, ◌&&◌, ◌||◌, Option, none, some, List, [], ◌∷◌, ◌++◌, ◌==◌,
  present, if◌then◌else◌,
}
use ritesmith.Json.{Value, text, arr, obj, end, field, get, elements, entries}
use ritesmith.Workflow.Problems.{
  Problem, definition_not_object, nodes_not_list, entrypoint_not_text, node_not_object, id_not_text,
  kind_not_text, branches_not_texts, cases_not_list, field_not_text, case_not_object,
  case_target_not_text, action_not_object, request_not_object, url_not_template,
  headers_not_templates, callback_not_object,
}

-- `isinstance(v, str)`, `isinstance(v, dict)`
unfoldable pub holds_text : Option Value → Bool
holds_text (some (text s)) = true
holds_text _ = false

unfoldable pub holds_object : Option Value → Bool
holds_object (some (obj fs)) = true
holds_object _ = false

abbrev report : Bool → Problem → List Problem
report true p = p ∷ []
report false p = []

-- A problem for a field that is there and fails a test.
abbrev if_there : Option Value → Bool → Problem → List Problem
if_there o fine p = report (present o && not fine) p

nonempty_text : Option Value → Bool
nonempty_text (some (text s)) = not (s == "")
nonempty_text _ = false

unfoldable pub all_texts : List Value → Bool
all_texts [] = true
all_texts (text s ∷ vs) = all_texts vs
all_texts (_ ∷ vs) = false

-- `isinstance(v, list)` and all of it texts
unfoldable pub text_list : Option Value → Bool
unfolding all_texts
text_list (some (arr vs)) = all_texts (elements vs)
text_list _ = false

-- `string_template`: a text, or an object whose one field "value" is a text
string_template : Value → Bool
unfolding holds_text
string_template (text s) = true
string_template (obj (field k v end)) = k == "value" && holds_text (some v)
string_template _ = false

all_templates : List (String × Value) → Bool
unfolding string_template
all_templates [] = true
all_templates ((k, v) ∷ fs) = string_template v && all_templates fs

template_fine : Option Value → Bool
unfolding string_template
template_fine none = true
template_fine (some v) = string_template v

headers_fine : Option Value → Bool
unfolding all_templates entries
headers_fine none = true
headers_fine (some (obj fs)) = all_templates (entries fs)
headers_fine _ = false

case_errors : ℕ → ℕ → List Value → List Problem
unfolding holds_text get
case_errors i j [] = []
case_errors i j (obj fs ∷ cs) =
    report (not (holds_text (get "target" (obj fs)))) (case_target_not_text i j)
    ++ case_errors i (j + 1) cs
case_errors i j (_ ∷ cs) = case_not_object i j ∷ case_errors i (j + 1) cs

cases_errors : ℕ → Option Value → List Problem
unfolding case_errors elements
cases_errors i none = []
cases_errors i (some (arr cs)) = case_errors i 0 (elements cs)
cases_errors i _ = cases_not_list i ∷ []

-- `action.get("request", {})`
request_of : Option Value → Value
request_of none = obj end
request_of (some v) = v

request_errors : ℕ → String → Value → List Problem
unfolding template_fine headers_fine get
request_errors i name (obj fs) =
    report (not (template_fine (get "url" (obj fs)))) (url_not_template i name)
    ++ report (not (headers_fine (get "headers" (obj fs)))) (headers_not_templates i name)
request_errors i name _ = request_not_object i name ∷ []

action_errors : ℕ → Option Value → List Problem
unfolding request_of request_errors holds_object get
action_errors i none = []
action_errors i (some (obj fs)) =
    if_there (get "callback" (obj fs)) (holds_object (get "callback" (obj fs)))
      (callback_not_object i)
    ++ request_errors i "action" (request_of (get "request" (obj fs)))
action_errors i (some _) = action_not_object i "action" ∷ []

compensation_errors : ℕ → Option Value → List Problem
unfolding request_errors
compensation_errors i none = []
compensation_errors i (some (obj fs)) = request_errors i "compensation" (obj fs)
compensation_errors i (some _) = action_not_object i "compensation" ∷ []

unfoldable pub node_shape_errors : Bool → ℕ → Value → List Problem
unfolding nonempty_text text_list holds_text holds_object cases_errors action_errors
    compensation_errors get
node_shape_errors partial i (obj fs) =
    let n = obj fs in
    report ((not partial || present (get "id" n)) && not (nonempty_text (get "id" n)))
      (id_not_text i)
    ++ report ((not partial || present (get "kind" n)) && not (holds_text (get "kind" n)))
        (kind_not_text i)
    ++ if_there (get "next" n) (holds_text (get "next" n)) (field_not_text i "next")
    ++ if_there (get "default" n) (holds_text (get "default" n)) (field_not_text i "default")
    ++ if_there (get "join" n) (holds_text (get "join" n)) (field_not_text i "join")
    ++ if_there (get "branches" n) (text_list (get "branches" n)) (branches_not_texts i)
    ++ cases_errors i (get "cases" n)
    ++ action_errors i (get "action" n)
    ++ compensation_errors i (get "compensation" n)
node_shape_errors partial i _ = node_not_object i ∷ []

nodes_shape_errors : Bool → ℕ → List Value → List Problem
unfolding node_shape_errors
nodes_shape_errors partial i [] = []
nodes_shape_errors partial i (n ∷ ns) =
    node_shape_errors partial i n ++ nodes_shape_errors partial (i + 1) ns

definition_errors : Bool → Option Value → Option Value → List Problem
unfolding nodes_shape_errors holds_text elements
definition_errors partial none entrypoint =
    report ((not partial || present entrypoint) && not (holds_text entrypoint)) entrypoint_not_text
definition_errors partial (some (arr ns)) entrypoint =
    report ((not partial || present entrypoint) && not (holds_text entrypoint)) entrypoint_not_text
    ++ nodes_shape_errors partial 0 (elements ns)
definition_errors partial (some _) entrypoint = nodes_not_list ∷ []

unfoldable pub native_shape_errors : Bool → Value → List Problem
unfolding definition_errors get
native_shape_errors partial (obj fs) =
    let d = obj fs in
    if not (present (get "nodes" d)) && not (present (get "entrypoint" d))
    then []
    else definition_errors partial (get "nodes" d) (get "entrypoint" d)
native_shape_errors partial _ = definition_not_object ∷ []
