-- ===== src/Simulation.antt =====
-- ritesmith/workflows/simulation.py: the offline check of a workflow against fixtures. Here stand the values: the
-- paths, the templates and the conditions. Python's own operations on texts and numbers and its regular expression are parameters.
-- An exception is none.
pub mod Task
pub mod Walk
pub mod Calls
pub mod Ended
mod Tests
use mathlib.Core.List.{reverse}
use ritesmith.Prelude.{
  ℕ, suc, String, Bool, true, false, not, ◌&&◌, ◌||◌, Option, none, some, List, [], ◌∷◌, ◌==◌, elem,
  if◌then◌else◌,
}
use ritesmith.Json.{
  ℤ, pos, negsuc, Value, null, boolean, int, decimal, text, arr, obj, Items, nil, cons, Fields, end,
  field, elements, truthy,
}
use ritesmith.Json as Json
use ritesmith.Plans.Persist.{field_of, item_of, as_arr, as_obj}

-- `str.split(".")`, `int` of a text, the path in a text that is one template, the replacement of every template by a function of
-- its path, `str` of a value, `str.lower`, `str.endswith`, the binary operators and `in`, and `max`.
pub record Python : Type 0 where
  pub split : String → List String
  pub to_int : String → Option ℤ
  pub full_match : String → Option String
  pub substitute : (String → Option String) → String → Option String
  pub str : Value → String
  pub lower : String → String
  pub ends_with : String → String → Bool
  pub binary : String → Value → Value → Option Value
  pub contains : Value → Value → Option Bool
  pub max_of : List Value → Option Value

unfoldable pub nth : ℕ → List Value → Option Value
nth n [] = none
nth ℕ.zero (v ∷ vs) = some v
nth (suc n) (v ∷ vs) = nth n vs

-- `values[i]`
unfoldable pub list_at : ℤ → List Value → Option Value
unfolding nth
list_at (pos n) vs = nth n vs
list_at (negsuc n) vs = nth n (reverse vs)

unfoldable pub or_null : Option Value → Value
or_null none = null
or_null (some v) = v

module _ (py : Python) where
  unfoldable pub element : String → List Value → Option Value
  unfolding list_at
  element part vs = elim (py.to_int part) [ none ↦ none | some i ↦ list_at i vs ]

  unfoldable pub lookup_parts : List String → Value → Value
  unfolding element or_null
  lookup_parts [] v = v
  lookup_parts (part ∷ parts) (arr vs) = elim (element part (elements vs)) [
    | none ↦ null
    | some v ↦ lookup_parts parts v
  ]
  lookup_parts (part ∷ parts) (obj fs) = lookup_parts parts (or_null (Json.lookup part fs))
  lookup_parts (part ∷ parts) v = null

  -- `lookup`
  unfoldable pub lookup_path : Value → String → Value
  unfolding lookup_parts
  lookup_path v path = lookup_parts (py.split path) v

  unfoldable pub native_parts : List String → Value → Option Value
  native_parts [] v = some v
  native_parts (part ∷ parts) (arr vs) = none
  native_parts (part ∷ parts) (obj fs) = native_parts parts (or_null (Json.lookup part fs))
  native_parts (part ∷ parts) v = native_parts parts null

  unfoldable pub native_text : Option Value → Option String
  native_text none = none
  native_text (some (arr vs)) = none
  native_text (some (obj fs)) = none
  native_text (some null) = some ""
  native_text (some (boolean b)) = some (py.lower (py.str (boolean b)))
  native_text (some v) = some (py.str v)

  unfoldable pub text_value : Option String → Option Value
  text_value none = none
  text_value (some s) = some (text s)

  unfoldable pub plain_text : Value → String → Option String
  unfolding lookup_path
  plain_text context path =
      let v = lookup_path context path in if truthy v then some (py.str v) else some ""

  unfoldable pub render_text : Bool → Value → String → Option Value
  unfolding native_parts native_text text_value plain_text lookup_path
  render_text true context s = elim (py.full_match s) [
    | some path ↦ text_value (native_text (native_parts (py.split path) context))
    | none ↦
        text_value (py.substitute (λ path. native_text (native_parts (py.split path) context)) s)
  ]
  render_text false context s = elim (py.full_match s) [
    | some path ↦ some (lookup_path context path)
    | none ↦ text_value (py.substitute (plain_text context) s)
  ]

  -- The value of an object whose one key is "__trama_literal_json__".
  unfoldable pub literal : Bool → Fields → Option Value
  literal false (field k v end) = if k == "__trama_literal_json__" then some v else none
  literal _ _ = none

  unfoldable pub literal_or : Option Value → Option Value → Option Value
  literal_or (some v) rendered = some v
  literal_or none rendered = rendered

  unfoldable mutual
    unfolding render_text literal literal_or

    pub render : Bool → Value → Value → Option Value
    render native context (text s) = render_text native context s
    render native context (arr vs) = as_arr (render_items native context vs)
    render native context (obj fs) =
        literal_or (literal native fs) (as_obj (render_fields native context fs))
    render native context v = some v

    pub render_items : Bool → Value → Items → Option Items
    render_items native context nil = some nil
    render_items native context (cons v vs) =
        item_of (render native context v) (render_items native context vs)

    pub render_fields : Bool → Value → Fields → Option Fields
    render_fields native context end = some end
    render_fields native context (field k v fs) =
        field_of k (render native context v) (render_fields native context fs)

abbrev pub simulated : List String
simulated = "==" ∷ "===" ∷ "!=" ∷ ">=" ∷ "<=" ∷ ">" ∷ "<" ∷ "+" ∷ "-" ∷ "*" ∷ "/" ∷ []

unfoldable pub all_true : List Value → Bool
all_true [] = true
all_true (v ∷ vs) = truthy v && all_true vs

unfoldable pub any_true : List Value → Bool
any_true [] = false
any_true (v ∷ vs) = truthy v || any_true vs

unfoldable pub truth : Option Bool → Option Value
truth none = none
truth (some b) = some (boolean b)

module _ (py : Python) where
  unfoldable pub binary_on : String → List Value → Option Value
  binary_on op (a ∷ b ∷ []) = py.binary op a b
  binary_on op _ = none

  unfoldable pub negated : List Value → Option Value
  negated [] = none
  negated (v ∷ _) = some (boolean (not (truthy v)))

  unfoldable pub contained : List Value → Option Value
  unfolding truth
  contained (a ∷ b ∷ _) = truth (py.contains a b)
  contained _ = none

  unfoldable pub operate : String → List Value → Option Value
  unfolding all_true any_true negated contained binary_on
  operate op vs =
      if op == "and"
      then some (boolean (all_true vs))
      else if op == "or"
      then some (boolean (any_true vs))
      else if op == "!"
      then negated vs
      else if op == "in"
      then contained vs
      else if elem op simulated
      then binary_on op vs
      else none

  unfoldable pub operate_items : String → Option Items → Option Value
  unfolding operate
  operate_items op none = none
  operate_items op (some vs) = operate op (elements vs)

  -- The path of "var": a text, or the first element of a list.
  unfoldable pub variable : Value → Value → Option Value
  unfolding lookup_path
  variable context (text path) = some (lookup_path py context path)
  variable context (arr (cons (text path) _)) = some (lookup_path py context path)
  variable context _ = none

  unfoldable mutual
    unfolding variable operate_items item_of as_arr

    pub logic : Value → Value → Option Value
    logic context (arr vs) = as_arr (logic_items context vs)
    logic context (obj (field op (arr vs) end)) =
        let values = logic_items context vs in
        if op == "var" then variable context (arr vs) else operate_items op values
    logic context (obj (field op v end)) =
        let value = logic context v in
        if op == "var" then variable context v else operate_items op (item_of value (some nil))
    logic context (obj _) = none
    logic context v = some v

    pub logic_items : Value → Items → Option Items
    logic_items context nil = some nil
    logic_items context (cons v vs) = item_of (logic context v) (logic_items context vs)
