-- ===== src/Plans/Persist.antt =====
-- The artifacts of a new plan that are stored with it (build_plan of core/planning.py, step 6). A workflow that was
-- generated beside a script names it by the id of its draft, and is bound to the id of the stored row first. An
-- exception is none; `json.loads` and `json.dumps` are parameters.
use ritesmith.Prelude.{
  ℕ, ◌+◌, String, Bool, true, false, not, ◌&&◌, Option, none, some, List, [], ◌∷◌, ◌==◌, text_or,
  if◌then◌else◌,
}
use ritesmith.Json.{Value, null, text, arr, obj, Fields, end, field, Items, nil, cons}
use ritesmith.Registry.{Db, Result, ok, err, Content, Description, create_artifact}
use ritesmith.Execution.Delegated.{set_field}
use ritesmith.Plans.Build.{Draft, Step}

-- `persisted_ids`, the newest entry first.
abbrev pub Ids : Type 0
Ids = List (String × String)

unfoldable pub persisted_id : String → Ids → Option String
persisted_id k [] = none
persisted_id k ((old, new) ∷ ids) = if old == k then some new else persisted_id k ids

-- `persisted_ids.get(k, k)`
unfoldable pub renamed : Ids → String → String
unfolding persisted_id
renamed ids k = elim (persisted_id k ids) [ none ↦ k | some new ↦ new ]

-- The value at_key `artifact_id`; a list or a dictionary is no key of a dictionary.
unfoldable pub rename : Ids → Value → Option Value
unfolding renamed
rename ids (text k) = some (text (renamed ids k))
rename ids (arr _) = none
rename ids (obj _) = none
rename ids v = some v

unfoldable pub field_of : String → Option Value → Option Fields → Option Fields
field_of k (some v) (some fs) = some (field k v fs)
field_of k _ _ = none

unfoldable pub item_of : Option Value → Option Items → Option Items
item_of (some v) (some vs) = some (cons v vs)
item_of _ _ = none

unfoldable pub as_arr : Option Items → Option Value
as_arr none = none
as_arr (some vs) = some (arr vs)

unfoldable pub as_obj : Option Fields → Option Value
as_obj none = none
as_obj (some fs) = some (obj fs)

-- `bind_persisted`
unfoldable mutual
  unfolding field_of item_of as_arr as_obj rename

  pub bind_value : Ids → Value → Option Value
  bind_value ids (arr vs) = as_arr (bind_items ids vs)
  bind_value ids (obj fs) = as_obj (bind_fields ids fs)
  bind_value ids v = some v

  pub bind_items : Ids → Items → Option Items
  bind_items ids nil = some nil
  bind_items ids (cons v vs) = item_of (bind_value ids v) (bind_items ids vs)

  pub bind_fields : Ids → Fields → Option Fields
  bind_fields ids end = some end
  bind_fields ids (field k v fs) =
      let inner = bind_value ids v in
      field_of k (if k == "artifact_id" then rename ids v else inner) (bind_fields ids fs)

-- A value replaced where the key is present.
unfoldable pub update : String → (Value → Option Value) → Fields → Option Fields
unfolding field_of
update k f end = some end
update k f (field j v fs) =
    let rest = update k f fs in
    if j == k then field_of j (f v) (some fs) else field_of j (some v) rest

-- `v.get(k, {})`, and on with what is there.
unfoldable pub at_key : String → (Value → Option Value) → Value → Option Value
unfolding update as_obj
at_key k f (obj fs) = as_obj (update k f fs)
at_key k f _ = none

unfoldable pub rename_body : Ids → Value → Option Value
unfolding update as_obj rename
rename_body ids (obj fs) = as_obj (update "artifact_id" (rename ids) fs)
rename_body ids v = some v

unfoldable pub each : (Value → Option Value) → Items → Option Items
unfolding item_of
each f nil = some nil
each f (cons v vs) = item_of (f v) (each f vs)

-- The iteration over `nodes`.
unfoldable pub each_node : (Value → Option Value) → Value → Option Value
unfolding each as_arr
each_node f (arr vs) = as_arr (each f vs)
each_node f (obj end) = some (obj end)
each_node f (text s) = if s == "" then some (text s) else none
each_node f _ = none

unfoldable pub bind_definition : Ids → Value → Option Value
unfolding bind_value at_key each_node rename_body
bind_definition ids definition = elim (bind_value ids definition) [
  | none ↦ none
  | some bound ↦
      at_key "nodes"
        (each_node (at_key "action" (at_key "request" (at_key "body" (rename_body ids))))) bound
]

-- What the loop keeps; the newest artifact is at_key the head of the lists.
pub record Saved : Type 0 where
  pub db : Db
  pub ids : Ids
  pub artifact_ids : List String

unfoldable pub nonempty_ids : Ids → Bool
nonempty_ids [] = false
nonempty_ids (_ ∷ _) = true

module _ (loads : String → Option Value) (dumps : Value → String) where
  unfoldable pub bound_content : Ids → Draft → Option String
  unfolding bind_definition nonempty_ids
  bound_content ids a =
      if a.artifact_type == "trama_workflow" && nonempty_ids ids
      then elim (loads a.content) [
        | none ↦ none
        | some definition ↦ elim (bind_definition ids definition) [
          | none ↦ none
          | some bound ↦ some (dumps bound)
        ]
      ]
      else some a.content

-- `json` of a column that may be None.
unfoldable pub text_or_null : Option String → Value
text_or_null none = null
text_or_null (some s) = text s

unfoldable pub draft_metadata : Draft → Fields
unfolding set_field text_or_null
draft_metadata a =
    set_field "runtime_profile" (text_or_null a.runtime_profile)
      (elim a.metadata [ none ↦ end | some fs ↦ fs ])

unfoldable pub content_of : String → Draft → Content
unfolding draft_metadata
content_of content a = record {
  content = content;
  input_schema = a.input_schema;
  output_schema = a.output_schema;
  risk_level = some (text_or a.risk_level "low");
  requires_approval = false;
  metadata = some (draft_metadata a);
}

unfoldable pub description_of : String → Draft → Description
description_of plan_id a = record {
  name = a.name;
  artifact_type = a.artifact_type;
  description = a.description;
  usage_description = none;
  tags = a.tags;
  generated_by_plan_id = some plan_id;
}

unfoldable pub stored : String → Draft → Saved → Result Db → Option Saved
stored new_id a s (err _) = none
stored new_id a s (ok db) = some (record {
  db = db;
  ids = (a.artifact_id, new_id) ∷ s.ids;
  artifact_ids = new_id ∷ s.artifact_ids;
})

-- An artifact that is no draft, or has no content, is there already.
unfoldable pub kept : Draft → Saved → Saved
kept a s =
    if a.artifact_id == "" then s else record s { artifact_ids = a.artifact_id ∷ s.artifact_ids }

module _ (sha256 : String → String) (now ttl : ℕ) (loads : String → Option Value)
    (dumps : Value → String) (plan_id : String) where
  unfoldable pub save_content : String → Draft → Saved → Option String → Option Saved
  unfolding stored kept content_of description_of
  save_content new_id a s none = none
  save_content new_id a s (some content) =
      if a.is_draft && not (content == "")
      then stored new_id a s (
          create_artifact sha256 now new_id ttl (description_of plan_id a) (content_of content a)
            s.db)
      else some (kept a s)

  unfoldable pub save : String → Draft → Saved → Option Saved
  unfolding save_content bound_content
  save new_id a s = save_content new_id a s (bound_content loads dumps s.ids a)

  -- `new_id i` is what `generate_id("art")` returns for the artifact with index i.
  unfoldable pub save_all : (ℕ → String) → ℕ → List Draft → Saved → Option Saved
  unfolding save
  save_all new_id i [] s = some s
  save_all new_id i (a ∷ rest) s = elim (save (new_id i) a s) [
    | none ↦ none
    | some s' ↦ save_all new_id (i + 1) rest s'
  ]

-- `step.artifact_id = persisted_ids.get(step.artifact_id, step.artifact_id)`
unfoldable pub rename_step : Ids → Step → Step
unfolding renamed
rename_step ids step = record step {
  artifact_id = elim step.artifact_id [ none ↦ none | some k ↦ some (renamed ids k) ];
}

unfoldable pub unsaved : List Draft → List String
unsaved [] = []
unsaved (a ∷ rest) =
    let others = unsaved rest in if a.artifact_id == "" then others else a.artifact_id ∷ others
