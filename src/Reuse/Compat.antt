-- ===== src/Reuse/Compat.antt =====
-- ritesmith/core/compat.py: whether an artifact can run in place of a request, with the host
-- functions of a profile (ritesmith/runtime/host_functions.py). Python's `==` is a parameter where one of
-- two values is no text. An outer `none` is a schema whose `required` is no list, whose `properties` is no
-- object or whose required names are no texts or numbers, or a profile that is no text: Python's answer
-- or exception there is not modelled.
pub mod Contract
use ritesmith.Prelude.{
  ℕ, String, Bool, true, false, not, ◌&&◌, ◌||◌, Option, none, some, List, [], ◌∷◌, ◌==◌, elem, leb,
  text_or, if◌then◌else◌,
}
use ritesmith.Json.{Value, null, text, arr, obj, Fields, end, field, lookup, truthy, elements}
use ritesmith.Registry.{Artifact, ArtifactVersion}
use ritesmith.Policy.{risk_order, index_of}

-- The host functions with the profile of each, as the process has loaded them, and Python's `==`.
pub record Profiles : Type 0 where
  pub registry : List (String × String)
  pub py_eq : Value → Value → Bool

-- `PROFILES.get(profile, {"transform_only"})`
unfoldable pub allowed_profiles : String → List String
allowed_profiles profile =
    if profile == "readonly_network"
    then "transform_only" ∷ "readonly_network" ∷ []
    else if profile == "notification"
    then "transform_only" ∷ "readonly_network" ∷ "notification" ∷ []
    else if profile == "sensitive_personal"
    then "transform_only" ∷ "readonly_network" ∷ "notification" ∷ "sensitive_personal" ∷ []
    else if profile == "analytics_local"
    then "transform_only" ∷ "analytics_local" ∷ []
    else if profile == "filesystem_write"
    then "transform_only" ∷ "filesystem_write" ∷ []
    else if profile == "reporting"
    then "transform_only" ∷ "readonly_network" ∷ "analytics_local" ∷ "filesystem_write"
      ∷ "notification" ∷ []
    else if profile == "side_effects"
    then "transform_only" ∷ "readonly_network" ∷ "side_effects" ∷ []
    else if profile == "trusted_internal"
    then "transform_only" ∷ "readonly_network" ∷ "notification" ∷ "sensitive_personal"
      ∷ "analytics_local" ∷ "filesystem_write" ∷ "trusted_internal" ∷ "side_effects" ∷ []
    else "transform_only" ∷ []

-- What a request asks for.
pub record Wanted : Type 0 where
  pub input_schema : Option Fields
  pub output_schema : Option Fields
  pub runtime_profile : Option String
  pub allowed_risk : Option String

pub record SearchResult {ℓ} (Score : Type ℓ) : Type ℓ where
  pub artifact : Artifact
  pub version : Option ArtifactVersion
  pub score : Score

unfoldable pub names_under : List String → List (String × String) → List String
names_under allowed [] = []
names_under allowed ((name, profile) ∷ fs) =
    let rest = names_under allowed fs in if elem profile allowed then name ∷ rest else rest

-- The names, in the order of the registry; they are only compared as sets.
unfoldable pub list_names_for_profile : Profiles → String → List String
unfolding names_under allowed_profiles
list_names_for_profile p profile = names_under (allowed_profiles profile) p.registry

unfoldable pub norm_type : Value → Value
norm_type (text t) = if t == "integer" then text "number" else text t
norm_type v = v

unfoldable pub schema_type : Option Value → Option Value
schema_type (some (obj fs)) = elim (lookup "type" fs) [
  | none ↦ none
  | some null ↦ none
  | some v ↦ some v
]
schema_type _ = none

unfoldable pub values_eq : Profiles → Value → Value → Bool
values_eq p (text s) (text t) = s == t
values_eq p v w = p.py_eq v w

unfoldable pub type_compatible : Profiles → Option Value → Option Value → Bool
unfolding values_eq norm_type
type_compatible p none b = true
type_compatible p (some a) none = true
type_compatible p (some a) (some b) = values_eq p (norm_type a) (norm_type b)

unfoldable pub risk_within : Option String → Option String → Bool
risk_within candidate none = true
risk_within candidate (some allowed) =
    let cand = text_or candidate "low" in
    if not (elem cand risk_order) || not (elem allowed risk_order)
    then false
    else leb (index_of cand risk_order) (index_of allowed risk_order)

-- `schema.get("required") or []`
unfoldable pub required_of : Fields → Option (List Value)
required_of fs = elim (lookup "required" fs) [
  | none ↦ some []
  | some (arr vs) ↦ some (elements vs)
  | some v ↦ (if truthy v then none else some [])
]

-- `schema.get("properties") or {}`
unfoldable pub properties_of : Fields → Option Fields
properties_of fs = elim (lookup "properties" fs) [
  | none ↦ some end
  | some (obj ps) ↦ some ps
  | some v ↦ (if truthy v then none else some end)
]

-- One required field: the provider's properties have it, with a compatible type.
unfoldable pub field_met : Profiles → Fields → Fields → Value → Option Bool
unfolding schema_type
field_met p needs provides (text f) = elim (lookup f provides) [
  | none ↦ some false
  | some v ↦ some (type_compatible p (schema_type (lookup f needs)) (schema_type (some v)))
]
field_met p needs provides (arr _) = none
field_met p needs provides (obj _) = none
field_met p needs provides _ = some false

-- `and` of a test and the tests that follow it.
unfoldable pub and_then : Option Bool → Option Bool → Option Bool
and_then (some true) rest = rest
and_then r rest = r

unfoldable pub fields_met : Profiles → Fields → Fields → List Value → Option Bool
unfolding field_met and_then
fields_met p needs provides [] = some true
fields_met p needs provides (f ∷ fs) =
    and_then (field_met p needs provides f) (fields_met p needs provides fs)

properties_met : Profiles → Option Fields → Option Fields → List Value → Option Bool
unfolding fields_met
properties_met p (some needs) (some provides) required = fields_met p needs provides required
properties_met p _ _ required = none

unfoldable pub required_met : Profiles → Fields → Option Fields → Option (List Value) → Option Bool
unfolding properties_met properties_of
required_met p needs provided none = none
required_met p needs provided (some []) = some true
required_met p needs none (some (f ∷ fs)) = some false
required_met p needs (some provides) (some (f ∷ fs)) =
    properties_met p (properties_of needs) (properties_of provides) (f ∷ fs)

unfoldable pub output_satisfies : Profiles → Option Fields → Option Fields → Option Bool
unfolding required_met required_of
output_satisfies p none candidate_out = some true
output_satisfies p (some end) candidate_out = some true
output_satisfies p (some request_out) candidate_out =
    required_met p request_out candidate_out (required_of request_out)

-- `None` for the empty object, which Python takes for false as well.
unfoldable pub nonempty : Option Fields → Option Fields
nonempty (some end) = none
nonempty o = o

unfoldable pub input_satisfiable : Profiles → Option Fields → Option Fields → Option Bool
unfolding required_met required_of nonempty
input_satisfiable p request_in none = some true
input_satisfiable p request_in (some candidate_in) =
    required_met p candidate_in (nonempty request_in) (required_of candidate_in)

-- `set(a) <= set(b)`
unfoldable pub subset : List String → List String → Bool
subset [] b = true
subset (s ∷ a) b = elem s b && subset a b

-- `metadata.get("runtime_profile")` of a version; none where it is no text.
unfoldable pub candidate_profile : ArtifactVersion → Option (Option String)
candidate_profile v = elim v.metadata [
  | none ↦ some none
  | some fs ↦ elim (lookup "runtime_profile" fs) [
    | none ↦ some none
    | some null ↦ some none
    | some (text s) ↦ some (some s)
    | some _ ↦ none
  ]
]

unfoldable pub profile_subset : Profiles → Option String → Option String → Bool
unfolding list_names_for_profile subset
profile_subset p none requested = true
profile_subset p (some candidate) none = true
profile_subset p (some candidate) (some requested) =
    subset (list_names_for_profile p candidate) (list_names_for_profile p requested)

abbrev pub script_types : List String
script_types = "lua_script" ∷ "luau_script" ∷ []

unfoldable pub types_match : String → String → Bool
types_match requested_type at =
    elem requested_type script_types && elem at script_types || at == requested_type

unfoldable pub profile_fits : Profiles → Option (Option String) → Option String → Option Bool
unfolding profile_subset
profile_fits p none requested = none
profile_fits p (some candidate) requested = some (profile_subset p candidate requested)

unfoldable pub version_fits : Profiles → Wanted → ArtifactVersion → Option Bool
unfolding profile_fits candidate_profile and_then
version_fits p wanted v = and_then (profile_fits p (candidate_profile v) wanted.runtime_profile) (
    and_then (some (risk_within v.risk_level wanted.allowed_risk)) (
      and_then (output_satisfies p wanted.output_schema v.output_schema)
        (input_satisfiable p wanted.input_schema v.input_schema)))

unfoldable pub is_compatible {ℓ} :
    {Score : Type ℓ} → Profiles → Wanted → String → SearchResult Score → Option Bool
unfolding types_match version_fits
is_compatible p wanted requested_type r = elim r.version [
  | none ↦ some false
  | some v ↦
      (if types_match requested_type r.artifact.artifact_type
        then version_fits p wanted v
        else some false)
]
