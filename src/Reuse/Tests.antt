-- ===== src/Reuse/Tests.antt =====
-- One candidate that can run in place of a request, and the theorems at it.
use mathlib.Core.List.{Memᴰ}
use ritesmith.Prelude.{ℕ, ◌≡◌, refl, Bool, true, false, none, some, [], ◌∷◌, ◌==◌, elem, leb}
use ritesmith.Json.{text, arr, obj, cons, nil, Fields, end, field, lookup, elements}
use ritesmith.Registry.{Artifact, ArtifactVersion}
use ritesmith.Policy.{index_of}
use ritesmith.Reuse.{
  of_types, scored, requested_type, type_wanted, compatible, first, at, on_verdict, judge,
  check_reuse,
}
use ritesmith.Reuse.Compat.{
  Profiles, Wanted, SearchResult, names_under, allowed_profiles, list_names_for_profile, norm_type,
  schema_type, values_eq, type_compatible, risk_within, required_of, properties_of, field_met,
  and_then, fields_met, required_met, output_satisfies, nonempty, input_satisfiable, subset,
  candidate_profile, profile_subset, types_match, profile_fits, version_fits, is_compatible,
}
use ritesmith.Reuse.Compat.Contract.{Safe, is_compatible-Safe}
use ritesmith.Reuse.Chosen.{check_reuse-Safe}

abbrev schema : Fields
schema =
    field "required" (arr (cons (text "total") nil))
      (field "properties" (obj (field "total" (obj (field "type" (text "integer") end)) end)) end)

abbrev art : Artifact
art = record {
  artifact_id = "art";
  name = "n";
  artifact_type = "luau_script";
  current_version = 1;
  status = "active";
  description = none;
  usage_description = none;
  tags = none;
  content_hash = "h";
  generated_by_plan_id = none;
  created_at = 1;
  updated_at = 1;
  expires_at = none;
}

abbrev version_one : ArtifactVersion
version_one = record {
  artifact_id = "art";
  version = 1;
  content = "f";
  input_schema = none;
  output_schema = some schema;
  risk_level = some "low";
  requires_approval = false;
  metadata = some (field "runtime_profile" (text "transform_only") end);
}

abbrev candidate : SearchResult ℕ
candidate = record { artifact = art; version = some version_one; score = 7 }

abbrev profiles : Profiles
profiles = record {
  registry = ("json.decode", "transform_only") ∷ ("http.request", "readonly_network") ∷ [];
  py_eq = λ v w. false;
}

abbrev wanted : Wanted
wanted = record {
  input_schema = none;
  output_schema = some schema;
  runtime_profile = some "readonly_network";
  allowed_risk = some "medium";
}

abbrev high : ℕ → Bool
high n = leb 5 n

program : Unit {0}
unfolding of_types scored requested_type type_wanted compatible first at on_verdict judge
    check_reuse names_under allowed_profiles list_names_for_profile norm_type schema_type values_eq
    type_compatible risk_within required_of properties_of field_met and_then fields_met required_met
    output_satisfies nonempty input_satisfiable subset candidate_profile profile_subset types_match
    profile_fits version_fits is_compatible elem lookup elements index_of
program = tt

candidate-fits : is_compatible profiles wanted "luau_script" candidate ≡ some true
unfolding program
candidate-fits = refl

candidate-chosen :
    check_reuse profiles wanted high false none "prefer_reuse" ("luau_script" ∷ []) (candidate ∷ [])
    ≡ some (some candidate)
unfolding program
candidate-chosen = refl

is_compatible-Safe_example :
    (v : ArtifactVersion) × (candidate.version ≡ some v)
    × (types_match "luau_script" "luau_script" ≡ true)
    × Safe profiles wanted v
is_compatible-Safe_example =
    is_compatible-Safe profiles wanted "luau_script" candidate candidate-fits

check_reuse-Safe_example :
    Memᴰ candidate (candidate ∷ [])
    × (elem "luau_script" ("luau_script" ∷ []) ≡ true)
    × (high 7 ≡ true)
    × (("prefer_reuse" == "force_new") ≡ false)
    × ((v : ArtifactVersion) × (candidate.version ≡ some v)
        × (types_match (type_wanted ("luau_script" ∷ []) candidate) "luau_script" ≡ true)
        × Safe profiles wanted v)
check_reuse-Safe_example =
    check_reuse-Safe profiles wanted high false none "prefer_reuse" ("luau_script" ∷ [])
      (candidate ∷ []) candidate candidate-chosen
