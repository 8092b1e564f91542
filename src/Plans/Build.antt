-- ===== src/Plans/Build.antt =====
-- PlanBuilder.build_plan of core/planning.py from the artifact types on: the steps, the policy on each artifact, the
-- status of the plan and the aggregated decision. The analysis of the intent and the generation of an artifact call a
-- language model; they are parameters, and an exception of theirs (none) ends the call.
use Prim.Native.String.{◌++◌}
use mathlib.Core.List as List
use ritesmith.Prelude.{
  ℕ, suc, ◌+◌, String, Bool, true, false, ◌||◌, Option, none, some, List, [], ◌∷◌, ◌==◌, elem,
  text_or, if◌then◌else◌,
}
use ritesmith.Json.{Fields}
use ritesmith.Policy
use ritesmith.Policy.{Decision, DecisionValue, allow, deny, require_approval, evaluate}
use ritesmith.Plans.{PlanStatus, proposed, approved, blocked}

-- An artifact of a generation, before it is stored.
pub record Draft : Type 0 where
  pub artifact_id : String
  pub name : String
  pub artifact_type : String
  pub is_draft : Bool
  pub content : String
  pub description : Option String
  pub tags : Option (List String)
  pub input_schema : Option Fields
  pub output_schema : Option Fields
  pub risk_level : Option String
  pub metadata : Option Fields
  pub runtime_profile : Option String

-- The response of a generation; `valid` is `validation.valid`, where there is a validation.
pub record Generated : Type 0 where
  pub artifact : Draft
  pub valid : Option Bool
  pub reused : Bool

pub record Step : Type 0 where
  pub step_id : String
  pub title : String
  pub description : Option String
  pub status : String
  pub artifact_id : Option String
  pub reused : Option Bool

abbrev pub script_types : List String
script_types = "lua_script" ∷ "luau_script" ∷ []

unfoldable pub any_given : List String → Bool
any_given [] = false
any_given (t ∷ ts) = true

-- `requested or analysed or ["lua_script"]`
unfoldable pub first_given : List String → List String → List String
unfolding any_given
first_given requested analysed =
    if any_given requested
    then requested
    else if any_given analysed
    then analysed
    else "lua_script" ∷ []

-- A script of the analysis is generated in the configured language.
unfoldable pub in_language : String → List String → List String
in_language script_type [] = []
in_language script_type (t ∷ ts) =
    (if elem t script_types then script_type else t) ∷ in_language script_type ts

unfoldable pub without : String → List String → List String
without t [] = []
without t (u ∷ us) = let rest = without t us in if u == t then rest else u ∷ rest

-- `dict.fromkeys`: the first of equal names stays, the later ones go. The list gets shorter, so its length is enough fuel.
unfoldable pub fromkeys : ℕ → List String → List String
unfolding without
fromkeys ℕ.zero ts = []
fromkeys (suc n) [] = []
fromkeys (suc n) (t ∷ ts) = t ∷ fromkeys n (without t ts)

-- A stable sort by a Boolean key: the names that are no scripts, and the scripts put before them.
unfoldable pub others_of : List String → List String
others_of [] = []
others_of (t ∷ ts) = let rest = others_of ts in if elem t script_types then rest else t ∷ rest

unfoldable pub scripts_before : List String → List String → List String
scripts_before [] others = others
scripts_before (t ∷ ts) others =
    let rest = scripts_before ts others in if elem t script_types then t ∷ rest else rest

unfoldable pub names_length : List String → ℕ
names_length [] = 0
names_length (t ∷ ts) = suc (names_length ts)

unfoldable pub ordered_types : String → List String → List String → List String
unfolding first_given in_language fromkeys scripts_before others_of names_length any_given
ordered_types script_type requested analysed =
    let given = first_given requested analysed in
    let types = if any_given requested then given else in_language script_type given in
    let distinct = fromkeys (names_length types) types in
    scripts_before distinct (others_of distinct)

-- What the loop over the types keeps.
pub record BuildProgress : Type 0 where
  pub steps : List Step
  pub artifacts : List Draft
  pub validations : List Bool
  pub decisions : List Decision
  pub any_blocked : Bool
  pub any_requires_approval : Bool

pub record Handled : Type 0 where
  pub step : Step
  pub artifact : Option Draft
  pub validation : Option Bool

-- A validation that failed fails the step; without a validation the artifact counts as valid.
unfoldable pub is_valid : Option Bool → Bool
is_valid none = true
is_valid (some b) = b

-- The end of `_handle_lua_artifact` and of `_handle_workflow_artifact`.
unfoldable pub handled : String → String → Generated → Handled
unfolding is_valid
handled step_id artifact_type g = record {
  step = record {
    step_id = step_id;
    title = "Generate " ++ artifact_type ++ ": " ++ g.artifact.name;
    description = g.artifact.description;
    status = if is_valid g.valid then "completed" else "failed";
    artifact_id = if is_valid g.valid then some g.artifact.artifact_id else none;
    reused = some g.reused;
  };
  artifact = if is_valid g.valid then some g.artifact else none;
  validation = g.valid;
}

unfoldable pub skipped : String → String → Handled
skipped step_id artifact_type = record {
  step = record {
    step_id = step_id;
    title = "Generate " ++ artifact_type;
    description = some ("Unsupported artifact type: " ++ artifact_type);
    status = "skipped";
    artifact_id = none;
    reused = none;
  };
  artifact = none;
  validation = none;
}

unfoldable pub scripts_among : List Draft → List Draft
scripts_among [] = []
scripts_among (a ∷ rest) =
    let others = scripts_among rest in
    if elem a.artifact_type script_types then a ∷ others else others

-- The request to the policy about an artifact of a plan.
unfoldable pub plan_request : String → Draft → Policy.Request
plan_request artifact_type a = record {
  operation = "execute";
  artifact_type = some artifact_type;
  risk_level = some (text_or a.risk_level "low");
  runtime_profile = none;
  manual = false;
  certification = none;
}

-- The decision on the artifact of a step, and the step, in lists that the newest is at the head of.
unfoldable pub note_decision : Decision → Step → Draft → BuildProgress → BuildProgress
note_decision d step a p = elim d.value [
  | deny ↦ record p {
    steps = (record step { status = "blocked" }) ∷ p.steps;
    artifacts = a ∷ p.artifacts;
    decisions = d ∷ p.decisions;
    any_blocked = true;
  }
  | require_approval ↦ record p {
    steps = step ∷ p.steps;
    artifacts = a ∷ p.artifacts;
    decisions = d ∷ p.decisions;
    any_requires_approval = true;
  }
  | allow ↦ record p {
    steps = step ∷ p.steps;
    artifacts = a ∷ p.artifacts;
    decisions = d ∷ p.decisions;
  }
]

unfoldable pub add_validation : Option Bool → BuildProgress → BuildProgress
add_validation none p = p
add_validation (some b) p = record p { validations = b ∷ p.validations }

-- A step that failed blocks the plan.
unfoldable pub note_status : Step → BuildProgress → BuildProgress
note_status step p = record p { any_blocked = p.any_blocked || step.status == "failed" }

module _ (settings : Policy.Settings) where
  -- Without an artifact there is no decision.
  unfoldable pub note : String → Step → Option Draft → BuildProgress → Option BuildProgress
  note artifact_type step none p = some (record p { steps = step ∷ p.steps })
  note artifact_type step (some a) p = elim (evaluate settings (plan_request artifact_type a)) [
    | none ↦ none
    | some d ↦ some (note_decision d step a p)
  ]

  unfoldable pub note_handled : String → Handled → BuildProgress → Option BuildProgress
  unfolding add_validation note_status
  note_handled artifact_type h p =
      note artifact_type h.step h.artifact (note_status h.step (add_validation h.validation p))

module _ (settings : Policy.Settings) (str : ℕ → String)
    (generate_script : String → Option Generated)
    (generate_workflow : List Draft → Option Generated) where
  unfoldable pub handle : String → String → List Draft → Option Handled
  unfolding handled skipped scripts_among
  handle step_id artifact_type artifacts =
      if elem artifact_type script_types
      then elim (generate_script artifact_type) [
        | none ↦ none
        | some g ↦ some (handled step_id artifact_type g)
      ]
      else if artifact_type == "trama_workflow"
      then elim (generate_workflow (scripts_among (List.reverse artifacts))) [
        | none ↦ none
        | some g ↦ some (handled step_id artifact_type g)
      ]
      else some (skipped step_id artifact_type)

  -- `step_{i + 1}` for the type with index `i`.
  unfoldable pub handle_all : ℕ → List String → BuildProgress → Option BuildProgress
  unfolding handle note_handled
  handle_all i [] p = some p
  handle_all i (t ∷ ts) p = elim (handle ("step_" ++ str (i + 1)) t p.artifacts) [
    | none ↦ none
    | some h ↦ elim (note_handled settings t h p) [
      | none ↦ none
      | some p' ↦ handle_all (i + 1) ts p'
    ]
  ]

abbrev pub no_progress : BuildProgress
no_progress = record {
  steps = [];
  artifacts = [];
  validations = [];
  decisions = [];
  any_blocked = false;
  any_requires_approval = false;
}

-- The status of the plan; the last Boolean is `require_approval_for_execution`.
unfoldable pub plan_status : BuildProgress → Bool → PlanStatus
plan_status p require_approval_for_execution =
    if p.any_blocked
    then blocked
    else if p.any_requires_approval || require_approval_for_execution
    then proposed
    else approved

unfoldable pub value_eq : DecisionValue → DecisionValue → Bool
value_eq allow allow = true
value_eq deny deny = true
value_eq require_approval require_approval = true
value_eq _ _ = false

-- `value in [d.decision for d in policy_decisions]`
unfoldable pub any_decision : DecisionValue → List Decision → Bool
unfolding value_eq
any_decision v [] = false
any_decision v (d ∷ ds) = value_eq d.value v || any_decision v ds

-- The decision on the plan as a whole, where there is a decision on an artifact.
unfoldable pub aggregate : List Decision → Option Decision
unfolding any_decision
aggregate [] = none
aggregate (d ∷ ds) =
    if any_decision deny (d ∷ ds)
    then some (record { value = deny; reason = "One or more artifacts were denied by policy" })
    else if any_decision require_approval (d ∷ ds)
    then some
        (record { value = require_approval; reason = "One or more artifacts require approval" })
    else some (record { value = allow; reason = "All artifacts approved by policy" })
