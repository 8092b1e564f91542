-- ===== src/Registry.antt =====
-- ritesmith/registry/service.py over the tables of ritesmith/registry/models.py: artifacts, their
-- versions and the status machine. A table is the list of its rows; a column that is a primary or
-- unique key makes the insertion of a second row with its value fail (`IntegrityError`).
-- The clock and the generated id are arguments, as is the digest of a content.
pub mod Rows
pub mod Versions
pub mod Transitions
mod Tests
use ritesmith.Prelude.{
  ℕ, ◌≡◌, refl, ◌+◌, ◌*◌, String, Bool, ◌&&◌, Option, none, some, List, [], ◌∷◌, ◌==◌, ltb, nat_eq,
  elem, if◌then◌else◌,
}
use ritesmith.Json.{Fields}

pub record Artifact : Type 0 where
  pub artifact_id : String
  pub name : String
  pub artifact_type : String
  pub current_version : ℕ
  pub status : String
  pub description : Option String
  pub usage_description : Option String
  pub tags : Option (List String)
  pub content_hash : String
  pub generated_by_plan_id : Option String
  pub created_at : ℕ
  pub updated_at : ℕ
  pub expires_at : Option ℕ

pub record ArtifactVersion : Type 0 where
  pub artifact_id : String
  pub version : ℕ
  pub content : String
  pub input_schema : Option Fields
  pub output_schema : Option Fields
  pub risk_level : Option String
  pub requires_approval : Bool
  pub metadata : Option Fields

pub record Db : Type 0 where
  pub artifacts : List Artifact
  pub versions : List ArtifactVersion

pub data Error : Type 0 where
  not_found invalid_transition integrity : Error

pub data Result {ℓ} (A : Type ℓ) : Type ℓ where
  ok : A → Result A
  err : Error → Result A

-- A row by its primary key (`scalar_one_or_none`).
unfoldable pub find_artifact : String → List Artifact → Option Artifact
find_artifact k [] = none
find_artifact k (a ∷ rows) = if a.artifact_id == k then some a else find_artifact k rows

unfoldable pub find_version : String → ℕ → List ArtifactVersion → Option ArtifactVersion
find_version k n [] = none
find_version k n (v ∷ rows) =
    if v.artifact_id == k && nat_eq v.version n then some v else find_version k n rows

-- The assignment of new values to the row with a key.
unfoldable pub write : String → (Artifact → Artifact) → List Artifact → List Artifact
write k f [] = []
write k f (a ∷ rows) = if a.artifact_id == k then f a ∷ rows else a ∷ write k f rows

unfoldable pub get_artifact : String → Db → Option Artifact
get_artifact artifact_id db = find_artifact artifact_id db.artifacts

-- The values of `create_artifact` and of `create_new_version` that go into a version.
pub record Content : Type 0 where
  pub content : String
  pub input_schema : Option Fields
  pub output_schema : Option Fields
  pub risk_level : Option String
  pub requires_approval : Bool
  pub metadata : Option Fields

pub record Description : Type 0 where
  pub name : String
  pub artifact_type : String
  pub description : Option String
  pub usage_description : Option String
  pub tags : Option (List String)
  pub generated_by_plan_id : Option String

abbrev pub ttl_types : List String
ttl_types = "lua_script" ∷ "luau_script" ∷ "trama_workflow" ∷ []

abbrev pub seconds_per_day : ℕ
seconds_per_day = 86400

unfoldable pub expiry : ℕ → ℕ → String → Option ℕ
expiry now ttl artifact_type =
    if ltb 0 ttl && elem artifact_type ttl_types then some (now + ttl * seconds_per_day) else none

unfoldable pub version_row : String → ℕ → Content → ArtifactVersion
version_row artifact_id n c = record {
  artifact_id = artifact_id;
  version = n;
  content = c.content;
  input_schema = c.input_schema;
  output_schema = c.output_schema;
  risk_level = c.risk_level;
  requires_approval = c.requires_approval;
  metadata = c.metadata;
}

-- `db.add(version)` and the flush: the pair (artifact_id, version) is unique.
unfoldable pub add_version : ArtifactVersion → Db → Result Db
add_version v db = elim (find_version v.artifact_id v.version db.versions) [
  | some _ ↦ err integrity
  | none ↦ ok (record db { versions = v ∷ db.versions })
]

unfoldable pub add_artifact : Artifact → Db → Result Db
add_artifact a db = elim (find_artifact a.artifact_id db.artifacts) [
  | some _ ↦ err integrity
  | none ↦ ok (record db { artifacts = a ∷ db.artifacts })
]

-- What follows an operation that succeeded; an error ends the sequence.
infixl 5 ◌>>=◌
abbrev pub ◌>>=◌ {κ ℓ} : {S : Type κ} {T : Type ℓ} → Result S → (S → Result T) → Result T
err why >>= next = err why
ok done >>= next = next done

pub >>=-eq-ok {κ ℓ} :
    {S : Type κ} {T : Type ℓ} (first : Result S) (next : S → Result T) {end : T}
    → (first >>= next) ≡ ok end
    → (middle : S) × (first ≡ ok middle) × (next middle ≡ ok end)
>>=-eq-ok (err why) next h = cc
>>=-eq-ok (ok done) next h = (done, refl, h)

-- `_ALLOWED_TRANSITIONS.get(status, set())`
unfoldable pub allowed_transitions : String → List String
allowed_transitions status =
    if status == "draft"
    then "proposed" ∷ "validated" ∷ "rejected" ∷ "archived" ∷ "deprecated" ∷ []
    else if status == "proposed"
    then "validated" ∷ "approved" ∷ "rejected" ∷ "archived" ∷ []
    else if status == "validated"
    then "approved" ∷ "active" ∷ "deprecated" ∷ "archived" ∷ []
    else if status == "approved"
    then "active" ∷ "deprecated" ∷ "archived" ∷ []
    else if status == "active"
    then "deprecated" ∷ "archived" ∷ []
    else if status == "deprecated"
    then "archived" ∷ []
    else if status == "rejected"
    then "archived" ∷ []
    else []

module _ (sha256 : String → String) (now : ℕ) where
  unfoldable pub new_artifact : String → ℕ → Description → Content → Artifact
  new_artifact artifact_id ttl d c = record {
    artifact_id = artifact_id;
    name = d.name;
    artifact_type = d.artifact_type;
    current_version = 1;
    status = "draft";
    description = d.description;
    usage_description = d.usage_description;
    tags = d.tags;
    content_hash = sha256 c.content;
    generated_by_plan_id = d.generated_by_plan_id;
    created_at = now;
    updated_at = now;
    expires_at = expiry now ttl d.artifact_type;
  }

  unfoldable pub create_artifact : String → ℕ → Description → Content → Db → Result Db
  unfolding new_artifact version_row add_artifact add_version
  create_artifact artifact_id ttl d c db = do
    db' ← add_artifact (new_artifact artifact_id ttl d c) db
    add_version (version_row artifact_id 1 c) db'

  -- The new row is inserted and the artifact updated in one flush.
  bump_version : Artifact → Content → Db → Result Db
  unfolding version_row add_version write
  bump_version a c db = do
    let n = a.current_version + 1
    db' ← add_version (version_row a.artifact_id n c) db
    ok (record db' {
      artifacts =
          write a.artifact_id
            (λ row. record row {
              current_version = n;
              content_hash = sha256 c.content;
              updated_at = now;
            })
            db'.artifacts;
    })

  unfoldable pub create_new_version : String → Content → Db → Result Db
  unfolding bump_version get_artifact
  create_new_version artifact_id c db = elim (get_artifact artifact_id db) [
    | none ↦ err not_found
    | some a ↦ bump_version a c db
  ]

module _ (now : ℕ) where
  set_status : Artifact → String → Db → Result Db
  unfolding write allowed_transitions
  set_status a new_status db =
      if elem new_status (allowed_transitions a.status)
      then ok (record db {
        artifacts =
            write a.artifact_id (λ row. record row { status = new_status; updated_at = now })
              db.artifacts;
      })
      else err invalid_transition

  unfoldable pub update_artifact_status : String → String → Db → Result Db
  unfolding set_status get_artifact
  update_artifact_status artifact_id new_status db = elim (get_artifact artifact_id db) [
    | none ↦ err not_found
    | some a ↦ set_status a new_status db
  ]

with_row : Artifact → Option ArtifactVersion → Option (Artifact × ArtifactVersion)
with_row a none = none
with_row a (some v) = some (a, v)

or_current : Option ℕ → Artifact → ℕ
or_current none a = a.current_version
or_current (some n) a = n

unfoldable pub get_artifact_with_version :
    String → Option ℕ → Db → Option (Artifact × ArtifactVersion)
unfolding with_row or_current get_artifact
get_artifact_with_version artifact_id version db = elim (get_artifact artifact_id db) [
  | none ↦ none
  | some a ↦ with_row a (find_version artifact_id (or_current version a) db.versions)
]
