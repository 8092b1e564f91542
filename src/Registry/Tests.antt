-- ===== src/Registry/Tests.antt =====
-- A small registry, and the theorems at it.
use ritesmith.Prelude.{
  ℕ, ◌+◌, ◌≤◌, String, ◌≡◌, refl, subst, true, false, none, some, [], ◌∷◌, elem, length, arith,
}
use ritesmith.Registry.{
  Artifact, ArtifactVersion, Db, Content, Description, ok, find_artifact, find_version, write,
  get_artifact, expiry, version_row, add_version, add_artifact, allowed_transitions, new_artifact,
  create_artifact, create_new_version, update_artifact_status,
}
use ritesmith.Registry.Versions.{
  current, IsConsistent, create_artifact-IsConsistent, create_new_version-IsConsistent,
  update_artifact_status-IsConsistent,
}
use ritesmith.Registry.Transitions.{update_all, update_all-le}

abbrev no_db : Db
no_db = record { artifacts = []; versions = [] }

abbrev digest : String → String
digest s = s

abbrev script : Content
script = record {
  content = "f";
  input_schema = none;
  output_schema = none;
  risk_level = some "low";
  requires_approval = false;
  metadata = none;
}

abbrev about : Description
about = record {
  name = "n";
  artifact_type = "luau_script";
  description = none;
  usage_description = none;
  tags = none;
  generated_by_plan_id = none;
}

abbrev one : Db
one = record {
  artifacts = new_artifact digest 100 "art" 30 about script ∷ [];
  versions = version_row "art" 1 script ∷ [];
}

program : Unit {0}
unfolding find_artifact find_version write get_artifact expiry version_row add_version add_artifact
    allowed_transitions new_artifact create_artifact create_new_version update_artifact_status elem
    update_all
program = tt

create-one : create_artifact digest 100 "art" 30 about script no_db ≡ ok one
unfolding program
create-one = refl

IsConsistent-no_db : IsConsistent digest no_db
unfolding program
IsConsistent-no_db = record {
  exact = λ k n. ground arith;
  hashed = λ k a v f. absurd (ground arith);
}

fresh : get_artifact "art" no_db ≡ none
unfolding program
fresh = refl

create_artifact-IsConsistent_example :
    (db' : Db) × (create_artifact digest 100 "art" 30 about script no_db ≡ ok db')
    × IsConsistent digest db'
    × (current "art" db' ≡ 1)
create_artifact-IsConsistent_example =
    create_artifact-IsConsistent digest 100 "art" script no_db 30 about IsConsistent-no_db fresh

abbrev row : Artifact
row = new_artifact digest 100 "art" 30 about script

there : get_artifact "art" one ≡ some row
unfolding program
there = refl

IsConsistent-one : IsConsistent digest one
IsConsistent-one =
    let (db', e, consistent, _) =
      create_artifact-IsConsistent digest 100 "art" script no_db 30 about IsConsistent-no_db
        fresh in
    let same : db' ≡ one = cc create-one in subst (IsConsistent digest) same consistent

step_allowed : elem "proposed" (allowed_transitions row.status) ≡ true
unfolding program
step_allowed = refl

create_new_version-IsConsistent_example :
    (db' : Db) × (create_new_version digest 200 "art" script one ≡ ok db')
    × IsConsistent digest db'
    × (current "art" db' ≡ row.current_version + 1)
    × ((k : String) (n : ℕ) (v : ArtifactVersion)
        → find_version k n one.versions ≡ some v
        → find_version k n db'.versions ≡ some v)
create_new_version-IsConsistent_example =
    create_new_version-IsConsistent digest 200 "art" script one row IsConsistent-one there

abbrev proposed : Db
proposed = record one { artifacts = record row { status = "proposed"; updated_at = 300 } ∷ [] }

propose-one : update_artifact_status 300 "art" "proposed" one ≡ ok proposed
unfolding program
propose-one = refl

update_artifact_status-IsConsistent_example : IsConsistent digest proposed
update_artifact_status-IsConsistent_example =
    update_artifact_status-IsConsistent digest 300 "art" one "proposed" proposed IsConsistent-one
      propose-one

propose_all : update_all 300 "art" ("proposed" ∷ []) one ≡ ok proposed
unfolding program
propose_all = refl

update_all-le_example : length {A = String} ("proposed" ∷ []) ≤ 6
update_all-le_example = update_all-le 300 "art" ("proposed" ∷ []) one proposed propose_all
