-- ===== src/Registry/Versions.antt =====
-- The versions of an artifact are 1 to its current version, and its hash is that of the current one.
use mathlib.Core.Option
use ritesmith.Prelude.{
  ℕ, ◌+◌, String, ◌≡◌, refl, subst, Bool, Option, none, some, List, ◌∷◌, arith, ◌==◌, eq_iff, leb,
  ltb, ◌&&◌, nat_eq, if◌then◌else◌, eq_refl, present,
}
use ritesmith.Registry.{
  Artifact, ArtifactVersion, Db, Content, Description, ok, find_artifact, find_version, write,
  get_artifact, add_version, add_artifact, new_artifact, version_row, create_artifact,
  create_new_version, bump_version, update_artifact_status,
}
use ritesmith.Registry.Transitions.{update_artifact_status-eq-ok, update_artifact_status_lem}
use ritesmith.Registry.Rows.{find_artifact-id, find_artifact-write}

abbrev version_of : Option Artifact → ℕ
version_of none = 0
version_of (some a) = a.current_version

-- The current version of an artifact, and 0 where there is no artifact.
abbrev pub current : String → Db → ℕ
current k db = version_of (find_artifact k db.artifacts)

abbrev pub has_version : String → ℕ → Db → Bool
has_version k n db = present (find_version k n db.versions)

module _ (sha256 : String → String) where
  pub record IsConsistent (db : Db) : Type 0 where
    pub exact : (k : String) (n : ℕ) → has_version k n db ≡ (ltb 0 n && leb n (current k db))
    pub hashed :
        (k : String) (a : Artifact) (v : ArtifactVersion)
        → find_artifact k db.artifacts ≡ some a
        → find_version k a.current_version db.versions ≡ some v
        → a.content_hash ≡ sha256 v.content

-- An insertion changes what is found at the new key alone.
find_version-cons :
    (k : String) (n : ℕ) (v : ArtifactVersion) (rows : List ArtifactVersion)
    → find_version k n (v ∷ rows)
      ≡ (if v.artifact_id == k && nat_eq v.version n then some v else find_version k n rows)
unfolding find_version
find_version-cons k n v rows = refl

module _ (sha256 : String → String) (now : ℕ) (artifact_id : String) (c : Content) (db : Db) where
  -- In a consistent registry an artifact can be created under an id that is free; the registry stays
  -- consistent and the current version of the artifact is 1.
  pub create_artifact-IsConsistent :
      (ttl : ℕ) (d : Description)
      → IsConsistent sha256 db
      → get_artifact artifact_id db ≡ none
      → (db' : Db) × (create_artifact sha256 now artifact_id ttl d c db ≡ ok db')
        × IsConsistent sha256 db'
        × (current artifact_id db' ≡ 1)
  unfolding create_artifact get_artifact find_artifact find_version new_artifact version_row
      add_artifact add_version
  create_artifact-IsConsistent ttl d h fresh = (
    record {
      artifacts = new_artifact sha256 now artifact_id ttl d c ∷ db.artifacts;
      versions = version_row artifact_id 1 c ∷ db.versions;
    },
    ground (arith, h.exact artifact_id 1),
    record {
      exact = λ k n. ground (arith, h.exact k n, eq_iff artifact_id k);
      hashed = λ k a v. ground (arith, h.hashed k a v, eq_iff artifact_id k);
    },
    ground (arith, eq_refl artifact_id),
  )

  -- In a consistent registry a new version of an artifact that exists is accepted; the registry
  -- stays consistent, the current version of the artifact is one more, and every version row stays
  -- as it was.
  pub create_new_version-IsConsistent :
      (a : Artifact)
      → IsConsistent sha256 db
      → get_artifact artifact_id db ≡ some a
      → (db' : Db) × (create_new_version sha256 now artifact_id c db ≡ ok db')
        × IsConsistent sha256 db'
        × (current artifact_id db' ≡ a.current_version + 1)
        × ((k : String) (n : ℕ) (v : ArtifactVersion)
            → find_version k n db.versions ≡ some v
            → find_version k n db'.versions ≡ some v)
  unfolding create_new_version get_artifact find_version version_row add_version bump_version
  create_new_version-IsConsistent a h found = (
    record {
      artifacts = write a.artifact_id bump db.artifacts;
      versions = version_row a.artifact_id (a.current_version + 1) c ∷ db.versions;
    },
    ground (arith, own, h.exact artifact_id (a.current_version + 1)),
    record {
      exact = λ k n. ground (arith, own, at k, h.exact k n, eq_iff artifact_id k);
      hashed = λ k b v. ground (arith, own, at k, h.hashed k b v, eq_iff artifact_id k);
    },
    ground (arith, own, at artifact_id, eq_refl artifact_id),
    λ k n v old. ground (arith, own, h.exact k n, eq_iff artifact_id k),
  )
    where
      bump : Artifact → Artifact
      bump row = record row {
        current_version = a.current_version + 1;
        content_hash = sha256 c.content;
        updated_at = now;
      }

      own : a.artifact_id ≡ artifact_id
      own = find_artifact-id artifact_id db.artifacts a found

      at :
          (k : String)
          → find_artifact k (write a.artifact_id bump db.artifacts) ≡ (
              if a.artifact_id == k
              then Option.map bump (find_artifact k db.artifacts)
              else find_artifact k db.artifacts)
      at k = find_artifact-write a.artifact_id k bump (λ row. refl) db.artifacts

-- A row that keeps its version and hash keeps the registry consistent.
IsConsistent-restatus :
    (sha256 : String → String) (db db' : Db) (k : String) (a a' : Artifact)
    → get_artifact k db ≡ some a
    → a'.current_version ≡ a.current_version
    → a'.content_hash ≡ a.content_hash
    → db'.versions ≡ db.versions
    → ((j : String) → get_artifact j db' ≡ (if k == j then some a' else get_artifact j db))
    → IsConsistent sha256 db
    → IsConsistent sha256 db'
unfolding get_artifact
IsConsistent-restatus sha256 db db' k a a' found version hash same rows h = record {
  exact = λ j n. rw same (ground (arith, rows j, eq_iff k j, h.exact j n));
  hashed = λ j b v. rw same (ground (arith, rows j, eq_iff k j, h.hashed k a v, h.hashed j b v));
}

module _ (sha256 : String → String) (now : ℕ) (artifact_id : String) (db : Db) where
  -- A status change that succeeds keeps the registry consistent.
  pub update_artifact_status-IsConsistent :
      (new_status : String) (db' : Db)
      → IsConsistent sha256 db
      → update_artifact_status now artifact_id new_status db ≡ ok db'
      → IsConsistent sha256 db'
  update_artifact_status-IsConsistent new_status db' h e =
      let (a, found, allowed, _) =
        update_artifact_status-eq-ok now artifact_id new_status db db' e in
      let (db'', e', same, rows) =
        update_artifact_status_lem now artifact_id new_status db a found allowed in
      let is_same : db'' ≡ db' = cc in
      subst (IsConsistent sha256) is_same (
        IsConsistent-restatus sha256 db db'' artifact_id a
          (record a { status = new_status; updated_at = now }) found refl refl same rows h)
