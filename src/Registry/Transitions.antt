-- ===== src/Registry/Transitions.antt =====
-- The status machine of `update_artifact_status`.
use ritesmith.Prelude.{
  ℕ, ◌≤◌, ◌<◌, ◌+◌, String, ◌≡◌, refl, true, some, List, [], ◌∷◌, arith, ◌==◌, eq_iff, elem,
  if◌then◌else◌, inl, inr, eq_refl, All, elem-All, length, Option-cases, Bool-cases,
}
use ritesmith.Registry.{
  Artifact, Db, Result, >>=-eq-ok, ◌>>=◌, ok, write, get_artifact, allowed_transitions,
  update_artifact_status, set_status,
}
use ritesmith.Registry.Rows.{find_artifact-id, find_artifact-write}

-- How far a status is on the way to "archived".
pub stage : String → ℕ
stage s =
    if s == "draft"
    then 0
    else if s == "proposed"
    then 1
    else if s == "validated"
    then 2
    else if s == "approved"
    then 3
    else if s == "active"
    then 4
    else if s == "deprecated"
    then 5
    else if s == "rejected"
    then 5
    else if s == "archived"
    then 6
    else 7

abbrev Onward : String → String → Type 0
Onward s t = (stage s < stage t) × (stage t ≤ 6)

allowed-Onward : (s : String) → All (Onward s) (allowed_transitions s)
unfolding stage allowed_transitions
allowed-Onward s = ground arith

-- Every step that the table allows goes onward.
pub elem-allowed-stage :
    (s t : String) → elem t (allowed_transitions s) ≡ true → (stage s < stage t) × (stage t ≤ 6)
elem-allowed-stage s t h = elem-All (Onward s) t (allowed_transitions s) (allowed-Onward s) h

-- Where the artifact exists and the table allows the step, an update succeeds: the versions stay,
-- the artifact has the new status and time, and every other artifact is as it was.
pub update_artifact_status_lem :
    (now : ℕ) (k t : String) (db : Db) (a : Artifact)
    → get_artifact k db ≡ some a
    → elem t (allowed_transitions a.status) ≡ true
    → (db' : Db) × (update_artifact_status now k t db ≡ ok db')
      × (db'.versions ≡ db.versions)
      × ((j : String)
          → get_artifact j db' ≡ (
              if k == j
              then some (record a { status = t; updated_at = now })
              else get_artifact j db))
unfolding update_artifact_status set_status get_artifact
update_artifact_status_lem now k t db a found allowed = (
  record db {
    artifacts =
        write a.artifact_id (λ row. record row { status = t; updated_at = now }) db.artifacts;
  },
  ground arith,
  refl,
  λ j. ground (
    arith,
    find_artifact-id k db.artifacts a found,
    eq_iff k j,
    find_artifact-write a.artifact_id j (λ row. record row { status = t; updated_at = now })
        (λ row. refl) db.artifacts,
  ),
)

-- The inverse: a success means that the artifact is there and that the table allows the step.
pub update_artifact_status-eq-ok :
    (now : ℕ) (k t : String) (db db' : Db)
    → update_artifact_status now k t db ≡ ok db'
    → (a : Artifact) × (get_artifact k db ≡ some a)
      × (elem t (allowed_transitions a.status) ≡ true)
      × (get_artifact k db' ≡ some (record a { status = t; updated_at = now }))
update_artifact_status-eq-ok now k t db db' e = elim (Option-cases (get_artifact k db)) [
  | inl missing ↦ unfold update_artifact_status get_artifact in absurd (ground arith)
  | inr (a, found) ↦ elim (Bool-cases (elem t (allowed_transitions a.status))) [
    | inl allowed ↦
        let (db'', e', _, rows) = update_artifact_status_lem now k t db a found allowed in
        (a, found, allowed, ground (arith, rows k, eq_refl k))
    | inr refused ↦ unfold update_artifact_status set_status get_artifact in absurd (ground arith)
  ]
]

-- A sequence of status changes of one artifact that all succeed.
unfoldable pub update_all : ℕ → String → List String → Db → Result Db
update_all now k [] db = ok db
update_all now k (t ∷ ts) db = do db' ← update_artifact_status now k t db; update_all now k ts db'

update_all-Onward :
    (now : ℕ) (k : String) (ts : List String) (db db' : Db) (a : Artifact)
    → get_artifact k db ≡ some a
    → stage a.status ≤ 6
    → update_all now k ts db ≡ ok db'
    → stage a.status + length ts ≤ 6
unfolding update_all
update_all-Onward now k [] db db' a found known e = omega arith
update_all-Onward now k (t ∷ ts) db db' a found known e =
    let (db₁, first, rest) =
      >>=-eq-ok (update_artifact_status now k t db) (update_all now k ts) e in
    let (b, found_b, allowed, row) = update_artifact_status-eq-ok now k t db db₁ first in
    let (onward, known') = elem-allowed-stage b.status t allowed in
    let same : a.status ≡ b.status = cc in
    let ih =
      update_all-Onward now k ts db₁ db' (record b { status = t; updated_at = now }) row known'
        rest in
    rw same (omega arith)

-- If status changes of one artifact succeed one after the other, they are at most six.
pub update_all-le :
    (now : ℕ) (k : String) (ts : List String) (db db' : Db)
    → update_all now k ts db ≡ ok db'
    → length ts ≤ 6
unfolding update_all
update_all-le now k [] db db' e = omega arith
update_all-le now k (t ∷ ts) db db' e =
    let (db₁, first, rest) =
      >>=-eq-ok (update_artifact_status now k t db) (update_all now k ts) e in
    let (b, found_b, allowed, row) = update_artifact_status-eq-ok now k t db db₁ first in
    let (onward, known) = elem-allowed-stage b.status t allowed in
    omega (
      arith,
      update_all-Onward now k ts db₁ db' (record b { status = t; updated_at = now }) row known rest,
    )
