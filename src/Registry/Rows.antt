-- ===== src/Registry/Rows.antt =====
-- Lookups after writes, in the tables of registry/models.py.
use mathlib.Core.Option
use ritesmith.Prelude.{String, ◌≡◌, some, List, [], ◌∷◌, arith, ◌==◌, eq_iff, if◌then◌else◌}
use ritesmith.Registry.{Artifact, find_artifact, write}

pub find_artifact-id :
    (k : String) (rows : List Artifact) (a : Artifact)
    → find_artifact k rows ≡ some a
    → a.artifact_id ≡ k
unfolding find_artifact
find_artifact-id k [] a h = ground arith
find_artifact-id k (b ∷ rows) a h =
    ground (arith, find_artifact-id k rows a, eq_iff b.artifact_id k)

pub find_artifact-write :
    (k j : String) (f : Artifact → Artifact)
    → ((a : Artifact) → (f a).artifact_id ≡ a.artifact_id)
    → (rows : List Artifact)
    → find_artifact j (write k f rows)
      ≡ (if k == j then Option.map f (find_artifact j rows) else find_artifact j rows)
unfolding find_artifact write
find_artifact-write k j f keeps [] = ground arith
find_artifact-write k j f keeps (a ∷ rows) = ground (
  arith,
  keeps a,
  find_artifact-write k j f keeps rows,
  eq_iff a.artifact_id k,
  eq_iff a.artifact_id j,
  eq_iff k j,
)
