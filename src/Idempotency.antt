-- ===== src/Idempotency.antt =====
-- ritesmith/core/idempotency.py over the table `idempotency_keys`, whose primary key is the key alone:
-- the claim of a key by a request and its completion.
pub mod Protocol
mod Tests
use ritesmith.Prelude.{
  String, Bool, true, false, ◌&&◌, Option, none, some, List, [], ◌∷◌, ◌==◌, if◌then◌else◌,
}

pub record IdempotencyKey : Type 0 where
  pub key : String
  pub scope : String
  pub status : String
  pub execution_id : Option String

-- What `check_or_create` returns, with the table it leaves, or `ConflictError`.
pub data Check : Type 0 where
  checked : Bool → Option String → List IdempotencyKey → Check
  conflict : Check

-- The row with a primary key, which an insertion would conflict with.
unfoldable pub find_key : String → List IdempotencyKey → Option IdempotencyKey
find_key key [] = none
find_key key (r ∷ rows) = if r.key == key then some r else find_key key rows

-- `IdempotencyService.get`
unfoldable pub get : String → String → List IdempotencyKey → Option IdempotencyKey
get key scope [] = none
get key scope (r ∷ rows) = if r.key == key && r.scope == scope then some r else get key scope rows

abbrev pub pending : String → String → IdempotencyKey
pending key scope = record { key = key; scope = scope; status = "pending"; execution_id = none }

-- The state of the record that won.
unfoldable pub answer : Option IdempotencyKey → List IdempotencyKey → Check
answer none rows = checked false none rows
answer (some r) rows = if r.status == "pending" then conflict else checked true r.execution_id rows

-- The insertion that does nothing where the key is taken.
unfoldable pub insert_or : String → String → List IdempotencyKey → Option IdempotencyKey → Check
unfolding answer get
insert_or key scope rows none = checked false none (pending key scope ∷ rows)
insert_or key scope rows (some _) = answer (get key scope rows) rows

unfoldable pub check_or_create : String → String → List IdempotencyKey → Check
unfolding insert_or find_key
check_or_create key scope rows = insert_or key scope rows (find_key key rows)

-- The first row of `get` becomes complete; where there is none, nothing changes.
unfoldable pub mark_complete : String → String → String → List IdempotencyKey → List IdempotencyKey
mark_complete key scope id [] = []
mark_complete key scope id (r ∷ rows) =
    let rest = mark_complete key scope id rows in
    if r.key == key && r.scope == scope
    then (record r { status = "complete"; execution_id = some id }) ∷ rows
    else r ∷ rest
