-- ===== src/Idempotency/Protocol.antt =====
-- What a key goes through, from core/idempotency.py.
use ritesmith.Prelude.{
  String, ◌≡◌, refl, true, false, none, some, List, [], ◌∷◌, ◌==◌, arith, eq_refl,
}
use ritesmith.Idempotency.{
  IdempotencyKey, checked, conflict, find_key, get, pending, answer, insert_or, check_or_create,
  mark_complete,
}

-- A key that no row has is granted to its first request. The next request for the key and scope is a
-- conflict; once the first one is complete, it is a duplicate with the execution of the first one.
pub check_or_create-Granted :
    (key scope id : String) (rows : List IdempotencyKey)
    → find_key key rows ≡ none
    → (rows' : List IdempotencyKey) × (check_or_create key scope rows ≡ checked false none rows')
      × (check_or_create key scope rows' ≡ conflict)
      × (check_or_create key scope (mark_complete key scope id rows')
          ≡ checked true (some id) (mark_complete key scope id rows'))
unfolding check_or_create insert_or answer get find_key mark_complete
check_or_create-Granted key scope id rows free = (
  pending key scope ∷ rows,
  rw free refl,
  ground (arith, eq_refl key, eq_refl scope),
  ground (arith, eq_refl key, eq_refl scope),
)

get-free :
    (key scope : String) (rows : List IdempotencyKey)
    → find_key key rows ≡ none
    → get key scope rows ≡ none
unfolding get find_key
get-free key scope [] free = refl
get-free key scope (r ∷ rows) free = ground (arith, get-free key scope rows)

mark_complete-free :
    (key scope id : String) (rows : List IdempotencyKey)
    → find_key key rows ≡ none
    → mark_complete key scope id rows ≡ rows
unfolding mark_complete find_key
mark_complete-free key scope id [] free = refl
mark_complete-free key scope id (r ∷ rows) free =
    ground (arith, mark_complete-free key scope id rows)

-- Once a key that no row has is granted under a scope, it protects no other scope: a request for
-- the key under another scope is granted and leaves no row, its completion is not recorded, and the
-- request after that is granted again in place of being answered with the execution of the one
-- before. The scope that has the key sees a conflict all the same.
pub check_or_create-other_scope :
    (key scope other id : String) (rows : List IdempotencyKey)
    → (scope == other) ≡ false
    → find_key key rows ≡ none
    → (rows' : List IdempotencyKey) × (check_or_create key scope rows ≡ checked false none rows')
      × (check_or_create key other rows' ≡ checked false none rows')
      × (mark_complete key other id rows' ≡ rows')
      × (check_or_create key other (mark_complete key other id rows') ≡ checked false none rows')
      × (check_or_create key scope (mark_complete key other id rows') ≡ conflict)
unfolding check_or_create insert_or answer get find_key mark_complete
check_or_create-other_scope key scope other id rows apart free =
    let unmarked = mark_complete-free key other id rows free in
    let absent = get-free key other rows free in
    (
      pending key scope ∷ rows,
      rw free refl,
      ground (arith, eq_refl key, apart, absent),
      ground (arith, eq_refl key, apart, unmarked),
      ground (arith, eq_refl key, apart, absent, unmarked),
      ground (arith, eq_refl key, eq_refl scope, apart, unmarked),
    )
