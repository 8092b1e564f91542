-- ===== src/Idempotency/Tests.antt =====
-- One key, and the theorems at it.
use ritesmith.Prelude.{◌≡◌, refl, true, false, none, some, List, []}
use ritesmith.Idempotency.{
  IdempotencyKey, checked, conflict, find_key, check_or_create, mark_complete,
}
use ritesmith.Idempotency.Protocol.{check_or_create-Granted, check_or_create-other_scope}

free : find_key "key" [] ≡ none
unfolding find_key
free = refl

check_or_create-Granted_example :
    (rows' : List IdempotencyKey) × (check_or_create "key" "executions" []
      ≡ checked false none rows')
    × (check_or_create "key" "executions" rows' ≡ conflict)
    × (check_or_create "key" "executions" (mark_complete "key" "executions" "exec" rows')
        ≡ checked true (some "exec") (mark_complete "key" "executions" "exec" rows'))
check_or_create-Granted_example = check_or_create-Granted "key" "executions" "exec" [] free

check_or_create-other_scope_example :
    (rows' : List IdempotencyKey) × (check_or_create "key" "plans" [] ≡ checked false none rows')
    × (check_or_create "key" "executions" rows' ≡ checked false none rows')
    × (mark_complete "key" "executions" "exec" rows' ≡ rows')
    × (check_or_create "key" "executions" (mark_complete "key" "executions" "exec" rows')
        ≡ checked false none rows')
    × (check_or_create "key" "plans" (mark_complete "key" "executions" "exec" rows') ≡ conflict)
check_or_create-other_scope_example =
    check_or_create-other_scope "key" "plans" "executions" "exec" [] refl free
