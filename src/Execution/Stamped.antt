-- ===== src/Execution/Stamped.antt =====
-- The header that _bind_to_plan of ritesmith/core/execution.py puts on the calls of a workflow.
use mathlib.Core.Option.{some-injective, none-ne-some}
use ritesmith.Prelude.{
  String, ◌⊎◌, ◌≡◌, refl, sym, ap, subst, ◌∙◌, inl, inr, true, not, ◌&&◌, Option, none, some, List,
  [], ◌==◌, arith, eq_iff, All, Bool-cases, Option-cases, if◌then◌else◌, text_given, present,
}
use ritesmith.Json.{
  Value, text, arr, obj, Items, nil, cons, Fields, end, field, lookup, elements, truthy, is_truthy,
  as_text, as_list, as_object,
}
use ritesmith.Execution.{Environment, Attempt, returns, raises}
use ritesmith.Execution.Delegated.{
  set_field, with_plan_header, url_of, bind_request, bind_action, bind_node, bind_nodes, bind_all,
  with_callback, bind_to_plan,
}

pub lookup-set_field :
    (j k : String) (v : Value) (fs : Fields)
    → lookup j (set_field k v fs) ≡ (if k == j then some v else lookup j fs)
unfolding lookup set_field
lookup-set_field j k v end = ground arith
lookup-set_field j k v (field i w fs) =
    ground (arith, lookup-set_field j k v fs, eq_iff i k, eq_iff i j, eq_iff k j)

-- The object at a key of an object.
abbrev pub object_in : String → Option Fields → Option Fields
object_in k none = none
object_in k (some fs) = as_object (lookup k fs)

-- The request of a node's action.
abbrev pub request_in : Value → Option Fields
request_in node = object_in "request" (object_in "action" (as_object (some node)))

abbrev pub header_in : Option Fields → Option String
header_in none = none
header_in (some headers) = as_text (lookup "X-RS-Plan" headers)

-- The plan that a request names.
abbrev pub plan_header : Fields → Option String
plan_header request = header_in (object_in "headers" (some request))

abbrev pub nodes_in : Fields → List Value
nodes_in definition = as_list (lookup "nodes" definition)

raises-returns : {A : Type 0} (m : String) (a : A) → ¬ ◌≡◌ {A = Attempt A} (raises m) (returns a)
raises-returns m a = cc

returns-injective : {A : Type 0} (a b : A) → ◌≡◌ {A = Attempt A} (returns a) (returns b) → a ≡ b
returns-injective a b e = cc

Attempt-cases :
    {A : Type 0} (t : Attempt A) → ((m : String) × (t ≡ raises m)) ⊎ ((a : A) × (t ≡ returns a))
Attempt-cases (raises m) = inl (m, refl)
Attempt-cases (returns a) = inr (a, refl)

module _ (env : Environment) (plan_id : String) where
  -- A call of the service in a node names the plan.
  abbrev pub IsStamped : Value → Type 0
  IsStamped node =
      (r : Fields)
      → request_in node ≡ some r
      → env.mentions_execute (url_of env plan_id r) ≡ true
      → plan_header r ≡ some plan_id

  put-header :
      (headers request : Fields)
      → plan_header
          (set_field "headers" (obj (set_field "X-RS-Plan" (text plan_id) headers)) request)
        ≡ some plan_id
  put-header headers request =
      rw
        (
          lookup-set_field "headers" "headers" (obj (set_field "X-RS-Plan" (text plan_id) headers))
              request,
          lookup-set_field "X-RS-Plan" "X-RS-Plan" (text plan_id) headers,
        )
        refl

  with_headers :
      (request r : Fields) (h : Option Value)
      → lookup "headers" request ≡ h
      → with_plan_header env plan_id request ≡ returns r
      → plan_header r ≡ some plan_id
  unfolding with_plan_header set_field
  with_headers request r none e done =
      subst (λ q. plan_header q ≡ some plan_id)
        (returns-injective _ _ (rw (e, with_plan_header) at done)) (put-header end request)
  with_headers request r (some (obj headers)) e done =
      subst (λ q. plan_header q ≡ some plan_id)
        (returns-injective _ _ (rw (e, with_plan_header) at done)) (put-header headers request)
  with_headers request r (some _) e done =
      absurd (raises-returns _ _ (rw (e, with_plan_header) at done))

  -- A request that is bound, where it is an object that calls the service.
  with_mention :
      (request : Fields) (v : Value) (r : Fields)
      → bind_request env plan_id (obj request) ≡ returns v
      → as_object (some v) ≡ some r
      → env.mentions_execute (url_of env plan_id r) ≡ true
      → plan_header r ≡ some plan_id
  unfolding bind_request
  with_mention request v r done is there =
      elim (Bool-cases (env.mentions_execute (url_of env plan_id request))) [
        | inl calls ↦ elim (Attempt-cases (with_plan_header env plan_id request)) [
          | inl (m, failed) ↦ absurd (raises-returns _ _ (rw (calls, failed, bind_request) at done))
          | inr (q, stamped) ↦
              let e : obj q ≡ v =
                returns-injective _ _ (rw (calls, stamped, bind_request) at done) in
              let same : q ≡ r = some-injective _ _ (ap (λ w. as_object (some w)) e ∙ is) in
              with_headers request r (lookup "headers" request) refl
                (stamped ∙ ap (λ w. returns w) same)
        ]
        | inr other ↦
            let e : obj request ≡ v = returns-injective _ _ (rw (other, bind_request) at done) in
            let same : request ≡ r = some-injective _ _ (ap (λ w. as_object (some w)) e ∙ is) in
            absurd (
              ground
                (arith, other, ap (λ w. env.mentions_execute (url_of env plan_id w)) same, there))
      ]

  bind_request-Stamped :
      (request v : Value) (r : Fields)
      → bind_request env plan_id request ≡ returns v
      → as_object (some v) ≡ some r
      → env.mentions_execute (url_of env plan_id r) ≡ true
      → plan_header r ≡ some plan_id
  unfolding bind_request
  bind_request-Stamped (obj request) v r done is there = with_mention request v r done is there
  bind_request-Stamped w v r done is there =
      absurd (none-ne-some r (ap (λ u. as_object (some u)) (returns-injective _ _ done) ∙ is))

  -- The node with its bound request.
  request_in-put :
      (node action : Fields) (v : Value)
      → request_in (obj (set_field "action" (obj (set_field "request" v action)) node))
        ≡ as_object (some v)
  request_in-put node action v =
      rw
        (
          lookup-set_field "action" "action" (obj (set_field "request" v action)) node,
          lookup-set_field "request" "request" v action,
        )
        refl

  bind_action-IsStamped :
      (node action : Fields) (v : Value)
      → lookup "action" node ≡ some (obj action)
      → bind_action env plan_id node action ≡ returns v
      → IsStamped v
  unfolding bind_action
  bind_action-IsStamped node action v here done r is there =
      elim (Option-cases (lookup "request" action)) [
        | inl absent ↦
            let e : obj node ≡ v = returns-injective _ _ (rw (absent, bind_action) at done) in
            let gone : request_in (obj node) ≡ none = rw (here, absent) refl in
            absurd (none-ne-some r (sym gone ∙ ap request_in e ∙ is))
        | inr (request, given) ↦ elim (Attempt-cases (bind_request env plan_id request)) [
          | inl (m, failed) ↦ absurd (raises-returns _ _ (rw (given, failed, bind_action) at done))
          | inr (w, made) ↦
              let e = returns-injective _ _ (rw (given, made, bind_action) at done) in
              bind_request-Stamped request w r made
                (sym (request_in-put node action w) ∙ ap request_in e ∙ is) there
        ]
      ]

  -- A node that stays as it is, where it has no action that is an object.
  unchanged :
      (node v : Value) (r : Fields)
      → object_in "action" (as_object (some node)) ≡ none
      → node ≡ v
      → request_in v ≡ some r
      → plan_header r ≡ some plan_id
  unchanged node v r none_there e is =
      absurd (none-ne-some r (sym (rw none_there refl) ∙ ap request_in e ∙ is))

  bind_object-IsStamped :
      (node : Fields) (v : Value) (action : Option Value)
      → lookup "action" node ≡ action
      → bind_node env plan_id (obj node) ≡ returns v
      → IsStamped v
  unfolding bind_node
  bind_object-IsStamped node v none here done r is there =
      unchanged (obj node) v r (rw here refl) (returns-injective _ _ (rw (here, bind_node) at done))
        is
  bind_object-IsStamped node v (some (obj action)) here done r is there =
      bind_action-IsStamped node action v here (rw (here, bind_node) at done) r is there
  bind_object-IsStamped node v (some w) here done r is there = elim (Bool-cases (truthy w)) [
    | inl on ↦ absurd (raises-returns _ _ (rw (here, on, bind_node) at done))
    | inr off ↦
        unchanged (obj node) v r (rw here refl)
          (returns-injective _ _ (rw (here, off, bind_node) at done)) is
  ]

  bind_node-IsStamped : (node v : Value) → bind_node env plan_id node ≡ returns v → IsStamped v
  unfolding bind_node
  bind_node-IsStamped (obj node) v done =
      bind_object-IsStamped node v (lookup "action" node) refl done
  bind_node-IsStamped w v done = λ r is there. unchanged w v r refl (returns-injective _ _ done) is

  bind_nodes-IsStamped :
      (vs ws : Items) → bind_nodes env plan_id vs ≡ returns ws → All IsStamped (elements ws)
  unfolding bind_nodes elements
  bind_nodes-IsStamped nil ws done =
      subst (λ u. All IsStamped (elements u)) (returns-injective _ _ done) tt
  bind_nodes-IsStamped (cons v vs) ws done = elim (Attempt-cases (bind_node env plan_id v)) [
    | inl (m, failed) ↦ absurd (raises-returns _ _ (rw (failed, bind_nodes) at done))
    | inr (w, made) ↦ elim (Attempt-cases (bind_nodes env plan_id vs)) [
      | inl (m, failed) ↦ absurd (raises-returns _ _ (rw (made, failed, bind_nodes) at done))
      | inr (us, rest) ↦
          subst (λ u. All IsStamped (elements u))
            (returns-injective _ _ (rw (made, rest, bind_nodes) at done))
            (bind_node-IsStamped v w made, bind_nodes-IsStamped vs us rest)
    ]
  ]

  as_it_is :
      (definition b : Fields)
      → nodes_in definition ≡ []
      → definition ≡ b
      → All IsStamped (nodes_in b)
  as_it_is definition b empty e =
      subst (λ d. All IsStamped (nodes_in d)) e (subst (All IsStamped) (sym empty) tt)

  -- The definition where the nodes are no list, or are replaced by the bound ones.
  bind_all-IsStamped :
      (definition bound_one : Fields) (nodes : Option Value)
      → lookup "nodes" definition ≡ nodes
      → bind_all env plan_id definition ≡ returns bound_one
      → All IsStamped (nodes_in bound_one)
  unfolding bind_all elements
  bind_all-IsStamped definition b (some (arr vs)) here done =
      elim (Attempt-cases (bind_nodes env plan_id vs)) [
        | inl (m, failed) ↦ absurd (raises-returns _ _ (rw (here, failed, bind_all) at done))
        | inr (ws, made) ↦
            subst (λ d. All IsStamped (nodes_in d))
              (returns-injective _ _ (rw (here, made, bind_all) at done))
              (rw (lookup-set_field "nodes" "nodes" (arr ws) definition)
                (bind_nodes-IsStamped vs ws made))
      ]
  bind_all-IsStamped definition b none here done =
      as_it_is definition b (rw here refl) (returns-injective _ _ (rw (here, bind_all) at done))
  bind_all-IsStamped definition b (some (obj fs)) here done =
      as_it_is definition b (rw here refl) (returns-injective _ _ (rw (here, bind_all) at done))
  bind_all-IsStamped definition b (some (text t)) here done =
      as_it_is definition b (rw here refl) (returns-injective _ _ (rw (here, bind_all) at done))
  bind_all-IsStamped definition b (some w) here done = elim (Bool-cases (truthy w)) [
    | inl on ↦ absurd (raises-returns _ _ (rw (here, on, bind_all) at done))
    | inr off ↦
        as_it_is definition b (rw here refl)
          (returns-injective _ _ (rw (here, off, bind_all) at done))
  ]

  with_callback-nodes :
      (public_url : Option String) (definition : Fields)
      → lookup "nodes" (with_callback env plan_id public_url definition) ≡ lookup "nodes" definition
  unfolding with_callback
  with_callback-nodes public_url definition =
      elim (Bool-cases (
        text_given public_url
        && not (present (lookup "onFailureCallback" definition))
        && is_truthy (lookup "nodes" definition))) [
          | inl on ↦
              rw (on, with_callback) (lookup-set_field "nodes" "onFailureCallback" _ definition)
          | inr off ↦ rw (off, with_callback) refl
        ]

  -- Every call of the service in a definition that is bound names the plan.
  pub bind_to_plan-IsStamped :
      (public_url : Option String) (definition bound_one : Fields)
      → bind_to_plan env plan_id public_url definition ≡ returns bound_one
      → All IsStamped (nodes_in bound_one)
  unfolding bind_to_plan
  bind_to_plan-IsStamped public_url definition b done =
      elim (Attempt-cases (bind_all env plan_id definition)) [
        | inl (m, failed) ↦ absurd (raises-returns _ _ (rw (failed, bind_to_plan) at done))
        | inr (d, made) ↦
            subst (λ u. All IsStamped (nodes_in u))
              (returns-injective _ _ (rw (made, bind_to_plan) at done))
              (subst (λ (q : Option Value). All IsStamped (as_list q))
                (sym (with_callback-nodes public_url d))
                (bind_all-IsStamped definition d (lookup "nodes" definition) refl made))
      ]
