-- ===== src/Workflow/Validator/Targets.antt =====
-- The edges of a node that passed its checks lead to nodes.
use ritesmith.Prelude.{
  String, ◌≡◌, ◌⊎◌, refl, true, Option, none, some, List, [], ◌∷◌, ◌++◌, map, ◌==◌, arith, elem,
  Bool-cases, Option-cases, inl, inr, append-eq-nil, eq_of, eq_iff, text_or, Within,
}
use ritesmith.Json.{Value, texts}
use ritesmith.Workflow.Problems.{Problem}
use ritesmith.Workflow.Graph.{
  text_field, list_field, has_kind, inner, targets, or_end, v2_successors,
}
use ritesmith.Workflow.Validator.Node.{
  check_target, task_errors, case_errors, cases_errors, switch_errors, branch_errors, join_errors,
  split_errors, optional_target, join_node_errors, sleep_errors, validate_v2_node,
}

-- Each target that is not dropped is a node.
abbrev Lead : List String → List String → Type 0
Lead ts ids = Within (inner ts) ids

Lead-cons :
    (t : String) (ts ids : List String)
    → ((t == "") ≡ true) ⊎ ((t == "end") ≡ true) ⊎ (elem t ids ≡ true)
    → Lead ts ids
    → Lead (t ∷ ts) ids
unfolding inner elem
Lead-cons t ts ids h rest s m = ground (arith, rest s, eq_iff s t)

Lead-nil : (ids : List String) → Lead [] ids
unfolding inner elem
Lead-nil ids s m = absurd (ground arith)

Lead-one :
    (t : String) (ids : List String)
    → ((t == "") ≡ true) ⊎ ((t == "end") ≡ true) ⊎ (elem t ids ≡ true)
    → Lead (t ∷ []) ids
Lead-one t ids h = Lead-cons t [] ids h (Lead-nil ids)

Lead-append : (ts us ids : List String) → Lead ts ids → Lead us ids → Lead (ts ++ us) ids
unfolding inner elem
Lead-append [] us ids h k = k
Lead-append (t ∷ ts) us ids h k =
    Lead-cons t (ts ++ us) ids (first t ts h) (Lead-append ts us ids (rest t ts h) k)
  where
    first :
        (t : String) (ts : List String)
        → Lead (t ∷ ts) ids
        → ((t == "") ≡ true) ⊎ ((t == "end") ≡ true) ⊎ (elem t ids ≡ true)
    first t ts h = ground (arith, h t, eq_iff t t)

    rest : (t : String) (ts : List String) → Lead (t ∷ ts) ids → Lead ts ids
    rest t ts h s m = ground (arith, h s)

check_target-text_or :
    (o : Option String) (ids : List String) (missing : Problem) (unknown : String → Problem)
    → check_target o ids missing unknown ≡ []
    → Lead (text_or o "end" ∷ []) ids
unfolding check_target
check_target-text_or none ids missing unknown h = absurd (ground arith)
check_target-text_or (some t) ids missing unknown h = Lead-one _ ids (ground arith)

check_target-or_end :
    (o : Option String) (ids : List String) (missing : Problem) (unknown : String → Problem)
    → check_target o ids missing unknown ≡ []
    → Lead (or_end o ∷ []) ids
unfolding check_target or_end
check_target-or_end none ids missing unknown h = absurd (ground arith)
check_target-or_end (some t) ids missing unknown h = Lead-one _ ids (ground arith)

optional_target-text_or :
    (o : Option String) (ids : List String) (unknown : String → Problem)
    → optional_target o ids unknown ≡ []
    → Lead (text_or o "end" ∷ []) ids
unfolding optional_target
optional_target-text_or none ids unknown h = Lead-one "end" ids (inr (inl refl))
optional_target-text_or (some t) ids unknown h = elim (Bool-cases (t == "")) [
  | inl empty ↦ rw empty (Lead-one "end" ids (inr (inl refl)))
  | inr given ↦ rw given (Lead-one t ids (ground arith))
]

join_errors-text_or :
    (nid : String) (o : Option String) (ids : List String)
    → join_errors nid ids o ≡ []
    → Lead (text_or o "end" ∷ []) ids
unfolding join_errors
join_errors-text_or nid none ids h = absurd (ground arith)
join_errors-text_or nid (some t) ids h = Lead-one _ ids (ground arith)

branch_errors-Lead :
    (nid : String) (ids bs : List String) → branch_errors nid ids bs ≡ [] → Lead bs ids
unfolding branch_errors
branch_errors-Lead nid ids [] h = Lead-nil ids
branch_errors-Lead nid ids (b ∷ bs) h =
    Lead-cons b bs ids (ground arith) (branch_errors-Lead nid ids bs (ground arith))

case_errors-Lead :
    (nid : String) (ids : List String) (cs : List Value)
    → case_errors nid ids cs ≡ []
    → Lead (map (λ c. or_end (text_field "target" c)) cs) ids
unfolding case_errors
case_errors-Lead nid ids [] h = Lead-nil ids
case_errors-Lead nid ids (c ∷ cs) h =
    let (first, rest) = append-eq-nil _ _ h in
    let (target, _) = append-eq-nil _ _ first in
    Lead-append _ _ ids (check_target-or_end (text_field "target" c) ids _ _ target)
      (case_errors-Lead nid ids cs rest)

module _ (nid : String) (node : Value) (ids : List String) where
  abbrev next_target : List String
  next_target = text_or (text_field "next" node) "end" ∷ []

  task_errors-Lead : task_errors nid node ids ≡ [] → Lead next_target ids
  unfolding task_errors
  task_errors-Lead h =
      let (first, _) = append-eq-nil _ _ h in
      let (_, next) = append-eq-nil _ _ first in
      check_target-text_or (text_field "next" node) ids _ _ next

  sleep_errors-Lead : sleep_errors nid node ids ≡ [] → Lead next_target ids
  unfolding sleep_errors
  sleep_errors-Lead h =
      let (_, next) = append-eq-nil _ _ h in
      check_target-text_or (text_field "next" node) ids _ _ next

  join_node_errors-Lead : join_node_errors nid node ids ≡ [] → Lead next_target ids
  unfolding join_node_errors
  join_node_errors-Lead h = optional_target-text_or (text_field "next" node) ids _ h

  switch_errors-Lead :
      switch_errors nid node ids ≡ []
      → Lead
          (map (λ c. or_end (text_field "target" c)) (list_field "cases" node)
            ++ or_end (text_field "default" node) ∷ [])
          ids
  unfolding switch_errors
  switch_errors-Lead h =
      let (cases, default) = append-eq-nil _ _ h in
      Lead-append _ _ ids (of_cases (list_field "cases" node) cases)
        (check_target-or_end (text_field "default" node) ids _ _ default)
    where
      of_cases :
          (cs : List Value)
          → cases_errors nid ids cs ≡ []
          → Lead (map (λ c. or_end (text_field "target" c)) cs) ids
      of_cases [] e = absurd (unfold cases_errors in ground arith)
      of_cases (c ∷ cs) e = case_errors-Lead nid ids (c ∷ cs) (unfold cases_errors in e)

  split_errors-Lead :
      split_errors nid node ids ≡ []
      → Lead (texts (list_field "branches" node) ++ text_or (text_field "join" node) "end" ∷ []) ids
  unfolding split_errors
  split_errors-Lead h =
      let (branches, join) = append-eq-nil _ _ h in
      Lead-append _ _ ids
        (branch_errors-Lead nid ids (texts (list_field "branches" node)) (ground arith))
        (join_errors-text_or nid (text_field "join" node) ids join)

-- A node has one kind.
has_kind-of : (k j : String) (node : Value) → has_kind k node ≡ true → has_kind j node ≡ (k == j)
unfolding has_kind
has_kind-of k j node h = elim (Option-cases (text_field "kind" node)) [
  | inl missing ↦ absurd (ground arith)
  | inr (i, e) ↦ ground (arith, eq_of i k)
]

abbrev IsFine : Value → List String → Type 0
IsFine node ids = validate_v2_node node ids ≡ [] → Lead (targets node) ids

module _ (node : Value) (ids : List String) where
  task-IsFine : has_kind "task" node ≡ true → IsFine node ids
  unfolding validate_v2_node targets
  task-IsFine k h = rw k (task_errors-Lead _ node ids (rw k at h))

  switch-IsFine : has_kind "switch" node ≡ true → IsFine node ids
  unfolding validate_v2_node targets
  switch-IsFine k h =
      let kind = λ (j : String). has_kind-of "switch" j node k in
      rw (kind "task", kind "sleep", kind "join", k)
        (switch_errors-Lead _ node ids (rw (kind "task", k) at h))

  split-IsFine : has_kind "split" node ≡ true → IsFine node ids
  unfolding validate_v2_node targets
  split-IsFine k h =
      let kind = λ (j : String). has_kind-of "split" j node k in
      rw (kind "task", kind "sleep", kind "join", kind "switch", k)
        (split_errors-Lead _ node ids (rw (kind "task", kind "switch", k) at h))

  join-IsFine : has_kind "join" node ≡ true → IsFine node ids
  unfolding validate_v2_node targets
  join-IsFine k h =
      let kind = λ (j : String). has_kind-of "join" j node k in
      rw (kind "task", kind "sleep", k)
        (join_node_errors-Lead _ node ids (rw (kind "task", kind "switch", kind "split", k) at h))

  sleep-IsFine : has_kind "sleep" node ≡ true → IsFine node ids
  unfolding validate_v2_node targets
  sleep-IsFine k h =
      let kind = λ (j : String). has_kind-of "sleep" j node k in
      rw (kind "task", k)
        (sleep_errors-Lead _ node ids
          (rw (kind "task", kind "switch", kind "split", kind "join", k) at h))

  -- A node of another kind has errors.
  node-IsFine : IsFine node ids
  node-IsFine h = elim (Bool-cases (has_kind "task" node)) [
    | inl k ↦ task-IsFine k h
    | inr t ↦ elim (Bool-cases (has_kind "switch" node)) [
      | inl k ↦ switch-IsFine k h
      | inr w ↦ elim (Bool-cases (has_kind "split" node)) [
        | inl k ↦ split-IsFine k h
        | inr p ↦ elim (Bool-cases (has_kind "join" node)) [
          | inl k ↦ join-IsFine k h
          | inr j ↦ elim (Bool-cases (has_kind "sleep" node)) [
            | inl k ↦ sleep-IsFine k h
            | inr s ↦ absurd (unfold validate_v2_node in ground arith)
          ]
        ]
      ]
    ]
  ]

  -- The edges of a node that passed its checks lead to nodes.
  pub v2_successors-Within : validate_v2_node node ids ≡ [] → Within (v2_successors node) ids
  unfolding v2_successors
  v2_successors-Within h = node-IsFine h
