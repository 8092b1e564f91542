-- ===== src/Workflow/Expressions/WellFormed.antt =====
-- The conditions that `expression_errors` accepts are the well-formed ones.
use ritesmith.Prelude.{
  ℕ, String, ◌≡◌, ◌↔◌, refl, Bool, true, [], elem, arith, Bool-cases, inl, inr, append-eq-nil,
}
use ritesmith.Json.{
  ℤ, Value, Items, null, boolean, int, decimal, text, arr, obj, nil, cons, end, field,
}
use ritesmith.Workflow.Expressions.{operators, operator_errors, expression_errors, list_errors}

-- A JSONLogic expression: a literal, a list of expressions, or one operator and its operands.
mutual
  pub data WellFormed : Value → Type 0 where
    literal_null : WellFormed null
    literal_boolean : (b : Bool) → WellFormed (boolean b)
    literal_int : (n : ℤ) → WellFormed (int n)
    literal_decimal : (m : ℤ) (e : ℕ) → WellFormed (decimal m e)
    literal_text : (s : String) → WellFormed (text s)
    list : {vs : Items} → WellFormedItems vs → WellFormed (arr vs)
    call :
        {operator : String} {operands : Value}
        → elem operator operators ≡ true
        → WellFormed operands
        → WellFormed (obj (field operator operands end))

  pub data WellFormedItems : Items → Type 0 where
    none : WellFormedItems nil
    more :
        {v : Value} {vs : Items} → WellFormed v → WellFormedItems vs → WellFormedItems (cons v vs)

mutual
  unfolding expression_errors operator_errors

  sound : (v : Value) → expression_errors v ≡ [] → WellFormed v
  sound null h = literal_null
  sound (boolean b) h = literal_boolean b
  sound (int n) h = literal_int n
  sound (decimal m e) h = literal_decimal m e
  sound (text s) h = literal_text s
  sound (arr vs) h = list (sound_items vs h)
  sound (obj (field operator operands end)) h = elim (Bool-cases (elem operator operators)) [
    | inl known ↦ call known (sound operands (rw known at h))
    | inr unknown ↦ absurd (ground arith)
  ]
  sound (obj (field operator operands (field _ _ _))) h = absurd (ground arith)
  sound (obj end) h = absurd (ground arith)

  sound_items : (vs : Items) → list_errors vs ≡ [] → WellFormedItems vs
  sound_items nil h = none
  sound_items (cons v vs) h =
      let (first, rest) = append-eq-nil (expression_errors v) (list_errors vs) h in
      more (sound v first) (sound_items vs rest)

mutual
  unfolding expression_errors operator_errors

  complete : {v : Value} → WellFormed v → expression_errors v ≡ []
  complete literal_null = refl
  complete (literal_boolean b) = refl
  complete (literal_int n) = refl
  complete (literal_decimal m e) = refl
  complete (literal_text s) = refl
  complete (list w) = complete_items w
  complete (call known w) = rw known (complete w)

  complete_items : {vs : Items} → WellFormedItems vs → list_errors vs ≡ []
  complete_items none = refl
  complete_items (more w ws) = rw (complete w) (complete_items ws)

-- A condition has no errors exactly if it is a JSONLogic expression over Trama's operators.
pub expression_errors_iff : (v : Value) → (expression_errors v ≡ []) ↔ WellFormed v
expression_errors_iff v = (sound v, λ w. complete w)
