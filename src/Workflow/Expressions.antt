-- ===== src/Workflow/Expressions.antt =====
-- ritesmith/workflows/expressions.py: the shape of JSONLogic conditions. The location, which only
-- goes into the messages, is left out.
pub mod WellFormed
use ritesmith.Prelude.{String, Bool, true, false, List, [], ◌∷◌, ◌++◌, elem, if◌then◌else◌}
use ritesmith.Json.{
  Value, Items, Fields, null, boolean, int, decimal, text, arr, obj, nil, cons, end, field,
}
use ritesmith.Workflow.Problems.{Problem, operator_count, unsupported_operator}

abbrev pub operators : List String
operators =
    "var" ∷ "missing" ∷ "missing_some" ∷ "if" ∷ "?:" ∷ "==" ∷ "===" ∷ "!=" ∷ "!==" ∷ ">" ∷ ">="
    ∷ "<" ∷ "<=" ∷ "!" ∷ "!!" ∷ "and" ∷ "or" ∷ "in" ∷ "cat" ∷ "substr" ∷ "+" ∷ "-" ∷ "*" ∷ "/" ∷ "%"
    ∷ "min" ∷ "max" ∷ "merge" ∷ "map" ∷ "filter" ∷ "reduce" ∷ "all" ∷ "none" ∷ "some" ∷ "log" ∷ []

-- A call of an operator, with the errors of its operands.
unfoldable pub operator_errors : String → List Problem → List Problem
operator_errors operator operands =
    if elem operator operators then operands else unsupported_operator ∷ []

unfoldable mutual
  pub expression_errors : Value → List Problem
  expression_errors (arr vs) = list_errors vs
  expression_errors (obj fs) = object_errors fs
  expression_errors _ = []

  pub list_errors : Items → List Problem
  list_errors nil = []
  list_errors (cons v vs) = expression_errors v ++ list_errors vs

  pub object_errors : Fields → List Problem
  object_errors (field operator operands end) =
      operator_errors operator (expression_errors operands)
  object_errors _ = operator_count ∷ []
