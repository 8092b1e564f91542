-- ===== src/Json.antt =====
-- JSON values as Python reads them (`json.loads`): what the workflow definitions, the JSON schemas
-- and the stored `dict` columns are. A float is a decimal literal m / 10 ^ e. The names of an
-- object are taken to be distinct, as those of a `dict` are.
use ritesmith.Prelude.{
  ℕ, String, Bool, true, false, not, Option, none, some, List, [], ◌∷◌, ◌==◌, if◌then◌else◌,
}

-- `negsuc n` is -(n + 1).
pub data ℤ : Type 0 where
  pos : ℕ → ℤ
  negsuc : ℕ → ℤ

mutual
  pub data Fields : Type 0 where
    end : Fields
    field : String → Value → Fields → Fields

  pub data Value : Type 0 where
    null : Value
    boolean : Bool → Value
    int : ℤ → Value
    decimal : ℤ → ℕ → Value
    text : String → Value
    arr : Items → Value
    obj : Fields → Value

  pub data Items : Type 0 where
    nil : Items
    cons : Value → Items → Items

unfoldable pub elements : Items → List Value
elements nil = []
elements (cons v vs) = v ∷ elements vs

unfoldable pub entries : Fields → List (String × Value)
entries end = []
entries (field k v fs) = (k, v) ∷ entries fs

-- `d.get(key)` of a `dict`
unfoldable pub lookup : String → Fields → Option Value
lookup k end = none
lookup k (field j v fs) = if j == k then some v else lookup k fs

-- `v.get(key)` where `v` is a `dict`; a value of another kind has no fields.
unfoldable pub get : String → Value → Option Value
unfolding lookup
get k (obj fs) = lookup k fs
get k _ = none

unfoldable pub integer_truthy : ℤ → Bool
integer_truthy (pos ℕ.zero) = false
integer_truthy _ = true

-- `bool(v)`
unfoldable pub truthy : Value → Bool
unfolding integer_truthy
truthy null = false
truthy (boolean b) = b
truthy (int n) = integer_truthy n
truthy (decimal m e) = integer_truthy m
truthy (text s) = not (s == "")
truthy (arr nil) = false
truthy (arr (cons _ _)) = true
truthy (obj end) = false
truthy (obj (field _ _ _)) = true

abbrev pub is_truthy : Option Value → Bool
unfolding truthy
is_truthy none = false
is_truthy (some v) = truthy v

-- The text of a value, if it is a text.
abbrev pub as_text : Option Value → Option String
as_text (some (text s)) = some s
as_text _ = none

-- The elements of a value, if it is a list, and none otherwise.
abbrev pub as_list : Option Value → List Value
unfolding elements
as_list (some (arr vs)) = elements vs
as_list _ = []

abbrev pub as_object : Option Value → Option Fields
as_object (some (obj fs)) = some fs
as_object _ = none

-- The texts among the values of a list.
unfoldable pub texts : List Value → List String
texts [] = []
texts (text s ∷ vs) = s ∷ texts vs
texts (_ ∷ vs) = texts vs
