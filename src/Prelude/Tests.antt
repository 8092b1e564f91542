-- ===== src/Prelude/Tests.antt =====
-- Boolean tests on numbers and texts, with the lemmas through which the tactics read them.
use Prim.Native.Nat.{ℕ, compare, Ordering}
use Prim.Native.String.{String}
use mathlib.Core.Path.{◌≡◌, refl}
use mathlib.Core.Logic.{◌⊎◌, inl, inr, ◌≢◌}
use mathlib.Core.Bool.{Bool, true, false, not, ◌||◌, false≢true}
use mathlib.Core.Option.{Option, none, some}
use mathlib.Core.List.{List, [], ◌∷◌}
use native.Mathlib.Omega.{arith}
use text.Mathlib.Text.{◌==◌}
use text.Mathlib.TextEquality.{eq_iff}

abbrev pub ltb : ℕ → ℕ → Bool
ltb a b = elim (compare a b) [ Ordering.lt ↦ true | _ ↦ false ]

abbrev pub leb : ℕ → ℕ → Bool
leb a b = elim (compare a b) [ Ordering.gt ↦ false | _ ↦ true ]

abbrev pub nat_eq : ℕ → ℕ → Bool
nat_eq a b = elim (compare a b) [ Ordering.eq ↦ true | _ ↦ false ]

infix 1 if◌then◌else◌
abbrev pub if◌then◌else◌ {ℓ} : {A : Type ℓ} → Bool → A → A → A
if true then x else y = x
if false then x else y = y

pub Bool-cases : (b : Bool) → (b ≡ true) ⊎ (b ≡ false)
Bool-cases true = inl refl
Bool-cases false = inr refl

pub Option-cases {ℓ} : {A : Type ℓ} (o : Option A) → (o ≡ none) ⊎ ((a : A) × (o ≡ some a))
Option-cases none = inl refl
Option-cases (some a) = inr (a, refl)

pub eq_refl : (s : String) → (s == s) ≡ true
eq_refl s = (eq_iff s s).1 refl

pub eq_of : (s t : String) → (s == t) ≡ true → s ≡ t
eq_of s t = (eq_iff s t).0

pub ne_of : (s t : String) → (s == t) ≡ false → s ≢ t
ne_of s t h e = ground (arith, eq_iff s t)

-- Python's `x or d` at an optional text: `None` and the empty text give `d`.
abbrev pub text_or : Option String → String → String
text_or none d = d
text_or (some s) d = if s == "" then d else s

-- Python's truth value of an optional text.
abbrev pub text_given : Option String → Bool
text_given none = false
text_given (some s) = not (s == "")

-- Equality of an optional text with a text.
abbrev pub is_text : Option String → String → Bool
is_text none t = false
is_text (some s) t = s == t

-- `s in l` at a list or set of texts.
unfoldable pub elem : String → List String → Bool
elem s [] = false
elem s (t ∷ ts) = s == t || elem s ts

-- Whether an optional value is there, as in `key in d` or `x is not None`.
abbrev pub present {ℓ} : {A : Type ℓ} → Option A → Bool
present none = false
present (some a) = true

-- A predicate on every element, by recursion: it computes to a tuple.
abbrev pub All {ℓ κ} : {A : Type ℓ} → (A → Type κ) → List A → Type κ
All P [] = Unit
All P (x ∷ xs) = P x × All P xs

pub elem-All {ℓ} :
    (P : String → Type ℓ) (s : String) (l : List String) → All P l → elem s l ≡ true → P s
unfolding elem
elem-All P s [] h e = absurd (false≢true e)
elem-All P s (t ∷ l) h e = elim (Bool-cases (s == t)) [
  | inl same ↦ rw (eq_of s t same) h.0
  | inr other ↦ elem-All P s l h.1 (rw other at e)
]

abbrev pub length {ℓ} : {A : Type ℓ} → List A → ℕ
length [] = 0
length (x ∷ xs) = ℕ.suc (length xs)
