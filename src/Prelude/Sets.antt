-- ===== src/Prelude/Sets.antt =====
-- Sets of texts as lists, read through `elem`.
use mathlib.Core.Path.{◌≡◌, refl}
use mathlib.Core.Bool.{true, false, ◌||◌}
use mathlib.Core.List.{List, [], ◌∷◌, ◌++◌, reverse, reverse-append}
use Prim.Native.String.{String}
use Prim.Native.Nat.{◌+◌}
use native.Mathlib.Omega.{arith}
use text.Mathlib.Text.{◌==◌}
use text.Mathlib.TextEquality.{eq_iff}
use ritesmith.Prelude.Tests.{elem, eq_refl, length, if◌then◌else◌}

-- What is in `a` is in `b`.
abbrev pub Within : List String → List String → Type 0
Within a b = (s : String) → elem s a ≡ true → elem s b ≡ true

pub elem-here : (s : String) (l : List String) → elem s (s ∷ l) ≡ true
unfolding elem
elem-here s l = ground (arith, eq_refl s)

pub elem-there : (s t : String) (l : List String) → elem s l ≡ true → elem s (t ∷ l) ≡ true
unfolding elem
elem-there s t l h = ground arith

pub elem-tail :
    (s t : String) (l : List String) → elem s (t ∷ l) ≡ true → (s == t) ≡ false → elem s l ≡ true
unfolding elem
elem-tail s t l h e = ground arith

pub elem-nil : (s : String) → elem s [] ≡ false
unfolding elem
elem-nil s = refl

pub elem-append : (s : String) (a b : List String) → elem s (a ++ b) ≡ (elem s a || elem s b)
unfolding elem
elem-append s [] b = refl
elem-append s (t ∷ a) b = ground (arith, elem-append s a b)

-- `set.discard`
unfoldable pub discard : String → List String → List String
discard s [] = []
discard s (t ∷ ts) = let rest = discard s ts in if t == s then rest else t ∷ rest

pub elem-discard : (s t : String) (l : List String) → elem s (discard t l) ≡ true → elem s l ≡ true
unfolding elem discard
elem-discard s t [] h = h
elem-discard s t (x ∷ l) h = ground (arith, elem-discard s t l)

pub elem-discard_ne :
    (s t : String) (l : List String) → elem s (discard t l) ≡ true → (s == t) ≡ false
unfolding elem discard
elem-discard_ne s t [] h = ground arith
elem-discard_ne s t (x ∷ l) h =
    ground (arith, elem-discard_ne s t l, eq_iff s x, eq_iff s t, eq_iff x t)

pub elem-discard_of_ne :
    (s t : String) (l : List String)
    → elem s l ≡ true
    → (s == t) ≡ false
    → elem s (discard t l) ≡ true
unfolding elem discard
elem-discard_of_ne s t [] h e = h
elem-discard_of_ne s t (x ∷ l) h e =
    ground (arith, elem-discard_of_ne s t l, eq_iff s x, eq_iff s t, eq_iff x t)

pub elem-reverse : (s : String) (l : List String) → elem s (reverse l) ≡ elem s l
unfolding elem
elem-reverse s [] = refl
elem-reverse s (t ∷ l) =
    ground (arith, reverse-append (t ∷ []) l, elem-append s (reverse l) (t ∷ []), elem-reverse s l)

module _ {ℓ} {A : Type ℓ} where
  pub length-append : (xs ys : List A) → length (xs ++ ys) ≡ length xs + length ys
  length-append [] ys = omega arith
  length-append (x ∷ xs) ys = omega (arith, length-append xs ys)

  pub length-reverse : (xs : List A) → length (reverse xs) ≡ length xs
  length-reverse [] = refl
  length-reverse (x ∷ xs) =
      rw (reverse-append (x ∷ []) xs, length-append) (omega (arith, length-reverse xs))

  pub append-eq-nil : (xs ys : List A) → xs ++ ys ≡ [] → (xs ≡ []) × (ys ≡ [])
  append-eq-nil [] ys h = (refl, h)
  append-eq-nil (x ∷ xs) ys h = absurd (cc)
