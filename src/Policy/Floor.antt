-- ===== src/Policy/Floor.antt =====
-- The risk floor of hand-made artifacts (`effective_risk` of core/policy.py).
use ritesmith.Prelude.{
  ℕ, ◌≤◌, String, ◌≡◌, ◌≢◌, ◌⊎◌, subst, true, false, some, arith, elem, eq_of, ◌==◌, inl, inr,
  Bool-cases, leb, refl, if◌then◌else◌,
}
use ritesmith.Policy.{risk_order, index_of, profile_risk_floor, max_risk, raise_to, effective_risk}

-- The position in the order of risks; 4 is no risk level.
unfoldable pub rank : String → ℕ
rank s = index_of s risk_order

-- Every floor is medium or high.
pub floor_values : (p f : String) → profile_risk_floor p ≡ some f → (f ≡ "medium") ⊎ (f ≡ "high")
unfolding profile_risk_floor
floor_values p f h = ground arith

-- The empty profile has no floor.
floored-ne-empty : (p f : String) → profile_risk_floor p ≡ some f → (p == "") ≡ false
floored-ne-empty p f h = elim (Bool-cases (p == "")) [
  | inl e ↦ absurd (no_floor (subst (λ q. profile_risk_floor q ≡ some f) (eq_of p "" e) h))
  | inr e ↦ e
]
  where
    no_floor : profile_risk_floor "" ≢ some f
    no_floor h' = unfold profile_risk_floor in cc h'

pub effective_risk-floored :
    (r p f : String)
    → profile_risk_floor p ≡ some f
    → effective_risk r (some p) true ≡ (if elem r risk_order then max_risk r f else f)
unfolding effective_risk
effective_risk-floored r p f h = rw (floored-ne-empty p f h, h, raise_to) (ground arith)

rank-max_risk : (a b : String) → (rank a ≤ rank (max_risk a b)) × (rank b ≤ rank (max_risk a b))
unfolding rank max_risk
rank-max_risk a b = ground arith

-- With a floor, the risk that counts is a risk level.
pub effective_risk-listed :
    (r p f : String)
    → profile_risk_floor p ≡ some f
    → elem (effective_risk r (some p) true) risk_order ≡ true
unfolding max_risk
effective_risk-listed r p f h = rw (effective_risk-floored r p f h) (ground (arith, listed))
  where
    listed : elem f risk_order ≡ true
    listed = unfold elem in elim (floor_values p f h) [ inl e ↦ rw e | inr e ↦ rw e ]

max_risk-either : (a b : String) → (max_risk a b ≡ a) ⊎ (max_risk a b ≡ b)
unfolding max_risk
max_risk-either a b = elim (Bool-cases (leb (index_of b risk_order) (index_of a risk_order))) [
  | inl above ↦ inl (rw above refl)
  | inr below ↦ inr (rw below refl)
]

effective_risk-either :
    (r p f : String)
    → profile_risk_floor p ≡ some f
    → (effective_risk r (some p) true ≡ r) ⊎ (effective_risk r (some p) true ≡ f)
effective_risk-either r p f h =
    rw (effective_risk-floored r p f h) (elim (Bool-cases (elem r risk_order)) [
      | inl listed ↦ rw listed (max_risk-either r f)
      | inr unlisted ↦ inr (rw unlisted refl)
    ])

-- For a hand-made artifact whose profile has a floor, whatever text was declared, the risk that
-- counts is one of the four risk levels. It is the declared text or the floor, it is at least the
-- floor, and it is at least the declared risk where that is a risk level.
pub rank-effective_risk :
    (r p f : String)
    → profile_risk_floor p ≡ some f
    → (elem (effective_risk r (some p) true) risk_order ≡ true)
      × ((effective_risk r (some p) true ≡ r) ⊎ (effective_risk r (some p) true ≡ f))
      × (rank f ≤ rank (effective_risk r (some p) true))
      × (elem r risk_order ≡ true → rank r ≤ rank (effective_risk r (some p) true))
rank-effective_risk r p f h =
    let (above_floor, above_declared) = ranked in
    (effective_risk-listed r p f h, effective_risk-either r p f h, above_floor, above_declared)
  where
    ranked :
        (rank f ≤ rank (effective_risk r (some p) true))
        × (elem r risk_order ≡ true → rank r ≤ rank (effective_risk r (some p) true))
    ranked = rw (effective_risk-floored r p f h) (ground (arith, rank-max_risk r f))
