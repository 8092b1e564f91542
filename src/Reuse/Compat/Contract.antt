-- ===== src/Reuse/Compat/Contract.antt =====
-- What the gate of core/compat.py lets through.
use ritesmith.Prelude.{
  ◌≤◌, String, ◌≡◌, refl, sym, ◌∙◌, subst, ◌⊎◌, inl, inr, Bool, true, false, ◌&&◌, Option, none,
  some, List, [], ◌∷◌, arith, ◌==◌, eq_of, elem, elem-tail, text_or, All, Within, Bool-cases,
  Option-cases,
}
use ritesmith.Json.{Value, null, boolean, int, decimal, text, arr, obj, Fields, end, field, lookup}
use ritesmith.Registry.{ArtifactVersion}
use ritesmith.Policy.{risk_order, index_of}
use ritesmith.Reuse.Compat.{
  Profiles, Wanted, SearchResult, list_names_for_profile, schema_type, type_compatible, risk_within,
  required_of, properties_of, field_met, and_then, fields_met, properties_met, required_met,
  output_satisfies, nonempty, input_satisfiable, subset, candidate_profile, profile_subset,
  types_match, profile_fits, version_fits, is_compatible,
}

-- The provider declares the field, with a type that goes with the one that is needed.
abbrev pub Provided : Profiles → Fields → Fields → Value → Type 0
Provided p needs provides f =
    (s : String) × (v : Value) × (f ≡ text s)
    × (lookup s provides ≡ some v)
    × (type_compatible p (schema_type (lookup s needs)) (schema_type (some v)) ≡ true)

-- Whoever fulfils a schema requires nothing, or is a schema that provides every required field.
abbrev pub Meets : Profiles → Fields → Option Fields → Type 0
Meets p needs provided =
    (required_of needs ≡ some [])
    ⊎ ((required : List Value) × (provides : Fields) × (ns : Fields) × (ps : Fields) × (required_of
            needs
          ≡ some required)
        × (provided ≡ some provides)
        × (properties_of needs ≡ some ns)
        × (properties_of provides ≡ some ps)
        × All (Provided p ns ps) required)

and_then-eq-true :
    (a b : Option Bool) → and_then a b ≡ some true → (a ≡ some true) × (b ≡ some true)
unfolding and_then
and_then-eq-true none b h = absurd (ground arith)
and_then-eq-true (some false) b h = absurd (ground arith)
and_then-eq-true (some true) b h = (refl, h)

field_met-Provided :
    (p : Profiles) (needs provides : Fields) (f : Value)
    → field_met p needs provides f ≡ some true
    → Provided p needs provides f
unfolding field_met
field_met-Provided p needs provides (text s) h = elim (Option-cases (lookup s provides)) [
  | inl missing ↦ absurd (ground arith)
  | inr (v, found) ↦ (s, v, refl, found, ground arith)
]
field_met-Provided p needs provides null h = absurd (ground arith)
field_met-Provided p needs provides (boolean b) h = absurd (ground arith)
field_met-Provided p needs provides (int n) h = absurd (ground arith)
field_met-Provided p needs provides (decimal m e) h = absurd (ground arith)
field_met-Provided p needs provides (arr vs) h = absurd (ground arith)
field_met-Provided p needs provides (obj fs) h = absurd (ground arith)

fields_met-Provided :
    (p : Profiles) (needs provides : Fields) (fs : List Value)
    → fields_met p needs provides fs ≡ some true
    → All (Provided p needs provides) fs
unfolding fields_met
fields_met-Provided p needs provides [] h = tt
fields_met-Provided p needs provides (f ∷ fs) h =
    let both = and_then-eq-true (field_met p needs provides f) (fields_met p needs provides fs) h in
    (
      field_met-Provided p needs provides f (both.0),
      fields_met-Provided p needs provides fs (both.1),
    )

properties_met-Provided :
    (p : Profiles) (needs provides : Option Fields) (fs : List Value)
    → properties_met p needs provides fs ≡ some true
    → (ns : Fields) × (ps : Fields) × (needs ≡ some ns)
      × (provides ≡ some ps)
      × All (Provided p ns ps) fs
unfolding properties_met
properties_met-Provided p (some ns) (some ps) fs h =
    (ns, ps, refl, refl, fields_met-Provided p ns ps fs h)
properties_met-Provided p (some ns) none fs h = absurd (ground arith)
properties_met-Provided p none ps fs h = absurd (ground arith)

required_met-Meets :
    (p : Profiles) (needs : Fields) (provided : Option Fields) (required : Option (List Value))
    → required_of needs ≡ required
    → required_met p needs provided required ≡ some true
    → Meets p needs provided
unfolding required_met
required_met-Meets p needs provided none e h = absurd (ground arith)
required_met-Meets p needs provided (some []) e h = inl e
required_met-Meets p needs none (some (f ∷ fs)) e h = absurd (ground arith)
required_met-Meets p needs (some provides) (some (f ∷ fs)) e h =
    let (ns, ps, en, ep, all) =
      properties_met-Provided p (properties_of needs) (properties_of provides) (f ∷ fs) h in
    inr (f ∷ fs, provides, ns, ps, e, refl, en, ep, all)

some-inj {ℓ} : {A : Type ℓ} {x y : A} → some x ≡ some y → x ≡ y
some-inj e = cc

pub output_satisfies-Meets :
    (p : Profiles) (request : Option Fields) (candidate : Option Fields)
    → output_satisfies p request candidate ≡ some true
    → (fs : Fields) → nonempty request ≡ some fs
    → Meets p fs candidate
unfolding output_satisfies nonempty
output_satisfies-Meets p none candidate h fs e = absurd (ground arith)
output_satisfies-Meets p (some end) candidate h fs e = absurd (ground arith)
output_satisfies-Meets p (some (field k v rest)) candidate h fs e =
    subst (λ g. Meets p g candidate) (some-inj e)
      (required_met-Meets p (field k v rest) candidate (required_of (field k v rest)) refl h)

pub input_satisfiable-Meets :
    (p : Profiles) (request candidate : Option Fields)
    → input_satisfiable p request candidate ≡ some true
    → (fs : Fields) → candidate ≡ some fs
    → Meets p fs (nonempty request)
unfolding input_satisfiable
input_satisfiable-Meets p request none h fs e = absurd (ground arith)
input_satisfiable-Meets p request (some c) h fs e =
    subst (λ g. Meets p g (nonempty request)) (some-inj e)
      (required_met-Meets p c (nonempty request) (required_of c) refl h)

and-eq-true : (a b : Bool) → (a && b) ≡ true → (a ≡ true) × (b ≡ true)
and-eq-true a b h = ground arith

subset-Within : (a b : List String) → subset a b ≡ true → Within a b
unfolding subset
subset-Within [] b h s e = absurd (unfold elem in ground arith)
subset-Within (t ∷ a) b h s e =
    let both = and-eq-true (elem t b) (subset a b) h in
    elim (Bool-cases (s == t)) [
      | inl same ↦ rw (eq_of s t same) (both.0)
      | inr other ↦ subset-Within a b (both.1) s (elem-tail s t a e other)
    ]

profile_subset-Within :
    (p : Profiles) (candidate requested : Option String)
    → profile_subset p candidate requested ≡ true
    → (c q : String) → candidate ≡ some c
    → requested ≡ some q
    → Within (list_names_for_profile p c) (list_names_for_profile p q)
unfolding profile_subset
profile_subset-Within p none requested h c q ec eq = absurd (ground arith)
profile_subset-Within p (some k) none h c q ec eq = absurd (ground arith)
profile_subset-Within p (some k) (some r) h c q ec eq =
    rw⁻¹ (some-inj ec, some-inj eq)
      (subset-Within (list_names_for_profile p k) (list_names_for_profile p r) h)

profile_fits-eq-true :
    (p : Profiles) (candidate : Option (Option String)) (requested : Option String)
    → profile_fits p candidate requested ≡ some true
    → (k : Option String) × (candidate ≡ some k) × (profile_subset p k requested ≡ true)
unfolding profile_fits
profile_fits-eq-true p none requested h = absurd (ground arith)
profile_fits-eq-true p (some k) requested h = (k, refl, some-inj h)

risk_within-le :
    (candidate : Option String) (allowed : String)
    → risk_within candidate (some allowed) ≡ true
    → index_of (text_or candidate "low") risk_order ≤ index_of allowed risk_order
unfolding risk_within
risk_within-le candidate allowed h = ground arith

-- What a version that can run in place of a request keeps to.
abbrev pub Safe : Profiles → Wanted → ArtifactVersion → Type 0
Safe p w v =
    ((c q : String)
      → candidate_profile v ≡ some (some c)
      → w.runtime_profile ≡ some q
      → Within (list_names_for_profile p c) (list_names_for_profile p q))
    × ((allowed : String)
        → w.allowed_risk ≡ some allowed
        → index_of (text_or v.risk_level "low") risk_order ≤ index_of allowed risk_order)
    × ((fs : Fields) → nonempty w.output_schema ≡ some fs → Meets p fs v.output_schema)
    × ((fs : Fields) → v.input_schema ≡ some fs → Meets p fs (nonempty w.input_schema))

version_fits-Safe :
    (p : Profiles) (w : Wanted) (v : ArtifactVersion) → version_fits p w v ≡ some true → Safe p w v
unfolding version_fits
version_fits-Safe p w v h =
    let risk = some (risk_within v.risk_level w.allowed_risk) in
    let output = output_satisfies p w.output_schema v.output_schema in
    let input = input_satisfiable p w.input_schema v.input_schema in
    let (profile, later) =
      and_then-eq-true (profile_fits p (candidate_profile v) w.runtime_profile)
        (and_then risk (and_then output input)) h in
    let (risky, schemas) = and_then-eq-true risk (and_then output input) later in
    let (outputs, inputs) = and_then-eq-true output input schemas in
    let (k, known, within) =
      profile_fits-eq-true p (candidate_profile v) w.runtime_profile profile in
    (
      λ c q ec eq.
          profile_subset-Within p k w.runtime_profile within c q (some-inj (sym known ∙ ec)) eq,
      λ allowed e. risk_within-le v.risk_level allowed (rw⁻¹ e (some-inj risky)),
      output_satisfies-Meets p w.output_schema v.output_schema outputs,
      input_satisfiable-Meets p w.input_schema v.input_schema inputs,
    )

-- A candidate that passes the gate has a version, and its type is the wanted one or both are types of
-- scripts. The host functions of the version's profile are among those of the wanted profile; its risk is at most
-- the allowed one; it declares every output that the request requires, with a compatible type; and the request declares
-- every input that the version requires, with a compatible type. Where the request or the version names no
-- such bound, there is none.
pub is_compatible-Safe {ℓ} :
    {Score : Type ℓ} (p : Profiles) (w : Wanted) (t : String) (r : SearchResult Score)
    → is_compatible p w t r ≡ some true
    → (v : ArtifactVersion) × (r.version ≡ some v)
      × (types_match t r.artifact.artifact_type ≡ true)
      × Safe p w v
unfolding is_compatible
is_compatible-Safe p w t r h = elim (Option-cases r.version) [
  | inl missing ↦ absurd (ground arith)
  | inr (v, found) ↦ elim (Bool-cases (types_match t r.artifact.artifact_type)) [
    | inl same ↦ (v, found, same, version_fits-Safe p w v (ground arith))
    | inr other ↦ absurd (ground arith)
  ]
]
