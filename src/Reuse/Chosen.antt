-- ===== src/Reuse/Chosen.antt =====
-- What check_reuse of core/reuse.py chooses.
use ritesmith.Prelude.{
  ℕ, String, ◌≡◌, refl, subst, ◌⊎◌, inl, inr, Bool, true, false, Option, none, some, List, [], ◌∷◌,
  arith, ◌==◌, elem, Bool-cases,
}
use mathlib.Core.List.{Memᴰ}
use mathlib.Core.List.Memᴰ.{not-nil, cases_cons}
use ritesmith.Json.{ℤ, pos, negsuc}
use ritesmith.Registry.{ArtifactVersion}
use ritesmith.Reuse.{
  Verdict, not_implemented, judges, of_types, scored, type_wanted, keep_if, compatible, first, at,
  at_index, on_verdict, judge, judge_compatible, check_reuse,
}
use ritesmith.Reuse.Compat.{Profiles, Wanted, SearchResult, is_compatible, types_match}
use ritesmith.Reuse.Compat.Contract.{Safe, is_compatible-Safe}

module _ {ℓ} {Score : Type ℓ} where
  of_types-Mem :
      (types : List String) (rs : List (SearchResult Score)) (r : SearchResult Score)
      → Memᴰ r (of_types types rs)
      → Memᴰ r rs × (elem r.artifact.artifact_type types ≡ true)
  unfolding of_types
  of_types-Mem types [] r m = absurd (not-nil m)
  of_types-Mem types (x ∷ rs) r m = elim (Bool-cases (elem x.artifact.artifact_type types)) [
    | inl kept ↦ elim (cases_cons (rw kept at m)) [
      | inl same ↦ (Memᴰ.head same, rw same kept)
      | inr later ↦ let (m', e) = of_types-Mem types rs r later in (Memᴰ.tail m', e)
    ]
    | inr dropped ↦ let (m', e) = of_types-Mem types rs r (rw dropped at m) in (Memᴰ.tail m', e)
  ]

  scored-Mem :
      (high : Score → Bool) (rs : List (SearchResult Score)) (r : SearchResult Score)
      → Memᴰ r (scored high rs)
      → Memᴰ r rs × (high r.score ≡ true)
  unfolding scored
  scored-Mem high [] r m = absurd (not-nil m)
  scored-Mem high (x ∷ rs) r m = elim (Bool-cases (high x.score)) [
    | inl kept ↦ elim (cases_cons (rw kept at m)) [
      | inl same ↦ (Memᴰ.head same, rw same kept)
      | inr later ↦ let (m', e) = scored-Mem high rs r later in (Memᴰ.tail m', e)
    ]
    | inr dropped ↦ let (m', e) = scored-Mem high rs r (rw dropped at m) in (Memᴰ.tail m', e)
  ]

  first-Mem :
      (rs : List (SearchResult Score)) (r : SearchResult Score) → first rs ≡ some r → Memᴰ r rs
  unfolding first
  first-Mem [] r h = absurd (cc)
  first-Mem (x ∷ rs) r h = Memᴰ.head (cc)

  at-Mem :
      (rs : List (SearchResult Score)) (n : ℕ) (r : SearchResult Score)
      → at rs n ≡ some r
      → Memᴰ r rs
  unfolding at
  at-Mem [] n r h = absurd (cc)
  at-Mem (x ∷ rs) ℕ.zero r h = Memᴰ.head (cc)
  at-Mem (x ∷ rs) (ℕ.suc n) r h = Memᴰ.tail (at-Mem rs n r h)

  at_index-Mem :
      (rs : List (SearchResult Score)) (i : Option ℤ) (r : SearchResult Score)
      → at_index rs i ≡ some r
      → Memᴰ r rs
  unfolding at_index
  at_index-Mem rs none r h = absurd (cc)
  at_index-Mem rs (some (pos n)) r h = at-Mem rs n r h
  at_index-Mem rs (some (negsuc n)) r h = absurd (cc)

  verdict-Mem :
      (v : Verdict) (rs : List (SearchResult Score)) (r : SearchResult Score)
      → on_verdict rs v ≡ some r
      → Memᴰ r rs
  unfolding on_verdict
  verdict-Mem not_implemented rs r h = first-Mem rs r h
  verdict-Mem (judges i) rs r h = at_index-Mem rs i r h

  judge-Mem :
      (on : Bool) (llm : Option (List (SearchResult Score) → Verdict))
      (rs : List (SearchResult Score)) (r : SearchResult Score)
      → judge on llm rs ≡ some r
      → Memᴰ r rs
  unfolding judge
  judge-Mem on none rs r h = first-Mem rs r h
  judge-Mem false (some llm) rs r h = first-Mem rs r h
  judge-Mem true (some llm) rs r h = verdict-Mem (llm rs) rs r h

  judge_compatible-Mem :
      (on : Bool) (llm : Option (List (SearchResult Score) → Verdict))
      (rs : Option (List (SearchResult Score))) (r : SearchResult Score)
      → judge_compatible on llm rs ≡ some (some r)
      → (passed : List (SearchResult Score)) × (rs ≡ some passed) × Memᴰ r passed
  unfolding judge_compatible
  judge_compatible-Mem on llm none r h = absurd (cc)
  judge_compatible-Mem on llm (some []) r h = absurd (cc)
  judge_compatible-Mem on llm (some (x ∷ rs)) r h = (x ∷ rs, refl, judge-Mem on llm (x ∷ rs) r (cc))

  module _ (profiles : Profiles) (wanted : Wanted) where
    keep_if-Mem :
        (b : Option Bool) (x : SearchResult Score) (rest : Option (List (SearchResult Score)))
        (passed : List (SearchResult Score)) (r : SearchResult Score)
        → keep_if profiles wanted b x rest ≡ some passed
        → Memᴰ r passed
        → (others : List (SearchResult Score)) × (rest ≡ some others)
          × (((r ≡ x) × (b ≡ some true)) ⊎ Memᴰ r others)
    unfolding keep_if
    keep_if-Mem none x rest passed r h m = absurd (cc)
    keep_if-Mem (some false) x rest passed r h m = (passed, h, inr m)
    keep_if-Mem (some true) x none passed r h m = absurd (cc)
    keep_if-Mem (some true) x (some others) passed r h m =
        let e : passed ≡ x ∷ others = cc in
        elim (cases_cons (subst (λ l. Memᴰ r l) e m)) [
          | inl same ↦ (others, refl, inl (same, refl))
          | inr later ↦ (others, refl, inr later)
        ]

    compatible-Mem :
        (types : List String) (rs passed : List (SearchResult Score)) (r : SearchResult Score)
        → compatible profiles wanted types rs ≡ some passed
        → Memᴰ r passed
        → Memᴰ r rs × (is_compatible profiles wanted (type_wanted types r) r ≡ some true)
    unfolding compatible
    compatible-Mem types [] passed r h m =
        let e : passed ≡ [] = cc in absurd (not-nil (subst (λ l. Memᴰ r l) e m))
    compatible-Mem types (x ∷ rs) passed r h m =
        let (others, rest, what) =
          keep_if-Mem (is_compatible profiles wanted (type_wanted types x) x) x
            (compatible profiles wanted types rs) passed r h m in
        elim what [
          | inl (same, fits) ↦ (Memᴰ.head same, rw same fits)
          | inr later ↦
              let (m', fits') = compatible-Mem types rs others r rest later in (Memᴰ.tail m', fits')
        ]

  -- An artifact that is chosen, whatever the judging model answers, is one of the results of the
  -- search, of one of the types that are asked for and with a score that reaches the threshold, and
  -- the policy is not "force_new"; it has a version, its type matches the wanted one, and the
  -- version is safe to run in place of the request.
  pub check_reuse-Safe :
      (profiles : Profiles) (wanted : Wanted) (high : Score → Bool) (on : Bool)
      (llm : Option (List (SearchResult Score) → Verdict)) (policy : String) (types : List String)
      (results : List (SearchResult Score)) (r : SearchResult Score)
      → check_reuse profiles wanted high on llm policy types results ≡ some (some r)
      → Memᴰ r results
        × (elem r.artifact.artifact_type types ≡ true)
        × (high r.score ≡ true)
        × ((policy == "force_new") ≡ false)
        × ((v : ArtifactVersion) × (r.version ≡ some v)
            × (types_match (type_wanted types r) r.artifact.artifact_type ≡ true)
            × Safe profiles wanted v)
  unfolding check_reuse
  check_reuse-Safe profiles wanted high on llm policy types results r h =
      elim (Bool-cases (policy == "force_new")) [
        | inl forced ↦ absurd (ground arith)
        | inr free ↦
            let (passed, e, m) =
              judge_compatible-Mem on llm
                (compatible profiles wanted types (scored high (of_types types results))) r
                (ground arith) in
            let (m', fits) =
              compatible-Mem profiles wanted types (scored high (of_types types results)) passed r e
                m in
            let (m'', high_score) = scored-Mem high (of_types types results) r m' in
            let (m3, typed) = of_types-Mem types results r m'' in
            (
              m3,
              typed,
              high_score,
              free,
              is_compatible-Safe profiles wanted (type_wanted types r) r fits,
            )
      ]
