-- ===== src/Reuse.antt =====
-- ritesmith/core/reuse.py: the choice of an artifact to use again. The child Compat is
-- ritesmith/core/compat.py, the gate that a candidate has to pass. The full-text search and the
-- judging model are parameters; the audit event, metrics and the building of the response are left out.
pub mod Compat
pub mod Chosen
mod Tests
use ritesmith.Prelude.{
  ℕ, ◌≤◌, String, Bool, true, false, Option, none, some, List, [], ◌∷◌, ◌==◌, elem, length, ltb,
  if◌then◌else◌,
}
use ritesmith.Json.{ℤ, pos, negsuc}
use ritesmith.Reuse.Compat.{SearchResult, Wanted, Profiles, is_compatible}

-- What `llm.judge_reuse` does.
pub data Verdict : Type 0 where
  not_implemented : Verdict
  judges : Option ℤ → Verdict

-- `artifact_types[0] if artifact_types else "unknown"`
unfoldable pub requested_type : List String → String
requested_type [] = "unknown"
requested_type (t ∷ ts) = t

module _ {ℓ} {Score : Type ℓ} where
  -- `[r for r in results if r.artifact.artifact_type in artifact_types]`
  unfoldable pub of_types : List String → List (SearchResult Score) → List (SearchResult Score)
  of_types types [] = []
  of_types types (r ∷ rs) =
      let rest = of_types types rs in if elem r.artifact.artifact_type types then r ∷ rest else rest

  -- `[r for r in results if r.score >= _REUSE_SCORE_THRESHOLD]`
  unfoldable pub scored : (Score → Bool) → List (SearchResult Score) → List (SearchResult Score)
  scored high [] = []
  scored high (r ∷ rs) = let rest = scored high rs in if high r.score then r ∷ rest else rest

  -- The type that a candidate has to match.
  unfoldable pub type_wanted : List String → SearchResult Score → String
  unfolding requested_type
  type_wanted types r =
      if ltb 1 (length types) then r.artifact.artifact_type else requested_type types

  module _ (profiles : Profiles) (wanted : Wanted) where
    keep_if :
        Option Bool
        → SearchResult Score
        → Option (List (SearchResult Score))
        → Option (List (SearchResult Score))
    keep_if none r rest = none
    keep_if (some false) r rest = rest
    keep_if (some true) r none = none
    keep_if (some true) r (some rs) = some (r ∷ rs)

    -- The candidates that pass the gate.
    unfoldable pub compatible :
        List String → List (SearchResult Score) → Option (List (SearchResult Score))
    unfolding keep_if
    compatible types [] = some []
    compatible types (r ∷ rs) =
        keep_if (is_compatible profiles wanted (type_wanted types r) r) r (compatible types rs)

  unfoldable pub first : List (SearchResult Score) → Option (SearchResult Score)
  first [] = none
  first (r ∷ rs) = some r

  -- `compatible[idx]` for an index that is in range, and none for another.
  unfoldable pub at : List (SearchResult Score) → ℕ → Option (SearchResult Score)
  at [] n = none
  at (r ∷ rs) ℕ.zero = some r
  at (r ∷ rs) (ℕ.suc n) = at rs n

  at_index : List (SearchResult Score) → Option ℤ → Option (SearchResult Score)
  unfolding at
  at_index rs none = none
  at_index rs (some (pos n)) = at rs n
  at_index rs (some (negsuc _)) = none

  unfoldable pub on_verdict : List (SearchResult Score) → Verdict → Option (SearchResult Score)
  unfolding first at_index
  on_verdict rs not_implemented = first rs
  on_verdict rs (judges idx) = at_index rs idx

  -- `llm` is the judge's answer to the candidates, where there is a model.
  unfoldable pub judge :
      Bool
      → Option (List (SearchResult Score) → Verdict)
      → List (SearchResult Score)
      → Option (SearchResult Score)
  unfolding first on_verdict
  judge reuse_llm_judge none rs = first rs
  judge false (some llm) rs = first rs
  judge true (some llm) rs = on_verdict rs (llm rs)

  judge_compatible :
      Bool
      → Option (List (SearchResult Score) → Verdict)
      → Option (List (SearchResult Score))
      → Option (Option (SearchResult Score))
  unfolding judge
  judge_compatible reuse_llm_judge llm none = none
  judge_compatible reuse_llm_judge llm (some []) = some none
  judge_compatible reuse_llm_judge llm (some (r ∷ rs)) = some (judge reuse_llm_judge llm (r ∷ rs))

  -- `results` is what was passed or what the search recalled. The outer none is a candidate whose
  -- schemas are malformed.
  unfoldable pub check_reuse :
      Profiles
      → Wanted
      → (Score → Bool)
      → Bool
      → Option (List (SearchResult Score) → Verdict)
      → String
      → List String
      → List (SearchResult Score)
      → Option (Option (SearchResult Score))
  unfolding of_types scored compatible judge_compatible
  check_reuse profiles wanted high reuse_llm_judge llm reuse_policy types results =
      if reuse_policy == "force_new"
      then some none
      else judge_compatible reuse_llm_judge llm
          (compatible profiles wanted types (scored high (of_types types results)))
