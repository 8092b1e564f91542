-- ===== src/Workflow/Graph/Lookup.antt =====
-- What is found under a field is among the values of that field, and the other way round.
use ritesmith.Prelude.{
  String, ◌≡◌, refl, List, [], ◌∷◌, arith, eq_iff, elem, present, Option-cases, inl, inr,
}
use ritesmith.Json.{Value}
use ritesmith.Workflow.Graph.{text_field, newest, ids_under, find_under}

pub present-find_under :
    (key k : String) (ns : List Value) → present (find_under key k ns) ≡ elem k (ids_under key ns)
unfolding find_under newest ids_under elem
present-find_under key k [] = refl
present-find_under key k (n ∷ ns) = elim (Option-cases (text_field key n)) [
  | inl missing ↦ rw missing (ground (arith, present-find_under key k ns))
  | inr (s, e) ↦ rw e (ground (arith, present-find_under key k ns, eq_iff s k, eq_iff k s))
]
