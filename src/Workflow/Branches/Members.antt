-- ===== src/Workflow/Branches/Members.antt =====
-- What `_branch_sets` holds: for each branch, the nodes that can be reached inside it.
use ritesmith.Prelude.{
  Option, none, not, ◌&&◌, ◌∙◌, eq_iff, String, ◌≡◌, ◌↔◌, refl, true, false, some, List, [], ◌∷◌,
  arith, elem, Bool-cases, inl, inr, elem-append, elem-here, elem-there, elem-tail, eq_of, subst,
  ◌==◌,
}
use ritesmith.Json.{Value}
use ritesmith.Workflow.Dfs.Walks.{Walk}
use ritesmith.Workflow.Worklist.Reach.{collect-decides}
use ritesmith.Workflow.Graph.{node_ids, find_node, has_kind}
use ritesmith.Workflow.Graph.Lookup.{present-find_under}
use ritesmith.Workflow.Branches.{
  is_node, inside_edges, members_of, Branches, entry_sets, split_entries, branch_sets, all_members,
  branches_of, map_keys, entries_at, entries_of,
}

pub is_node-listed :
    (nodes : List Value) (s : String) → is_node nodes s ≡ true → elem s (node_ids nodes) ≡ true
unfolding is_node node_ids find_node
is_node-listed nodes s h = ground (arith, present-find_under "id" s nodes)

pub is_node-elem : (nodes : List Value) (s : String) → is_node nodes s ≡ elem s (node_ids nodes)
unfolding is_node node_ids find_node
is_node-elem nodes s = present-find_under "id" s nodes

-- A walk inside a branch.
abbrev pub Inside : List Value → String → String → Type 0
Inside nodes v entry = Walk (is_node nodes) (inside_edges nodes) v entry

pub members_of-decides :
    (nodes : List Value) (entry : String)
    → (r : List String) × (members_of nodes entry ≡ some r)
      × ((v : String) → (elem v r ≡ true) ↔ (is_node nodes v ≡ true) × Inside nodes v entry)
unfolding members_of
members_of-decides nodes entry =
    collect-decides (is_node nodes) (inside_edges nodes) entry (node_ids nodes)
      (is_node-listed nodes)

-- A node inside the branch of one of the entries.
record InBranch (nodes : List Value) (entries : List String) (v : String) : Type 0 where
  pub entry : String
  pub listed : elem entry entries ≡ true
  pub entry_known : is_node nodes entry ≡ true
  pub known : is_node nodes v ≡ true
  pub walk : Inside nodes v entry

-- The union of the sets is what can be reached inside some branch.
abbrev Covers : List Value → List String → Branches → Type 0
Covers nodes entries sets =
    (v : String) → (elem v (all_members sets) ≡ true) ↔ InBranch nodes entries v

module _ (nodes : List Value) (e : String) (es : List String) where
  later : {v : String} → InBranch nodes es v → InBranch nodes (e ∷ es) v
  later b = record {
    entry = b.entry;
    listed = elem-there b.entry e es b.listed;
    entry_known = b.entry_known;
    known = b.known;
    walk = b.walk;
  }

  Covers-skip :
      (sets : Branches)
      → is_node nodes e ≡ false
      → Covers nodes es sets
      → Covers nodes (e ∷ es) sets
  Covers-skip sets missing covers v = (
    λ m. later ((covers v).0 m),
    λ b. elim (Bool-cases (b.entry == e)) [
      | inl same ↦ absurd (ground (arith, eq_of b.entry e same, b.entry_known))
      | inr other ↦ (covers v).1 (record {
        entry = b.entry;
        listed = elem-tail b.entry e es b.listed other;
        entry_known = b.entry_known;
        known = b.known;
        walk = b.walk;
      })
    ],
  )

  Covers-add :
      (members : List String) (sets : Branches)
      → is_node nodes e ≡ true
      → ((v : String) → (elem v members ≡ true) ↔ (is_node nodes v ≡ true) × Inside nodes v e)
      → Covers nodes es sets
      → Covers nodes (e ∷ es) ((e, members) ∷ sets)
  unfolding all_members
  Covers-add members sets there iff covers v = (
    λ m. elim (Bool-cases (elem v members)) [
      | inl here ↦
          let (known, walk) = (iff v).0 here in
          record {
            entry = e;
            listed = elem-here e es;
            entry_known = there;
            known = known;
            walk = walk;
          }
      | inr out ↦ later ((covers v).0 (ground (arith, elem-append v members (all_members sets))))
    ],
    λ b. elim (Bool-cases (b.entry == e)) [
      | inl same ↦
          let here = (iff v).1 (b.known, subst (Inside nodes v) (eq_of b.entry e same) b.walk) in
          ground (arith, elem-append v members (all_members sets))
      | inr other ↦
          let there = (covers v).1 (record {
            entry = b.entry;
            listed = elem-tail b.entry e es b.listed other;
            entry_known = b.entry_known;
            known = b.known;
            walk = b.walk;
          }) in
          ground (arith, elem-append v members (all_members sets))
    ],
  )

entry_sets-Covers :
    (nodes : List Value) (entries : List String)
    → (sets : Branches) × (entry_sets nodes entries ≡ some sets) × Covers nodes entries sets
unfolding entry_sets all_members
entry_sets-Covers nodes [] = (
  [],
  refl,
  λ v. (
    λ m. absurd (unfold elem in ground arith),
    λ b. absurd (unfold elem in ground (arith, b.listed)),
  ),
)
entry_sets-Covers nodes (e ∷ es) =
    let (sets, made, covers) = entry_sets-Covers nodes es in
    elim (Bool-cases (is_node nodes e)) [
      | inl there ↦
          let (members, found, iff) = members_of-decides nodes e in
          (
            (e, members) ∷ sets,
            rw (there, found, made),
            Covers-add nodes e es members sets there iff covers,
          )
      | inr missing ↦ (sets, rw missing made, Covers-skip nodes e es sets missing covers)
    ]

-- An entry of a branch: a split of the definition names it, where the last node of an id stands.
pub record IsEntry (nodes : List Value) (entry : String) : Type 0 where
  pub nid : String
  pub split : Value
  pub found : find_node nid nodes ≡ some split
  pub kind : has_kind "split" split ≡ true
  pub named : elem entry (branches_of split) ≡ true

elem-map_keys :
    (s : String) (seen ss : List String)
    → elem s (map_keys seen ss) ≡ (elem s ss && not (elem s seen))
unfolding map_keys elem
elem-map_keys s seen [] = refl
elem-map_keys s seen (t ∷ ss) =
    ground (arith, eq_iff s t, elem-map_keys s seen ss, elem-map_keys s (t ∷ seen) ss)

entries_at-IsEntry :
    (nodes : List Value) (nid entry : String) (found : Option Value)
    → find_node nid nodes ≡ found
    → elem entry (entries_at found) ≡ true
    → IsEntry nodes entry
unfolding entries_at
entries_at-IsEntry nodes nid entry none e h = absurd (unfold elem in ground arith)
entries_at-IsEntry nodes nid entry (some n) e h = elim (Bool-cases (has_kind "split" n)) [
  | inl kind ↦ record { nid = nid; split = n; found = e; kind = kind; named = rw kind at h }
  | inr other ↦ absurd (unfold elem in ground arith)
]

entries_of-IsEntry :
    (nodes : List Value) (nids : List String) (entry : String)
    → elem entry (entries_of nodes nids) ≡ true
    → IsEntry nodes entry
unfolding entries_of
entries_of-IsEntry nodes [] entry h = absurd (unfold elem in ground arith)
entries_of-IsEntry nodes (nid ∷ nids) entry h =
    elim (Bool-cases (elem entry (entries_at (find_node nid nodes)))) [
      | inl here ↦ entries_at-IsEntry nodes nid entry (find_node nid nodes) refl here
      | inr out ↦ entries_of-IsEntry nodes nids entry (
          ground
            (arith, elem-append entry (entries_at (find_node nid nodes)) (entries_of nodes nids)))
    ]

entries_of-listed :
    (nodes : List Value) (nids : List String) (entry nid : String)
    → elem nid nids ≡ true
    → elem entry (entries_at (find_node nid nodes)) ≡ true
    → elem entry (entries_of nodes nids) ≡ true
unfolding entries_of
entries_of-listed nodes [] entry nid m h = absurd (unfold elem in ground arith)
entries_of-listed nodes (k ∷ nids) entry nid m h = elim (Bool-cases (nid == k)) [
  | inl same ↦ ground (
    arith,
    eq_of nid k same,
    elem-append entry (entries_at (find_node k nodes)) (entries_of nodes nids),
  )
  | inr other ↦ ground (
    arith,
    elem-append entry (entries_at (find_node k nodes)) (entries_of nodes nids),
    entries_of-listed nodes nids entry nid (elem-tail nid k nids m other) h,
  )
]

split_entries_iff :
    (nodes : List Value) (entry : String)
    → (elem entry (split_entries nodes) ≡ true) ↔ IsEntry nodes entry
unfolding split_entries
split_entries_iff nodes entry = (
  entries_of-IsEntry nodes (map_keys [] (node_ids nodes)) entry,
  λ b.
      let known : is_node nodes b.nid ≡ true = unfold is_node in rw b.found refl in
      let listed : elem b.nid (map_keys [] (node_ids nodes)) ≡ true =
        elem-map_keys b.nid [] (node_ids nodes)
        ∙ rw (is_node-listed nodes b.nid known) (unfold elem in refl) in
      entries_of-listed nodes (map_keys [] (node_ids nodes)) entry b.nid listed
        (rw b.found (unfold entries_at in rw b.kind b.named)),
)

-- A node inside a branch of one of the splits.
pub record InSplit (nodes : List Value) (v : String) : Type 0 where
  pub entry : String
  pub listed : IsEntry nodes entry
  pub entry_known : is_node nodes entry ≡ true
  pub known : is_node nodes v ≡ true
  pub walk : Inside nodes v entry

-- The branch sets are always found, and hold exactly the nodes inside the branches of the splits:
-- those that can be reached, along the edges that stay in the branch, from a node that a split names
-- among its branches. A split or node counts under its id, where it is the last node of that id.
pub branch_sets-Covers :
    (nodes : List Value)
    → (sets : Branches) × (branch_sets nodes ≡ some sets)
      × ((v : String) → (elem v (all_members sets) ≡ true) ↔ InSplit nodes v)
unfolding branch_sets
branch_sets-Covers nodes =
    let (sets, made, covers) = entry_sets-Covers nodes (split_entries nodes) in
    (
      sets,
      made,
      λ v. (
        λ m.
            let b = (covers v).0 m in
            record {
              entry = b.entry;
              listed = (split_entries_iff nodes b.entry).0 b.listed;
              entry_known = b.entry_known;
              known = b.known;
              walk = b.walk;
            },
        λ b. (covers v).1 (record {
          entry = b.entry;
          listed = (split_entries_iff nodes b.entry).1 b.listed;
          entry_known = b.entry_known;
          known = b.known;
          walk = b.walk;
        }),
      ),
    )
