-- ===== src/Workflow/Dfs/Total.antt =====
-- With more fuel than there are nodes left to visit, the search returns.
use ritesmith.Prelude.{
  ℕ, zero, suc, ◌≤◌, ◌<◌, String, ◌≡◌, refl, Bool, true, false, some, List, [], ◌∷◌, arith, eq_iff,
  eq_refl, elem, discard, if◌then◌else◌, Bool-cases, inl, inr, length, elem-here, elem-there,
}
use ritesmith.Workflow.Dfs.{Marks, enter, leave, go_on, Outcome, scan, dfs}

-- The nodes that are not visited.
pub room : List String → List String → ℕ
room [] seen = 0
room (s ∷ ids) seen = let rest = room ids seen in if elem s seen then rest else suc rest

pub room-le : (ids seen : List String) → room ids seen ≤ length ids
unfolding room
room-le [] seen = omega arith
room-le (s ∷ ids) seen = ground (arith, room-le ids seen)

room-cons-le : (ids seen : List String) (s : String) → room ids (s ∷ seen) ≤ room ids seen
unfolding room elem
room-cons-le [] seen s = omega arith
room-cons-le (t ∷ ids) seen s = ground (arith, room-cons-le ids seen s)

room-cons-lt :
    (ids seen : List String) (s : String)
    → elem s ids ≡ true
    → elem s seen ≡ false
    → room ids (s ∷ seen) < room ids seen
unfolding room elem
room-cons-lt [] seen s h e = absurd (ground arith)
room-cons-lt (t ∷ ids) seen s h e =
    ground (arith, room-cons-le ids seen s, room-cons-lt ids seen s, eq_iff s t, eq_refl s)

-- A call returns, and unmarks nothing.
abbrev pub Returned : List String → Marks → Outcome → Type 0
Returned ids m r =
    (b : Bool) × (m' : Marks) × (r ≡ some (b, m')) × (room ids m'.visited ≤ room ids m.visited)

-- A visit of a node of `P` that is not marked returns, if there is less room than `fuel`.
abbrev pub Returns : (String → Type 0) → List String → ℕ → (String → Marks → Outcome) → Type 0
Returns P ids fuel visit =
    (nid : String) (m : Marks)
    → P nid
    → elem nid m.visited ≡ false
    → room ids m.visited < fuel
    → Returned ids m (visit nid m)

go_on-Returned :
    (ids : List String) (fuel : ℕ) (m : Marks) (r : Outcome) (rest : Marks → Outcome)
    → room ids m.visited < fuel
    → Returned ids m r
    → ((m₁ : Marks) → room ids m₁.visited < fuel → Returned ids m₁ (rest m₁))
    → Returned ids m (go_on r rest)
unfolding go_on
go_on-Returned ids fuel m r rest h (true, m₁, e, less) all = (true, m₁, rw e, less)
go_on-Returned ids fuel m r rest h (false, m₁, e, less) all =
    let (b, m', e', less') = all m₁ (omega arith) in (b, m', rw (e, go_on) e', omega arith)

scan-Returned :
    (P : String → Type 0) (ids : List String) (fuel : ℕ) (visit : String → Marks → Outcome)
    (ss : List String)
    → Returns P ids fuel visit
    → ((s : String) → elem s ss ≡ true → P s)
    → (m : Marks) → room ids m.visited < fuel
    → Returned ids m (scan visit ss m)
unfolding scan
scan-Returned P ids fuel visit [] v p m h = (false, m, refl, omega arith)
scan-Returned P ids fuel visit (s ∷ ss) v p m h = elim (Bool-cases (elem s m.visited)) [
  | inl old ↦ elim (Bool-cases (elem s m.in_stack)) [
    | inl back ↦ (true, m, ground arith, omega arith)
    | inr done ↦
        let (b, m', e, less) =
          scan-Returned P ids fuel visit ss v (λ t q. p t (elem-there t s ss q)) m h in
        (b, m', ground arith, less)
  ]
  | inr fresh ↦ rw fresh (
      go_on-Returned ids fuel m (visit s m) (scan visit ss) h (v s m (p s (elem-here s ss)) fresh h)
        (scan-Returned P ids fuel visit ss v (λ t q. p t (elem-there t s ss q))))
]

leave-Returned :
    (ids : List String) (nid : String) (m : Marks) (r : Outcome)
    → Returned ids m r
    → Returned ids m (leave nid r)
unfolding leave
leave-Returned ids nid m r (true, m₁, e, less) = (true, m₁, rw e, less)
leave-Returned ids nid m r (false, m₁, e, less) =
    (false, record m₁ { in_stack = discard nid m₁.in_stack }, rw e, less)

-- The nodes that a search can come to are within `ids`.
pub record Bounded (known : String → Bool) (succ : String → List String) (ids : List String)
    (P : String → Type 0) : Type 0 where
  pub listed : (s : String) → P s → known s ≡ true → elem s ids ≡ true
  pub onward : (s t : String) → P s → elem t (succ s) ≡ true → P t

module _ (known : String → Bool) (succ : String → List String) (ids : List String)
    (P : String → Type 0) (bounded : Bounded known succ ids P) where
  pub dfs-Returns : (fuel : ℕ) → Returns P ids fuel (dfs known succ fuel)
  unfolding dfs
  dfs-Returns zero nid m p fresh h = absurd (omega arith)
  dfs-Returns (suc fuel) nid m p fresh h = elim (Bool-cases (known nid)) [
    | inr other ↦ (false, m, ground arith, omega arith)
    | inl k ↦
        let less = room-cons-lt ids m.visited nid (bounded.listed nid p k) fresh in
        let (b, m', e, less') =
          leave-Returned ids nid (enter nid m) (scan (dfs known succ fuel) (succ nid) (enter nid m))
            (scan-Returned P ids fuel (dfs known succ fuel) (succ nid) (dfs-Returns fuel)
              (λ t q. bounded.onward nid t p q) (enter nid m) (entered less)) in
        (b, m', rw k e, less_of less less')
  ]
    where
      entered :
          room ids (nid ∷ m.visited) < room ids m.visited → room ids (enter nid m).visited < fuel
      entered less = unfold enter in omega arith

      less_of :
          {k : ℕ}
          → room ids (nid ∷ m.visited) < room ids m.visited
          → k ≤ room ids (enter nid m).visited
          → k ≤ room ids m.visited
      less_of less h' = unfold enter in omega arith
