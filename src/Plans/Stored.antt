-- ===== src/Plans/Stored.antt =====
-- The rows that a new plan stores: the registry and the ids of the plan (core/planning.py over registry/service.py).
use mathlib.Core.List.{Memᴰ}
use mathlib.Core.Option.{some-injective, none-ne-some}
use ritesmith.Prelude.{
  ℕ, ◌+◌, String, ◌⊎◌, ◌≡◌, refl, sym, subst, ◌∙◌, true, not, ◌&&◌, Option, none, some, List, [],
  ◌∷◌, arith, ◌==◌, eq_iff, if◌then◌else◌, Bool-cases, Option-cases, inl, inr, false, nat_eq, eq_of,
  eq_refl,
}
use ritesmith.Json.{Value}
use ritesmith.Registry.{
  Error, Artifact, Db, Content, Description, Result, ok, err, create_artifact, get_artifact,
  find_artifact, find_version, add_artifact, add_version, new_artifact, version_row,
}
use ritesmith.Registry.Versions.{IsConsistent, create_artifact-IsConsistent}
use ritesmith.Plans.Build.{Draft, Step}
use ritesmith.Plans.Persist.{
  Saved, Ids, persisted_id, renamed, rename_step, stored, kept, save_content, save, save_all,
  bound_content, content_of, description_of,
}

module _ (sha256 : String → String) (now : ℕ) (new_id : String) (ttl : ℕ) (d : Description)
    (c : Content) (db db' : Db) (made : create_artifact sha256 now new_id ttl d c db ≡ ok db') where
  -- A row is created under an id that no artifact has.
  create_artifact-free : get_artifact new_id db ≡ none
  unfolding create_artifact add_artifact new_artifact get_artifact
  create_artifact-free = ground (arith, made)

  create_artifact-artifact :
      (k : String)
      → find_artifact k db'.artifacts ≡ (
          if new_id == k
          then some (new_artifact sha256 now new_id ttl d c)
          else find_artifact k db.artifacts)
  unfolding create_artifact add_artifact add_version new_artifact find_artifact
  create_artifact-artifact k = ground (arith, made)

  create_artifact-version :
      (k : String) (n : ℕ)
      → find_version k n db'.versions ≡ (
          if new_id == k && nat_eq 1 n
          then some (version_row new_id 1 c)
          else find_version k n db.versions)
  unfolding create_artifact add_artifact add_version version_row find_version
  create_artifact-version k n = ground (arith, made)

Result-cases : (r : Result Db) → ((why : Error) × (r ≡ err why)) ⊎ ((db : Db) × (r ≡ ok db))
Result-cases (err why) = inl (why, refl)
Result-cases (ok db) = inr (db, refl)

ok-eq : (a b : Db) → ok a ≡ ok b → a ≡ b
ok-eq a b e = cc

persisted_id-here :
    (j k new : String) (ids : Ids) → (j == k) ≡ true → persisted_id k ((j, new) ∷ ids) ≡ some new
unfolding persisted_id
persisted_id-here j k new ids h = rw h refl

persisted_id-there :
    (j k new : String) (ids : Ids)
    → (j == k) ≡ false
    → persisted_id k ((j, new) ∷ ids) ≡ persisted_id k ids
unfolding persisted_id
persisted_id-there j k new ids h = rw h refl

-- An artifact that was there has the row and the versions that it had.
pub record Keeps (db db' : Db) : Type 0 where
  pub rows :
      (k : String) (a : Artifact)
      → find_artifact k db.artifacts ≡ some a
      → find_artifact k db'.artifacts ≡ some a
  pub versions :
      (k : String) (n : ℕ) (a : Artifact)
      → find_artifact k db.artifacts ≡ some a
      → find_version k n db'.versions ≡ find_version k n db.versions

Keeps-refl : (db : Db) → Keeps db db
Keeps-refl db = record { rows = λ k a h. h; versions = λ k n a h. refl }

Keeps-trans : (a b c : Db) → Keeps a b → Keeps b c → Keeps a c
Keeps-trans a b c f g = record {
  rows = λ k r h. g.rows k r (f.rows k r h);
  versions = λ k n r h. g.versions k n r (f.rows k r h) ∙ f.versions k n r h;
}

module _ (sha256 : String → String) (now ttl : ℕ) (loads : String → Option Value)
    (dumps : Value → String) (plan_id : String) where
  -- The row `new` and its first version are what a draft with the id k was stored as: its own
  -- values under the plan, with the content that binding the ids so far gave.
  pub record StoredAs (drafts : List Draft) (k new : String) (db : Db) : Type 0 where
    pub source : Draft
    pub among : Memᴰ source drafts
    pub named : source.artifact_id ≡ k
    pub known : Ids
    pub content : String
    pub bound_text : bound_content loads dumps known source ≡ some content
    pub row :
        find_artifact new db.artifacts
        ≡ some (
            new_artifact sha256 now new ttl
              (description_of plan_id source)
              (content_of content source))
    pub version :
        find_version new 1 db.versions ≡ some (version_row new 1 (content_of content source))

  -- A consistent registry, and a stored draft behind every id that was given.
  record IsStored (drafts : List Draft) (s : Saved) : Type 0 where
    consistent : IsConsistent sha256 s.db
    linked : (k new : String) → persisted_id k s.ids ≡ some new → StoredAs drafts k new s.db

  StoredAs-kept :
      (drafts : List Draft) (k new : String) (db db' : Db)
      → Keeps db db'
      → StoredAs drafts k new db
      → StoredAs drafts k new db'
  StoredAs-kept drafts k new db db' f h = record {
    source = h.source;
    among = h.among;
    named = h.named;
    known = h.known;
    content = h.content;
    bound_text = h.bound_text;
    row = f.rows new _ h.row;
    version = f.versions new 1 _ h.row ∙ h.version;
  }

  put : String → Draft → Saved → Db → Saved
  put new_id a s db = record {
    db = db;
    ids = (a.artifact_id, new_id) ∷ s.ids;
    artifact_ids = new_id ∷ s.artifact_ids;
  }

  create_artifact-Keeps :
      (new_id : String) (d : Description) (c : Content) (db db' : Db)
      → create_artifact sha256 now new_id ttl d c db ≡ ok db'
      → Keeps db db'
  unfolding get_artifact
  create_artifact-Keeps new_id d c db db' made =
      let free = create_artifact-free sha256 now new_id ttl d c db db' made in
      record {
        rows = λ k a h. ground (
          arith,
          h,
          free,
          create_artifact-artifact sha256 now new_id ttl d c db db' made k,
          eq_iff new_id k,
        );
        versions = λ k n a h. ground (
          arith,
          h,
          free,
          create_artifact-version sha256 now new_id ttl d c db db' made k n,
          eq_iff new_id k,
        );
      }

  put-IsStored :
      (drafts : List Draft) (new_id : String) (a : Draft) (content : String) (s : Saved) (db : Db)
      → Memᴰ a drafts
      → bound_content loads dumps s.ids a ≡ some content
      → create_artifact sha256 now new_id ttl (description_of plan_id a) (content_of content a) s.db
        ≡ ok db
      → IsStored drafts s
      → IsStored drafts (put new_id a s db) × Keeps s.db (put new_id a s db).db
  unfolding put
  put-IsStored drafts new_id a content s db among bound made h =
      let d = description_of plan_id a in
      let c = content_of content a in
      let free = create_artifact-free sha256 now new_id ttl d c s.db db made in
      let (db2, same, fine, _) =
        create_artifact-IsConsistent sha256 now new_id c s.db ttl d h.consistent free in
      let e : db2 ≡ db = ok-eq db2 db (sym same ∙ made) in
      let keeps : Keeps s.db db = create_artifact-Keeps new_id d c s.db db made in
      let mine : StoredAs drafts a.artifact_id new_id db = record {
        source = a;
        among = among;
        named = refl;
        known = s.ids;
        content = content;
        bound_text = bound;
        row =
            create_artifact-artifact sha256 now new_id ttl d c s.db db made new_id
            ∙ rw (eq_refl new_id) refl;
        version =
            create_artifact-version sha256 now new_id ttl d c s.db db made new_id 1
            ∙ rw (eq_refl new_id) refl;
      } in
      (
        record {
          consistent = subst (IsConsistent sha256) e fine;
          linked = λ k new there. elim (Bool-cases (a.artifact_id == k)) [
            | inl here ↦
                subst (λ j. StoredAs drafts k j db)
                  (some-injective _ _
                    (sym (persisted_id-here a.artifact_id k new_id s.ids here) ∙ there))
                  (subst (λ j. StoredAs drafts j new_id db) (eq_of a.artifact_id k here) mine)
            | inr other ↦ StoredAs-kept drafts k new s.db db keeps (
                h.linked k new
                  (sym (persisted_id-there a.artifact_id k new_id s.ids other) ∙ there))
          ];
        },
        keeps,
      )

  kept-IsStored :
      (drafts : List Draft) (a : Draft) (s : Saved)
      → IsStored drafts s
      → IsStored drafts (kept a s) × Keeps s.db (kept a s).db
  unfolding kept
  kept-IsStored drafts a s h = elim (Bool-cases (a.artifact_id == "")) [
    | inl e ↦ rw e (h, Keeps-refl s.db)
    | inr e ↦ rw e (record { consistent = h.consistent; linked = h.linked }, Keeps-refl s.db)
  ]

  save_content-IsStored :
      (drafts : List Draft) (new_id : String) (a : Draft) (content : Option String) (s s' : Saved)
      → Memᴰ a drafts
      → bound_content loads dumps s.ids a ≡ content
      → IsStored drafts s
      → save_content sha256 now ttl loads dumps plan_id new_id a s content ≡ some s'
      → IsStored drafts s' × Keeps s.db s'.db
  unfolding save_content stored kept put
  save_content-IsStored drafts new_id a none s s' among bound h e = absurd (none-ne-some _ e)
  save_content-IsStored drafts new_id a (some content) s s' among bound h e =
      elim (Bool-cases (a.is_draft && not (content == ""))) [
        | inl draft ↦
            elim (Result-cases (
              create_artifact sha256 now new_id ttl (description_of plan_id a)
                (content_of content a) s.db)) [
                  | inl (why, failed) ↦ absurd (none-ne-some _ (rw (draft, failed) at e))
                  | inr (db, made) ↦
                      subst (λ t. IsStored drafts t × Keeps s.db t.db)
                        (some-injective _ _ (rw (draft, made) at e))
                        (put-IsStored drafts new_id a content s db among bound made h)
                ]
        | inr there ↦
            subst (λ t. IsStored drafts t × Keeps s.db t.db) (some-injective _ _ (rw there at e))
              (kept-IsStored drafts a s h)
      ]

  save_all-IsStored :
      (drafts : List Draft) (new_id : ℕ → String) (i : ℕ) (rest : List Draft) (s s' : Saved)
      → ((a : Draft) → Memᴰ a rest → Memᴰ a drafts)
      → IsStored drafts s
      → save_all sha256 now ttl loads dumps plan_id new_id i rest s ≡ some s'
      → IsStored drafts s' × Keeps s.db s'.db
  unfolding save_all save
  save_all-IsStored drafts new_id i [] s s' among h e =
      subst (λ t. IsStored drafts t × Keeps s.db t.db) (some-injective _ _ e) (h, Keeps-refl s.db)
  save_all-IsStored drafts new_id i (a ∷ rest) s s' among h e =
      elim (Option-cases (
        save_content sha256 now ttl loads dumps plan_id (new_id i) a s
          (bound_content loads dumps s.ids a))) [
            | inl gone ↦ absurd (none-ne-some _ (rw (gone, save_all) at e))
            | inr (t, made) ↦
                let (first, keeps) =
                  save_content-IsStored drafts (new_id i) a (bound_content loads dumps s.ids a) s t
                    (among a (Memᴰ.head refl)) refl h made in
                let (last, more) =
                  save_all-IsStored drafts new_id (i + 1) rest t s' (λ b m. among b (Memᴰ.tail m))
                    first (rw (made, save_all) at e) in
                (last, Keeps-trans s.db t.db s'.db keeps more)
          ]

  pub save_all-IsConsistent :
      (new_id : ℕ → String) (drafts : List Draft) (db : Db) (s : Saved)
      → IsConsistent sha256 db
      → save_all sha256 now ttl loads dumps plan_id new_id 0 drafts
          (record { db = db; ids = []; artifact_ids = [] })
        ≡ some s
      → IsConsistent sha256 s.db
        × Keeps db s.db
        × ((step : Step) (k new : String)
            → step.artifact_id ≡ some k
            → persisted_id k s.ids ≡ some new
            → ((rename_step s.ids step).artifact_id ≡ some new) × StoredAs drafts k new s.db)
  unfolding rename_step renamed
  save_all-IsConsistent new_id drafts db s h e =
      let start : IsStored drafts (record { db = db; ids = []; artifact_ids = [] }) = record {
        consistent = h;
        linked = λ k new there. absurd (none-ne-some _ (unfold persisted_id in there));
      } in
      let (last, keeps) =
        save_all-IsStored drafts new_id 0 drafts (record { db = db; ids = []; artifact_ids = [] }) s
          (λ a m. m) start e in
      (
        last.consistent,
        keeps,
        λ step k new names given. (rw (names, given, renamed) refl, last.linked k new given),
      )
