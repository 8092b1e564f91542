-- ===== src/Repair/Repaired.antt =====
-- What the background repair of core/execution.py can store.
use ritesmith.Prelude.{
  ℕ, suc, ◌+◌, ◌-◌, String, ◌≡◌, refl, subst, ◌⊎◌, inl, inr, Bool, true, false, ◌&&◌, Option, none,
  some, List, arith, ltb, ◌==◌, Bool-cases, Option-cases, text_given,
}
use ritesmith.Json.{Fields}
use ritesmith.Registry.{Db, ArtifactVersion, Content, Result, ok, err, create_new_version}
use ritesmith.Execution.{Environment, RuntimeResult, Attempt, returns, raises}
use ritesmith.Execution.Script.{run_script}
use ritesmith.Execution.Create.{profile_of}
use ritesmith.Repair.{
  Tried, returned, rate_limited, llm_error, crashed, Diagnostic, Progress, Next, again, stop,
  raised, admit, after_attempt, go_on, conclude, try, loop, unstarted, run_repair_loop,
}
use ritesmith.Repair.Contract.{
  Answer, repaired, fails, Tools, Scripts, judge, regression, keep_if_fixed, check_candidate,
  on_answer, attempt_fn, unbounded, fixed_version, or_kept, store, background_repair,
}

-- What every attempt keeps, the loop keeps.
module _ {ℓ κ} {S : Type ℓ} (P : S → Type κ) (bounded : Bool) (time_left : ℕ → Bool)
    (attempt : ℕ → ℕ → S → Tried × ℕ × S) (state_fn : Option (S → String × List Diagnostic))
    (keeps : (a n : ℕ) (s : S) → P s → P ((attempt a n s).2)) where
  go_on-P :
      (rest : Progress → S → Bool × Progress × S) (s : S) (n : Next)
      → ((p : Progress) → P ((rest p s).2))
      → P s
      → P ((go_on rest s n).2)
  unfolding go_on
  go_on-P rest s (again p) ih h = ih p
  go_on-P rest s (stop p) ih h = h
  go_on-P rest s (raised p) ih h = h

  loop-P :
      (rounds a : ℕ) (p : Progress) (s : S)
      → P s
      → P ((loop bounded time_left attempt state_fn rounds a p s).2)
  unfolding loop try conclude
  loop-P ℕ.zero a p s h = h
  loop-P (suc rounds) a p s h = elim (Option-cases (admit time_left a p.remaining)) [
    | inl none_left ↦ rw none_left h
    | inr (m, admitted) ↦ rw admitted (
        let (t, n, s') = attempt a m s in
        go_on-P (loop bounded time_left attempt state_fn rounds (a + 1)) s'
          (after_attempt bounded time_left attempt state_fn
            (record p { performed = a; remaining = n }) t s')
          (λ q. loop-P rounds (a + 1) q s' (keeps a m s h)) (keeps a m s h))
  ]

judge-eq-true :
    (r : Attempt RuntimeResult)
    → judge r ≡ returned true
    → (result : RuntimeResult) × (r ≡ returns result) × (text_given result.error ≡ false)
unfolding judge
judge-eq-true (returns result) h = (result, refl, ground arith)
judge-eq-true (raises m) h = absurd (ground arith)

some-inj {ℓ} : {A : Type ℓ} {x y : A} → some x ≡ some y → x ≡ y
some-inj e = cc

or_kept-cases : (db : Db) (r : Result Db) → (or_kept db r ≡ db) ⊎ (r ≡ ok (or_kept db r))
unfolding or_kept
or_kept-cases db (ok db') = inr refl
or_kept-cases db (err e) = inl refl

store-cases :
    (sha256 : String → String) (now : ℕ) (artifact_id : String) (version : ArtifactVersion)
    (fixed : Option String) (db : Db)
    → (store sha256 now artifact_id version fixed db ≡ db)
      ⊎ ((c : String) × (fixed ≡ some c)
          × (create_new_version sha256 now artifact_id (fixed_version version c) db
              ≡ ok (store sha256 now artifact_id version fixed db)))
unfolding store
store-cases sha256 now artifact_id version none db = inl refl
store-cases sha256 now artifact_id version (some c) db = elim (Bool-cases (c == "")) [
  | inl blank ↦ inl (rw blank refl)
  | inr given ↦
      elim (or_kept-cases db
        (create_new_version sha256 now artifact_id (fixed_version version c) db)) [
          | inl same ↦ inl (rw (given, same) refl)
          | inr stored ↦ inr (c, refl, rw given stored)
        ]
]

module _ (env : Environment) (tools : Tools) (max_attempts : ℕ) (version : ArtifactVersion)
    (input : Fields) (artifact_type : String) where
  -- The script passed the validation at some attempt, and its run on the input reports no error.
  pub Checked : String → Type 0
  Checked c =
      (a : ℕ) × (result : RuntimeResult) × (tools.valid c artifact_type (ltb a max_attempts)
        ≡ returns true)
      × (run_script env (record version { content = c }) input (profile_of version) artifact_type
          ≡ returns result)
      × (text_given result.error ≡ false)

  abbrev Fixed : Scripts → Type 0
  Fixed s = (c : String) → s.fixed_content ≡ some c → Checked c

  keep_if_fixed-Fixed :
      (s : Scripts) (t : Tried)
      → Fixed s
      → (t ≡ returned true → Checked s.last_content)
      → Fixed ((keep_if_fixed env tools max_attempts version input artifact_type s t).1)
  unfolding keep_if_fixed
  keep_if_fixed-Fixed s (returned true) h fine = λ c e. subst Checked (some-inj e) (fine refl)
  keep_if_fixed-Fixed s (returned false) h fine = h
  keep_if_fixed-Fixed s rate_limited h fine = h
  keep_if_fixed-Fixed s (llm_error b k) h fine = h
  keep_if_fixed-Fixed s crashed h fine = h

  check_candidate-Fixed :
      (a : ℕ) (s : Scripts) (v : Attempt Bool)
      → Fixed s
      → tools.valid s.last_content artifact_type (ltb a max_attempts) ≡ v
      → Fixed ((check_candidate env tools max_attempts version input artifact_type s v).1)
  unfolding check_candidate regression Checked
  check_candidate-Fixed a s (raises m) h e = h
  check_candidate-Fixed a s (returns false) h e = h
  check_candidate-Fixed a s (returns true) h e =
      keep_if_fixed-Fixed s
        (judge (
          run_script env (record version { content = s.last_content }) input (profile_of version)
            artifact_type))
        h
        (λ passed.
          let (result, ran, fine) =
            judge-eq-true
              (run_script env (record version { content = s.last_content }) input
                (profile_of version) artifact_type)
              passed in
          (a, result, e, ran, fine))

  on_answer-Fixed :
      (a : ℕ) (s : Scripts) (r : Answer × ℕ)
      → Fixed s
      → Fixed ((on_answer env tools max_attempts version input artifact_type a s r).2)
  unfolding on_answer
  on_answer-Fixed a s (fails t, n) h = h
  on_answer-Fixed a s (repaired c, n) h =
      check_candidate-Fixed a (record s { last_content = c })
        (tools.valid c artifact_type (ltb a max_attempts)) h refl

  attempt_fn-Fixed :
      (a n : ℕ) (s : Scripts)
      → Fixed s
      → Fixed ((attempt_fn env tools max_attempts version input artifact_type a n s).2)
  unfolding attempt_fn
  attempt_fn-Fixed a n s h =
      on_answer-Fixed a s (tools.repair (artifact_type == "luau_script") s.last_content a n) h

  run_repair_loop-Fixed :
      (time_left : ℕ → Bool)
      → Fixed (
          (run_repair_loop
            (unbounded max_attempts)
            time_left
            (attempt_fn env tools max_attempts version input artifact_type)
            none
            (record { last_content = version.content; fixed_content = none })).2)
  unfolding run_repair_loop
  run_repair_loop-Fixed time_left =
      loop-P Fixed false time_left (attempt_fn env tools max_attempts version input artifact_type)
        none attempt_fn-Fixed max_attempts 1 (unstarted (max_attempts - 1))
        (record { last_content = version.content; fixed_content = none })
        (λ c e. absurd (ground arith))

  -- The background repair leaves the registry as it was, or it adds to the artifact a new version whose
  -- script passed the validation at some attempt and, run on the input that broke the schema, reports no error.
  pub background_repair-Checked :
      (sha256 : String → String) (now : ℕ) (time_left : ℕ → Bool) (job : Bool)
      (artifact_id : String) (db : Db)
      → (background_repair sha256 now env tools time_left max_attempts job artifact_id version input
            artifact_type db
          ≡ db)
        ⊎ ((c : Content) × (create_new_version sha256 now artifact_id c db
              ≡ ok (
                  background_repair sha256 now env tools time_left max_attempts job artifact_id
                    version input artifact_type db))
            × Checked c.content)
  unfolding background_repair
  background_repair-Checked sha256 now time_left job artifact_id db =
      let (ended, _, s) =
        run_repair_loop (unbounded max_attempts) time_left
          (attempt_fn env tools max_attempts version input artifact_type) none
          (record { last_content = version.content; fixed_content = none }) in
      elim (Bool-cases (job && ended)) [
        | inr stopped ↦ inl (rw stopped refl)
        | inl finished ↦ elim (store-cases sha256 now artifact_id version s.fixed_content db) [
          | inl same ↦ inl (rw (finished, same) refl)
          | inr (c, fixed, stored) ↦
              inr (
                fixed_version version c,
                rw finished stored,
                run_repair_loop-Fixed time_left c fixed,
              )
        ]
      ]
