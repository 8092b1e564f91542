-- ===== src/Repair/Tests.antt =====
-- A repair that is refused once and then fixes the script, and the theorems at it.
use ritesmith.Prelude.{ℕ, ◌+◌, ◌≤◌, ◌≡◌, ◌⊎◌, true, false, none, some, [], arith, ltb}
use ritesmith.Json.{end}
use ritesmith.Registry.{Db, ArtifactVersion, Content, ok, create_new_version}
use ritesmith.Execution.{Environment, returns}
use ritesmith.Repair.{Tried, returned, Recovery, allowance, run_repair_loop}
use ritesmith.Repair.Contract.{repaired, Tools, background_repair}
use ritesmith.Repair.Bounds.{performed-run_repair_loop}
use ritesmith.Repair.Repaired.{Checked, background_repair-Checked}

abbrev recovery : Recovery
recovery = record {
  generation_bounded_recovery = true;
  generation_recovery_attempts = 2;
  initial_recoveries = 1;
  max_attempts = 5;
}

-- The second attempt succeeds, and claims what is left of the allowance.
abbrev second : ℕ → ℕ → Unit {0} → Tried × ℕ × Unit {0}
second a n s = (returned (ltb 1 a), 0, s)

second-le : (a n : ℕ) (s : Unit {0}) → (second a n s).1 ≤ n
second-le a n s = omega arith

performed-run_repair_loop_example :
    (((run_repair_loop recovery (λ a. true) second none tt).1).performed ≤ 5)
    × (((run_repair_loop recovery (λ a. true) second none tt).1).performed ≤ allowance recovery + 1)
performed-run_repair_loop_example =
    performed-run_repair_loop recovery (λ a. true) second none tt second-le

abbrev env : Environment
env = record {
  hmac = λ k m. m;
  ephemeral_secret = "k";
  str = λ n. "1";
  replace = λ a b s. s;
  json_loads = λ s. none;
  is_ascii = λ s. true;
  mentions_execute = λ v. false;
  execute = λ luau c i o p. returns (record { output = some i; error = none; timed_out = false });
  delegate = λ v i. returns "id";
  python_error = "error";
}

abbrev tools : Tools
tools = record { repair = λ luau c a n. (repaired "g", n); valid = λ c t strict. returns true }

abbrev version_one : ArtifactVersion
version_one = record {
  artifact_id = "art";
  version = 1;
  content = "f";
  input_schema = none;
  output_schema = none;
  risk_level = some "low";
  requires_approval = false;
  metadata = none;
}

abbrev db : Db
db = record { artifacts = []; versions = [] }

background_repair-Checked_example :
    (background_repair
        (λ s. s)
        9
        env
        tools
        (λ a. true)
        3
        true
        "art"
        version_one
        end
        "luau_script"
        db
      ≡ db)
    ⊎ ((c : Content) × (create_new_version (λ s. s) 9 "art" c db
          ≡ ok (
              background_repair
                (λ s. s)
                9
                env
                tools
                (λ a. true)
                3
                true
                "art"
                version_one
                end
                "luau_script"
                db))
        × Checked env tools 3 version_one end "luau_script" c.content)
background_repair-Checked_example =
    background_repair-Checked env tools 3 version_one end "luau_script" (λ s. s) 9 (λ a. true) true
      "art" db
