-- ===== src/Lib.antt =====
-- RiteSmith: the rules that decide which generated artifacts are stored, chosen again, executed,
-- repaired and delegated, and which workflow definitions are accepted.
--
-- The parts and the files that model them (paths from the root of the repository):
--
-- Prelude: Boolean tests, lists of texts read as sets, and their lemmas. Json: values as
-- `json.loads` gives them; a workflow definition, a schema and a `dict` column are such values.
--
-- Policy (ritesmith/core/policy.py): `effective_risk` and `PolicyEngine.evaluate`, whose helper
-- `_decide` is `decide_on`. Policy/Floor is about the risk floor of a runtime profile,
-- Policy/Allowed about what is let through.
--
-- Registry (ritesmith/registry/service.py and models.py): artifacts and versions as lists of rows,
-- with `create_artifact`, `create_new_version`, `update_artifact_status` and
-- `get_artifact_with_version`. A row whose key is taken makes an insertion fail. Registry/Versions
-- holds the consistency of the two tables, Registry/Transitions the status machine
-- `_ALLOWED_TRANSITIONS`.
--
-- Workflow (ritesmith/workflows/validator.py and expressions.py): Shape is `native_shape_errors`,
-- Graph `_v2_successors` and the map of the nodes, Dfs the recursive search of
-- `_detect_v2_cycles`, Cycles the detector, Worklist the loop with a stack, Branches
-- `_branch_sets`, Expressions `expression_errors`, and Validator with its children `_validate_v2`,
-- its node and split rules and its second layer. The two regular expressions that find references
-- in texts are parameters. An error is the kind of its message, not its text. A TypeError of the
-- second layer is `none`. The searches run on fuel: the depth-first search has one unit more than
-- there are nodes that it can enter, a work list one for every entry it can ever hold. Running out
-- is the result `none`, which is shown not to occur.
--
-- Execution (ritesmith/core/execution.py and approval.py): Script is `_run_lua` and what it sets
-- off, Delegated `_run_workflow` and `_bind_to_plan`, Create `create_execution` and
-- `get_execution`; Stamped is about the header that `_bind_to_plan` adds. The state is the tables,
-- the set of artifacts under repair, the background tasks that were started and the audit log. The
-- interpreters, the engine, the hash of the approval token and `json.loads` are parameters
-- (`Environment`). It evaluates the policy of Policy on the version that Registry finds. An error
-- that is raised has no new state, since its transaction is not committed.
--
-- Repair (ritesmith/core/repair.py): `run_repair_loop` over any kind of attempt. Repair/Contract
-- is the background repair of a contract violation, which ends in Registry's `create_new_version`.
-- It recurses on the number of attempts that are left.
--
-- Reuse (ritesmith/core/reuse.py): `check_reuse` and `_judge`; Reuse/Compat is the gate of
-- ritesmith/core/compat.py. The search and the judging model are parameters.
--
-- Idempotency (ritesmith/core/idempotency.py): `check_or_create` and `mark_complete` over the
-- table of keys.
--
-- Plans (ritesmith/core/planning.py, ritesmith/api/routes/plans.py and trama.py): the table of
-- plans over the state of Execution. Lifecycle holds the transitions from `approve_plan` to
-- `persist_artifacts`, Callback `_fire_callback`, Build the loop of `build_plan` over the artifact
-- types and its decisions, which asks Policy, Persist the storing of the artifacts, which calls
-- Registry, Created `build_plan` as a whole and the route `create_plan`, Replans `replan`, Running
-- `trama_execute` and `_auto_execute`, which call Execution. Board is the specification: an
-- abstract board of plan statuses. The analysis of the intent and the generation of an artifact
-- are parameters (`Planner`). A callback makes three attempts; the other loops recurse on lists.
--
-- Spending (ritesmith/llm/spend_budget.py and ritesmith/observability/costs.py): the operations of
-- `SpendBudget` on its state; Spending/Steps is the relation of its steps in any order, with
-- `dispatch`.
--
-- Simulation (ritesmith/workflows/simulation.py): `lookup`, `render` and `logic`; Simulation/Task
-- is the call of a task with its fixture, Simulation/Walk is `WorkflowSimulator.walk` and `run`. A
-- walk recurses on fuel, one more than `max_steps`; every visit of a node counts a step, so that
-- is enough. The functions of ritesmith/runtime/providers/stat.py that it calls and Python's
-- operations are parameters.
--
-- Not modelled: the HTTP interface, the providers and prompts of the language model, the
-- interpreters and host functions, the database driver and migrations, metrics and logs, the
-- generators, the compact forms of workflows, the v1 format of workflows and the listing queries.
-- The v1 format has no shape check, so that its ids are values of every kind; the others are calls
-- of external programs, texts, or services around the parts above.
pub mod Prelude
pub mod Json
pub mod Policy
pub mod Registry
pub mod Workflow
pub mod Execution
pub mod Repair
pub mod Reuse
pub mod Idempotency
pub mod Plans
pub mod Spending
pub mod Simulation
