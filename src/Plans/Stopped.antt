-- ===== src/Plans/Stopped.antt =====
-- The kill switch of ritesmith/api/routes/trama.py.
use Prim.Native.String.{◌++◌}
use ritesmith.Prelude.{
  ℕ, String, ◌≡◌, refl, true, false, Option, some, List, arith, ◌==◌, eq_refl, text_given, text_or,
  All, Option-cases, inl, inr, [], ◌∷◌,
}
use ritesmith.Json.{Value, Fields}
use ritesmith.Execution.{Environment, Settings, returns}
use ritesmith.Execution.Delegated.{bind_to_plan, url_of}
use ritesmith.Execution.Stamped.{request_in, plan_header, nodes_in, bind_to_plan-IsStamped}
use ritesmith.Plans.{cancelled, State, find_plan, status_eq}
use ritesmith.Plans.Board.{Op, board, run}
use ritesmith.Plans.Ends.{spares, run-ended}
use ritesmith.Plans.Running.{Capability, TramaExecuteRequest, http, is_cancelled, trama_execute}

is_cancelled-board :
    (k : String) (s : State)
    → (k == "") ≡ false
    → board s k ≡ some cancelled
    → is_cancelled (some k) s ≡ true
unfolding is_cancelled status_eq
is_cancelled-board k s given h = elim (Option-cases (find_plan k s.plans)) [
  | inl missing ↦ absurd (ground arith)
  | inr (p, found) ↦ ground arith
]

All-map :
    {P Q : Value → Type 0} → ((v : Value) → P v → Q v) → (vs : List Value) → All P vs → All Q vs
All-map f [] h = tt
All-map f (v ∷ vs) h = (f v h.0, All-map f vs h.1)

-- Once a plan is cancelled, and whatever requests follow in which it is not persisted, a call with the service's token
-- in the name of the plan is answered with the code 409 and changes nothing.
pub trama_execute-cancelled :
    (env : Environment) (settings : Settings) (capabilities : String → Option Capability)
    (exec_id trama_id : String) (now now' : ℕ) (ops : List Op) (req : TramaExecuteRequest)
    (k : String) (s : State)
    → text_given settings.trama_token ≡ true
    → (k == "") ≡ false
    → board s k ≡ some cancelled
    → All (λ op. spares k op ≡ true) ops
    → let s' = (run settings now ops s).1 in
      trama_execute env settings capabilities exec_id trama_id now' req
        ("Bearer " ++ text_or settings.trama_token "")
        (some k)
        s'
      ≡ (http 409, s')
unfolding trama_execute
trama_execute-cancelled env settings capabilities exec_id trama_id now now' ops req k s token given
      h spared =
    let stays = run-ended settings now k ops cancelled s refl spared h in
    rw
      (
        token,
        eq_refl ("Bearer " ++ text_or settings.trama_token ""),
        is_cancelled-board k ((run settings now ops s).1) given stays,
      )
      refl

-- Let a definition be bound to a plan, and the plan be cancelled. Whatever requests follow in
-- which the plan is not persisted, a call with the token of the service and the header of an
-- action of a node of the bound definition that addresses the service is answered with the code
-- 409 and changes nothing.
pub bind_to_plan-cancelled :
    (env : Environment) (settings : Settings) (capabilities : String → Option Capability)
    (exec_id trama_id : String) (now now' : ℕ) (ops : List Op) (req : TramaExecuteRequest)
    (k : String) (public_url : Option String) (definition sent : Fields) (s : State)
    → bind_to_plan env k public_url definition ≡ returns sent
    → text_given settings.trama_token ≡ true
    → (k == "") ≡ false
    → board s k ≡ some cancelled
    → All (λ op. spares k op ≡ true) ops
    → let s' = (run settings now ops s).1 in
      All
        (λ node.
          (r : Fields)
          → request_in node ≡ some r
          → env.mentions_execute (url_of env k r) ≡ true
          → trama_execute env settings capabilities exec_id trama_id now' req
              ("Bearer " ++ text_or settings.trama_token "")
              (plan_header r)
              s'
            ≡ (http 409, s'))
        (nodes_in sent)
bind_to_plan-cancelled env settings capabilities exec_id trama_id now now' ops req k public_url
      definition sent s bound_so token given h spared =
    All-map
      (λ node stamped r is calls. rw (stamped r is calls) (
        trama_execute-cancelled env settings capabilities exec_id trama_id now now' ops req k s
          token given h spared))
      (nodes_in sent) (bind_to_plan-IsStamped env k public_url definition sent bound_so)
