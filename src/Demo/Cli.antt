-- ===== src/Demo/Cli.antt =====
-- The command-line clients examples/discover_client.py and examples/dispatch_client.py.
pub mod Asks
use ai_protocol.Base.{if◌then◌else◌, ℕ, zero, suc, String, none, some, List, []}
use ai_protocol.Base.Int.{ℤ, pos, negsuc}
use ai_protocol.Base.Lists.{get_elem?}
use ai_protocol.Result.{Exception, Result, ok, err, system_exit, raise_if}
use ai_protocol.Json.{Json, str, elements, get}
use ai_protocol.Http.{Jsonschema, Answer}
use ai_protocol.World.{Action, World, lift, pure, ◌>>=◌, ◌>>◌}
use ai_protocol.Protocol.Discover.{discover}
use ai_protocol.Protocol.Execute.{Event, Surroundings, execute}
use ai_protocol.Dispatcher.{is_true, Peer, Exchange, Moment, call}
use ai_protocol.Demo.Agent.Choice.{is_empty}

-- What the user types: the number, `none` where `int` raises `ValueError`, and the parameters, which
-- `json.loads` reads.
pub record Typed : Type 0 where
  pub number : Result ℤ
  pub params : Result Json

abbrev pub no_such : Exception
no_such = system_exit (str "No such operation")

-- `operations[number - 1]`, where `1 <= number <= len(operations)`.
abbrev pub pick : List Json → ℤ → Result Json
pick operations (negsuc n) = err no_such
pick operations (pos zero) = err no_such
pick operations (pos (suc i)) = elim (get_elem? operations i) [
  | none ↦ err no_such
  | some operation ↦ ok operation
]

-- Whether `DISPATCH_SOCKET` is set, and what `DispatcherClient().call(operation, params, timeout_s=120)`
-- returns and writes then.
pub data Route : Type 0 where
  direct : Route
  by_dispatcher : (Json → Json → Exchange) → Route

-- The call of `DispatcherClient` by the two programs: no absolute deadline.
module _ (js : Jsonschema) (validate : Json → Json → Result (Unit {0}))
    (dumps : Json → Result (List ℕ)) where
  abbrev pub by_socket : String → String → Moment → ℤ → ℤ → ℤ → Peer → Json → Json → Exchange
  by_socket id token timeout asked now later peer operation params =
      call js validate dumps id token operation params timeout none asked now later peer

-- A reply, with what was written; an exception leaves the program.
abbrev pub Delivery : Type 0
Delivery = Json × List (List ℕ)

abbrev pub delivered : Exchange → Result Delivery
delivered (ok reply, written) = ok (reply, written)
delivered (err e, written) = err e

-- The result, with what was written to the dispatcher.
module _ (env : Surroundings) (js : Jsonschema) where
  abbrev pub run_operation : Route → Json → Json → Action (World Event) Delivery
  run_operation direct operation params = do
    result ← execute env js operation params 120000
    pure (result, [])
  run_operation (by_dispatcher submit_call) operation params =
      lift (delivered (submit_call operation params))

  -- `main` of discover_client.py, given what the request for the policy ended in.
  unfoldable pub discover_main : Answer → Typed → Route → Action (World Event) Delivery
  discover_main policy typed route = do
    operations ← lift (discover js policy)
    lift (
        raise_if (is_empty (elements operations))
          (system_exit (str "No operations are permitted for this token")))
    number ← lift typed.number
    operation ← lift (pick (elements operations) number)
    params ← lift typed.params
    run_operation route operation params

-- `raise SystemExit(0 if result["ok"] else 1)`
abbrev pub exit_status : Json → ℕ
exit_status result = if is_true (get result "ok") then 0 else 1

abbrev pub exit_with : Result Delivery → Result (Delivery × ℕ)
exit_with (err e) = err e
exit_with (ok x) = ok (x, exit_status x.0)

-- dispatch_client.py: the reply, what was written, and the exit status; parameters that cannot be read
-- end the program, and so does an exception that leaves the call.
unfoldable pub dispatch_main :
    (Json → Json → Exchange) → String → Result Json → Result (Delivery × ℕ)
dispatch_main submit_call operation (err e) = err e
dispatch_main submit_call operation (ok params) =
    exit_with (delivered (submit_call (str operation) params))
