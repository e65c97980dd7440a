-- ===== src/Demo/Sdk.antt =====
-- examples/sdk_client.py: one call of the adaptive client, once it is entered. What the user types and
-- the call itself, with `timeout=120`, are given by what they end in.
use ai_protocol.Base.{◌≡◌, refl, true, Option, List, [], ◌∷◌}
use ai_protocol.Result.{Failure, Result, ok, err, operation_error, deadline_exceeded}
use ai_protocol.Json.{Json, get, value_of}
use ai_protocol.Client.Gate.{Gate, begin_enter, end_enter, aclose}

-- What is printed: the operations, the result of the call, or the text of an `OperationError`.
pub data Printed : Type 0 where
  operations : Json → Printed
  result : Json → Printed
  problem : Failure → Printed

-- The end of the program, with what it printed, the first line first.
abbrev pub Session : Type 0
Session = Result (Unit {0}) × List Printed

-- `except OperationError`, which `DeadlineExceeded` is too.
abbrev pub print_call : Json → Result Json → Session
print_call shown (ok v) = (ok tt, operations shown ∷ result v ∷ [])
print_call shown (err (operation_error e)) = (ok tt, operations shown ∷ problem e ∷ [])
print_call shown (err (deadline_exceeded e)) = (ok tt, operations shown ∷ problem e ∷ [])
print_call shown (err e) = (err e, operations shown ∷ [])

-- The body of `async with`, from the operations on.
abbrev pub sdk_body : Json → Result Json → Result Json → Session
sdk_body shown (err e) outcome = (err e, operations shown ∷ [])
sdk_body shown (ok params) outcome = print_call shown outcome

-- The body and `__aexit__`, by how `__aenter__` ended.
abbrev pub within : Result Json → Result Json → Result (Unit {0}) × Gate → Session × Gate
within params outcome (err e, g) = ((err e, []), g)
within params outcome (ok u, g) =
    (sdk_body (value_of (get (value_of g.policy) "operations")) params outcome, aclose g)

-- `main`: the client is entered, by a refresh that ends in some way, and closed whatever the body does.
unfoldable pub sdk_main :
    Gate → Result (Option Json) × Gate → Result Json → Result Json → Session × Gate
sdk_main fresh refreshed params outcome = elim (begin_enter fresh) [
  | err e ↦ ((err e, []), fresh)
  | ok u ↦ within params outcome (end_enter refreshed)
]

-- A client that could be entered is closed in the end, however its refresh, the user and the call end.
sdk_main_closed :
    (fresh : Gate) (refreshed : Result (Option Json) × Gate) (params outcome : Result Json)
    → begin_enter fresh ≡ ok tt
    → (sdk_main fresh refreshed params outcome).1.closed ≡ true
unfolding sdk_main end_enter aclose
sdk_main_closed fresh (ok policy, g) params outcome h = rw (h, sdk_main) refl
sdk_main_closed fresh (err e, g) params outcome h = rw (h, sdk_main) refl
