-- ===== src/Checks/Operations.antt =====
-- scripts/check_operations.py: how a gateway that is told to stop has to behave. What the process
-- does is an argument; times are in milliseconds.
pub mod Logs
use ai_protocol.Base.{
  ltb, ◌==◌, str_eq, ℕ, Bool, true, false, not, ◌&&◌, Option, none, some, List, [], ◌∷◌,
}
use ai_protocol.Base.Lines.{split_lines}
use ai_protocol.Base.Search.{contains}
use ai_protocol.Base.Text.{codes}
use ai_protocol.Result.{
  timeout_error, http_error, assertion_error, Result, ok, err, ◌>>=◌, ◌>>◌, raise_if, require,
}
use ai_protocol.Json.{Json, bool, obj, end, field, is_obj}
use ai_protocol.Release.Name.{Text}

-- A gateway with a bad configuration: its exit status, and what it writes.
pub record Refusal : Type 0 where
  pub status : ℕ
  pub errors : Text

unfoldable pub check_refusal : Text → Refusal → Result (Unit {0})
check_refusal token r = do
  require (r.status == 1 && contains (codes "format_version") r.errors)
      (assertion_error "format_version")
  require (not (contains token r.errors)) (assertion_error "token")

-- A gateway that is told to stop while a request is under way: whether it starts, and the upstream
-- request does; when it exits, after the signal, and with which status; what the request ends in;
-- and what it wrote.
pub record Run : Type 0 where
  pub ready : Bool
  pub upstream_started : Bool
  pub exits_after : Option (ℕ × ℕ)
  pub result : Result Json
  pub output : Text

-- `process.wait(timeout=…) == status`
abbrev pub exits_with : ℕ → ℕ → Option (ℕ × ℕ) → Result (Unit {0})
exits_with timeout status none = err (timeout_error "TimeoutExpired")
exits_with timeout status (some (t, s)) =
    raise_if (ltb timeout t) (timeout_error "TimeoutExpired")
    >> require (s == status) (assertion_error "exit status")

-- `== {"ok": True}`
abbrev pub is_ok_body : Json → Bool
is_ok_body (obj (field k (bool b) end)) = str_eq k "ok" && b
is_ok_body v = false

-- `assert time.monotonic() - before < 3`
abbrev pub exits_before : ℕ → Option (ℕ × ℕ) → Result (Unit {0})
exits_before limit none = err (timeout_error "TimeoutExpired")
exits_before limit (some (t, s)) = require (ltb t limit) (assertion_error "grace")

-- `except httpx.TransportError: pass`
abbrev pub ignore_lost : Result Json → Result (Unit {0})
ignore_lost (ok v) = ok tt
ignore_lost (err http_error) = ok tt
ignore_lost (err e) = err e

unfoldable pub check_stop : Bool → Run → Result (Unit {0})
check_stop true r = do
  body ← r.result
  require (is_ok_body body) (assertion_error "body")
  exits_with 5000 0 r.exits_after
check_stop false r = do
  exits_with 3000 1 r.exits_after
  exits_before 3000 r.exits_after
  ignore_lost r.result

-- `for line in output.splitlines(): assert isinstance(json.loads(line), dict)`
unfoldable pub check_lines : (Text → Result Json) → List Text → Result (Unit {0})
check_lines loads [] = ok tt
check_lines loads (l ∷ ls) = do
  v ← loads l
  require (is_obj (some v)) (assertion_error "log line")
  check_lines loads ls

abbrev pub private_input : Text
private_input = codes "private-request-input"

-- One round of the loop over the two grace periods.
unfoldable pub check_run : (Text → Result Json) → Text → Bool → Run → Result (Unit {0})
check_run loads token graceful r = do
  require r.ready (assertion_error "Gateway startup timed out")
  require r.upstream_started (assertion_error "Upstream execution did not start")
  check_stop graceful r
  require (not (contains token r.output) && not (contains private_input r.output))
      (assertion_error "private")
  check_lines loads (split_lines r.output)

unfoldable pub check_operations :
    (Text → Result Json) → Text → Refusal → Run → Run → Result (Unit {0})
check_operations loads token refusal patient hasty = do
  check_refusal token refusal
  check_run loads token true patient
  check_run loads token false hasty
