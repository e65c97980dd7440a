-- ===== src/Dispatcher.antt =====
-- python/ai_protocol/dispatcher.py: the connector to the local dispatcher. A call submits its
-- request at most once, and never repeats one whose outcome it does not know.
pub mod Replies
use ai_protocol.Base.{
  ltb, str_eq, if◌then◌else◌, ℕ, ◌*◌, String, Bool, true, false, not, ◌&&◌, ◌||◌, Option, none,
  some, List, [], ◌∷◌, ◌++◌,
}
use ai_protocol.Base.Int.{ℤ, pos, ◌+ℤ◌, ltb_ℤ, leb_ℤ}
use ai_protocol.Base.Text.{codes}
use ai_protocol.Base.Lists.{length}
use ai_protocol.Result.{
  Exception, value_error, protocol_error, timeout_error, schema_error, validation_error, type_error,
  os_error, Result, ok, err, ◌>>=◌, ◌>>◌, raise_if, require,
}
use ai_protocol.Json.{
  Json, null, bool, int, str, obj, end, field, lookup, get, is_obj, is_str, is_bool, is_null,
  eq_str, int_within, int_at_least, value_of,
}
use ai_protocol.Regex.{fullmatch, operation_pattern}
use ai_protocol.Http.{Jsonschema}
use ai_protocol.Protocol.Operation.{validate_operation}

abbrev pub max_frame : ℕ
max_frame = 64 * 1024

-- `error(code, execution)`
abbrev pub error_reply : String → String → Json
error_reply code execution = obj (
    field "ok" (bool false) (
      field "code" (str code) (
        field "execution" (str execution) (
          field "attempts" (if str_eq execution "unknown" then null else int (pos 0))
            (field "status" null (field "body" null end))))))

abbrev pub is_true : Option Json → Bool
is_true (some (bool b)) = b
is_true o = false

-- `reply.get("execution") in ("completed", "not_started", "unknown")`
abbrev pub is_execution : Option Json → Bool
is_execution o = eq_str o "completed" || eq_str o "not_started" || eq_str o "unknown"

-- The test behind "Invalid dispatcher reply".
unfoldable pub has_reply_fields : Json → Bool
has_reply_fields reply =
    is_obj (some reply)
    && is_bool (get reply "ok")
    && is_str (get reply "code")
    && is_execution (get reply "execution")

abbrev pub is_given : Option Json → Bool
is_given o = not (is_null o)

-- `"body" in reply`
abbrev pub is_present : Option Json → Bool
is_present none = false
is_present (some v) = true

-- The test behind "Inconsistent dispatcher reply".
unfoldable pub is_inconsistent : Json → Bool
is_inconsistent reply =
    is_given (get reply "attempts") && not (int_at_least (pos 0) (get reply "attempts"))
    || is_true (get reply "ok")
      && (not (eq_str (get reply "execution") "completed")
          || not (is_present (get reply "body"))
          || not (int_within (pos 200) (pos 299) (get reply "status")))
    || not (is_true (get reply "ok")) && eq_str (get reply "execution") "completed"

-- The line that the dispatcher sends back: its length, whether a line feed ends it, and what
-- `json.loads` makes of it, which may raise what is no `ValueError`.
pub record Line : Type 0 where
  pub size : ℕ
  pub terminated : Bool
  pub parsed : Result Json

-- How the other side behaves within the time that is left: no connection; a connection that is lost,
-- or stays silent too long, after it was opened; or a line.
pub data Peer : Type 0 where
  unreachable : Peer
  silent : Peer
  line : Line → Peer

-- `exchange`, from the line that was read on.
unfoldable pub read_reply : Line → Result Json
read_reply l = do
  raise_if (ltb max_frame l.size || not l.terminated) (value_error "Incomplete dispatcher reply")
  reply ← l.parsed
  require (has_reply_fields reply) (value_error "Invalid dispatcher reply")
  raise_if (is_inconsistent reply) (value_error "Inconsistent dispatcher reply")
  ok reply

-- How a call ends, with the payloads that it wrote.
abbrev pub Exchange : Type 0
Exchange = Result Json × List (List ℕ)

-- `except (OSError, ValueError, asyncio.TimeoutError)`
abbrev pub is_lost : Exception → Bool
is_lost os_error = true
is_lost (value_error m) = true
is_lost (protocol_error m) = true
is_lost (timeout_error m) = true
is_lost e = false

abbrev pub lost_reply : Json
lost_reply = error_reply "dispatcher_response_lost" "unknown"

-- The `except` clause, once the connection is open.
abbrev pub received : List ℕ → Result Json → Exchange
received payload (ok reply) = (ok reply, payload ∷ [])
received payload (err e) = (if is_lost e then ok lost_reply else err e, payload ∷ [])

-- `exchange` under its handlers. A payload is written as soon as the connection is open.
unfoldable pub exchange : List ℕ → Peer → Exchange
exchange payload unreachable = (ok (error_reply "dispatcher_unavailable" "not_started"), [])
exchange payload silent = (ok lost_reply, payload ∷ [])
exchange payload (line l) = received payload (read_reply l)

-- An absolute deadline or a timeout, in milliseconds; a float may not be finite.
pub data Moment : Type 0 where
  finite : ℤ → Moment
  not_finite : Moment

-- `operation`, which is a name or a descriptor; `validate schema params` is
-- `Draft202012Validator(schema).validate(params)`, which may raise more than a `ValidationError`.
abbrev pub checked_name : Jsonschema → (Json → Json → Result (Unit {0})) → Json → Json → Result Json
checked_name js validate (obj fs) params = do
  validate_operation js (obj fs)
  validate (value_of (lookup "input_schema" fs)) params
  ok (value_of (lookup "name" fs))
checked_name js validate operation params = ok operation

-- `isinstance(operation, str) and re.fullmatch(…, operation)`
abbrev pub is_operation_name : Json → Bool
is_operation_name (str s) = fullmatch operation_pattern (codes s)
is_operation_name v = false

abbrev pub invalid : Exchange
invalid = (ok (error_reply "invalid_dispatch_request" "not_started"), [])

abbrev pub expired : Exchange
expired = (ok (error_reply "task_deadline" "not_started"), [])

-- `except (ValueError, jsonschema.ValidationError, jsonschema.SchemaError)`
abbrev pub is_refused : Exception → Bool
is_refused (value_error m) = true
is_refused (protocol_error m) = true
is_refused validation_error = true
is_refused schema_error = true
is_refused e = false

-- `except (TypeError, ValueError)`
abbrev pub is_unencodable : Exception → Bool
is_unencodable type_error = true
is_unencodable (value_error m) = true
is_unencodable (protocol_error m) = true
is_unencodable e = false

-- The two `except` clauses before anything is written: what they do not name leaves the call.
abbrev pub refused : (Exception → Bool) → Exception → Exchange
refused is_named e = if is_named e then invalid else (err e, [])

-- The end of `call`: the encoded message, which `json.dumps` may refuse, is measured, and the
-- deadline is looked at again before the exchange.
abbrev pub submit_text : Result (List ℕ) → ℤ → ℤ → Peer → Exchange
submit_text (err e) deadline later peer = refused is_unencodable e
submit_text (ok text) deadline later peer =
    let payload = text ++ 10 ∷ [] in
    if ltb max_frame (length payload)
    then invalid
    else if leb_ℤ deadline later
    then expired
    else exchange payload peer

abbrev pub message : String → String → Json → Json → ℤ → Json
message id token operation params deadline = obj (
    field "id" (str id) (
      field "token" (str token) (
        field "operation" operation
          (field "params" params (field "deadline_unix_ms" (int deadline) end)))))

-- `call`, from the check of the operation on.
abbrev pub submit :
    (Json → Result (List ℕ)) → (Json → Json) → Result Json → ℤ → ℤ → ℤ → Peer → Exchange
submit dumps message_of (err e) deadline now later peer = refused is_refused e
submit dumps message_of (ok name) deadline now later peer =
    if ltb_ℤ (now +ℤ pos 3600000) deadline || not (is_operation_name name)
    then invalid
    else submit_text (dumps (message_of name)) deadline later peer

-- `deadline_unix_ms if deadline_unix_ms is not None else (time.time() + timeout_s) * 1000`, asked at
-- a time.
abbrev pub deadline_of : Moment → Option Moment → ℤ → Moment
deadline_of timeout (some deadline) asked = deadline
deadline_of (finite timeout) none asked = finite (asked +ℤ timeout)
deadline_of not_finite none asked = not_finite

module _ (js : Jsonschema) (validate : Json → Json → Result (Unit {0}))
    (dumps : Json → Result (List ℕ)) where
  -- The rest of `call`, with its deadline: `now` and `later` are its other readings of the clock.
  unfoldable pub call_until : String → String → Json → Json → Moment → ℤ → ℤ → Peer → Exchange
  call_until id token operation params not_finite now later peer = invalid
  call_until id token operation params (finite deadline) now later peer =
      if leb_ℤ deadline now
      then expired
      else submit dumps (λ name. message id token name params deadline)
          (checked_name js validate operation params) deadline now later peer

  -- `DispatcherClient.call`, with the text of a fresh identifier, and its readings of the clock.
  unfoldable pub call :
      String → String → Json → Json → Moment → Option Moment → ℤ → ℤ → ℤ → Peer → Exchange
  call id token operation params timeout deadline asked now later peer =
      call_until id token operation params (deadline_of timeout deadline asked) now later peer
