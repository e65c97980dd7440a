-- ===== src/Client/Call.antt =====
-- `call` (python/ai_protocol/client.py): one operation under one deadline, with five attempts at
-- most. The gate, the service and the dispatcher answer as they like, by what happened before.
pub mod Trace
pub mod Rounds
pub mod Outcome
pub mod Dispatched
use ai_protocol.Base.{
  leb, ◌==◌, if◌then◌else◌, ℕ, zero, suc, ◌+◌, ◌*◌, String, Bool, true, false, not, ◌&&◌, ◌||◌,
  Option, none, some, List, [], ◌∷◌,
}
use ai_protocol.Base.Int.{ℤ, pos, pos_part, ◌-ℤ◌, ltb_ℤ, leb_ℤ}
use ai_protocol.Base.Text.{codes}
use ai_protocol.Result.{
  Exception, Result, ok, err, protocol_error, operation_error, deadline_exceeded, cancelled,
  raise_if, require,
}
use ai_protocol.Json.{Json, null, int, str, obj, end, get, eq_str, str_of, value_of}
use ai_protocol.Regex.{fullmatch, code_pattern}
use ai_protocol.Http.{Jsonschema, Response, is_success, Answer, response, lost}
use ai_protocol.World.{Action, pure, lift, ◌>>=◌, ◌>>◌, finally, gets, modify}
use ai_protocol.Protocol.Retry.{safe_to_retry, retry_delay}
use ai_protocol.Dispatcher.{is_true, Moment, not_finite}
use ai_protocol.Client.Gate.{not_started_error}

pub data Event : Type 0 where
  -- `_acquire` returned, and the `finally` ran.
  acquired : Event
  released : Event
  -- A `POST` of the operation, and what it ended in.
  posted : String → Event
  answered : Answer → Event
  dispatched : Event
  slept : ℕ → Event

-- The local variables of `call`, with the time and the events.
pub record Frame : Type 0 where
  pub now : ℕ
  pub trace : List Event
  pub attempts : ℕ
  pub may_have_executed : Bool

-- `_acquire` raises one of two errors, or returns the descriptor of the operation.
pub data Verdict : Type 0 where
  closed : Verdict
  not_permitted : Verdict
  granted : Json → Verdict

abbrev pub enter : Verdict → Result Json
enter closed = err (not_started_error "client_closed")
enter not_permitted = err (not_started_error "operation_not_permitted")
enter (granted descriptor) = ok descriptor

pub record Surroundings : Type 0 where
  -- The time that the next await takes.
  pub passes : List Event → ℕ
  -- What `_acquire` ends in.
  pub admits : List Event → Verdict
  pub answers : List Event → Answer
  -- The dispatcher's reply, which passed the checks of `DispatcherClient`.
  pub replies : List Event → Json
  pub has_dispatcher : Bool

-- `OperationError(code, execution, …)`, which replaces a code that is no identifier.
abbrev pub is_code : Option Json → Bool
is_code (some (str s)) = fullmatch code_pattern (codes s)
is_code o = false

abbrev pub clean_code : Option Json → String
clean_code o = if is_code o then str_of o else "http_error"

abbrev pub failure : Option Json → String → Json → ℕ → Exception
failure code execution status attempts = operation_error (record {
  code = clean_code code;
  execution = execution;
  status = status;
  attempts = int (pos attempts);
})

abbrev pub expired : String → ℕ → Exception
expired execution attempts = deadline_exceeded (record {
  code = "task_deadline";
  execution = execution;
  status = null;
  attempts = int (pos attempts);
})

-- `response.json().get("error", {})`, and `{}` where that raises.
abbrev pub error_of : Response → Json
error_of r = elim (get (value_of r.body) "error") [ some v ↦ v | none ↦ obj end ]

-- `response.status_code in (400, 401, 403, 404, 405, 413, 415, 422, 429)`
abbrev pub is_refusal : ℕ → Bool
is_refusal status =
    status == 400
    || status == 401
    || status == 403
    || status == 404
    || status == 405
    || status == 413
    || status == 415
    || status == 422
    || status == 429

-- `known`: the service has said that the operation was not started.
unfoldable pub is_known : Response → Bool
is_known r =
    is_refusal r.status
    || r.status == 503
      && (eq_str (get (error_of r) "code") "queue_timeout"
          || eq_str (get (error_of r) "code") "gateway_closed")
      && eq_str (get (error_of r) "execution") "not_started"

abbrev pub execution_word : Bool → String
execution_word may_have_executed = if may_have_executed then "unknown" else "not_started"

-- What the `try` block leaves: a value to return, or a response to look at.
pub data Handled : Type 0 where
  returned : Json → Handled
  responded : Response → Handled

-- `json.dumps(params, allow_nan=False)` did not raise.
abbrev pub is_encoded : Option (List ℕ) → Bool
is_encoded none = false
is_encoded (some text) = true

module _ (env : Surroundings) (expiry : ℕ) where
  -- An await that takes some time; past the expiry the block is interrupted.
  abbrev pub await : Action Frame (Unit {0})
  await f =
      let t = f.now + env.passes f.trace in
      (if leb expiry t then err cancelled else ok tt, record f { now = t })

  abbrev pub note : Event → Frame → Frame
  note e f = record f { trace = e ∷ f.trace }

  -- `await self._acquire(operation)`
  unfoldable pub acquire : Action Frame Json
  acquire = do
    await
    descriptor ← (λ f. (enter (env.admits f.trace), f))
    modify (note acquired)
    pure descriptor

  -- `await self._request("POST", …)`; what is lost was perhaps executed.
  unfoldable pub post : String → Action Frame Response
  post path = do
    modify (note (posted path))
    await
    answer ← gets (λ f. env.answers f.trace)
    modify (note (answered answer))
    elim answer [
      | response r ↦ pure r
      | lost ↦ (λ f. (err (failure (some (str "transport_error")) "unknown" null f.attempts), f))
    ]

  -- `await self._dispatcher.call(…)`, and what becomes of its reply.
  unfoldable pub dispatch : Action Frame Handled
  dispatch = do
    modify (λ f. record f { may_have_executed = true })
    modify (note dispatched)
    await
    reply ← gets (λ f. env.replies f.trace)
    lift (
        require (is_true (get reply "ok")) (
          operation_error (record {
            code = clean_code (get reply "code");
            execution = str_of (get reply "execution");
            status = value_of (get reply "status");
            attempts = value_of (get reply "attempts");
          })))
    pure (returned (value_of (get reply "body")))

  -- The `try` block of an attempt, under its `finally`.
  unfoldable pub attempt_body :
      Jsonschema → (Json → Option (List ℕ)) → Json → Json → ℕ → Action Frame Handled
  attempt_body js dumps params descriptor number = do
    attempts ← gets (λ f. f.attempts)
    lift (
        require
          (js.validates (value_of (get descriptor "input_schema")) params
            && is_encoded (dumps params))
          (failure (some (str "invalid_parameters")) "not_started" null attempts))
    if env.has_dispatcher then dispatch else (do
      modify (λ f. record f { attempts = number; may_have_executed = true })
      r ← post (str_of (get descriptor "path"))
      pure (responded r))

  abbrev pub free : Frame → Frame
  free f = if env.has_dispatcher then f else note released f

  -- `if response.is_success`
  unfoldable pub deliver : Response → Action Frame (Option Json)
  deliver r f = elim r.body [
    | some v ↦ (ok (some v), f)
    | none ↦ (err (failure (some (str "invalid_response")) "unknown" null f.attempts), f)
  ]

  -- The wait before the next iteration (`none`), unless it would pass the deadline.
  unfoldable pub back_off : ℕ → ℕ → Response → Action Frame (Option Json)
  back_off deadline attempts r = do
    seconds ← lift (retry_delay r)
    now ← gets (λ f. f.now)
    lift (raise_if (leb deadline (now + 1000 * seconds)) (expired "not_started" attempts))
    modify (λ f. record f { now = f.now + 1000 * seconds; trace = slept seconds ∷ f.trace })
    await
    pure none

  -- What follows a response that is no success.
  unfoldable pub reject : ℕ → ℕ → Response → Action Frame (Option Json)
  reject deadline number r = do
    modify (λ f. record f { may_have_executed = not (is_known r) })
    attempts ← gets (λ f. f.attempts)
    lift (
        raise_if (not (safe_to_retry r) || number == 5) (
          failure (get (error_of r) "code") (execution_word (not (is_known r))) (int (pos r.status))
            attempts))
    back_off deadline attempts r

  -- The rest of an iteration: return, raise, or wait and go on (`none`).
  unfoldable pub conclude : ℕ → ℕ → Handled → Action Frame (Option Json)
  conclude deadline number (returned v) = pure (some v)
  conclude deadline number (responded r) =
      if is_success r then deliver r else reject deadline number r

  -- One iteration of the loop.
  unfoldable pub attempt_once :
      Jsonschema → (Json → Option (List ℕ)) → Json → ℕ → ℕ → Action Frame (Option Json)
  attempt_once js dumps params deadline number = do
    descriptor ← acquire
    handled ← finally (attempt_body js dumps params descriptor number) free
    conclude deadline number handled

  -- `for number in range(1, 6)`, with the iterations left.
  unfoldable pub attempts_from :
      Jsonschema → (Json → Option (List ℕ)) → Json → ℕ → ℕ → ℕ → Action Frame Json
  attempts_from js dumps params deadline number zero = pure null
  attempts_from js dumps params deadline number (suc left) = do
    outcome ← attempt_once js dumps params deadline number
    elim outcome [
      | some v ↦ pure v
      | none ↦ attempts_from js dumps params deadline (number + 1) left
    ]

-- `except TimeoutError`, the end of `asyncio.timeout`.
abbrev pub on_timeout : Result Json × Frame → Result Json × Frame
on_timeout (ok v, f) = (ok v, f)
on_timeout (err cancelled, f) = (err (expired (execution_word f.may_have_executed) f.attempts), f)
on_timeout (err e, f) = (err e, f)

abbrev pub fresh : ℕ → Frame
fresh n = record { now = n; trace = []; attempts = 0; may_have_executed = false }

-- `call` with a finite duration, from the tests of its range on.
unfoldable pub call_within :
    Surroundings → Jsonschema → (Json → Option (List ℕ)) → Json → ℤ → ℕ → Result Json × Frame
call_within env js dumps params duration n =
    if ltb_ℤ (pos 3600000) duration
    then (err (protocol_error "Invalid task deadline"), fresh n)
    else if leb_ℤ duration (pos 0)
    then (err (expired "not_started" 0), fresh n)
    else on_timeout (
        attempts_from env (n + pos_part duration) js dumps params (n + pos_part duration) 1 5
          (fresh n))

-- The duration of the task at the time `n`: the timeout, or what is left to an absolute deadline.
abbrev pub duration_of : Moment → Option Moment → ℕ → Moment
duration_of timeout none n = timeout
duration_of timeout (some (Moment.finite deadline)) n = Moment.finite (deadline -ℤ pos n)
duration_of timeout (some not_finite) n = not_finite

abbrev pub call_for :
    Surroundings → Jsonschema → (Json → Option (List ℕ)) → Json → ℕ → Moment → Result Json × Frame
call_for env js dumps params n not_finite = (err (protocol_error "Invalid task deadline"), fresh n)
call_for env js dumps params n (Moment.finite duration) = call_within env js dumps params duration n

-- `call`, given whether the client was entered, that is, has a policy or a refresher.
unfoldable pub call :
    Surroundings
    → Jsonschema
    → (Json → Option (List ℕ))
    → Bool
    → Json
    → Moment
    → Option Moment
    → ℕ
    → Result Json × Frame
call env js dumps false params timeout deadline n =
    (err (protocol_error "Enter the client with async with before calling operations"), fresh n)
call env js dumps true params timeout deadline n =
    call_for env js dumps params n (duration_of timeout deadline n)
