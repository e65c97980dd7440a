-- ===== src/Protocol/Execute.antt =====
-- `execute` (python/ai_protocol/protocol.py): one operation, at most five attempts, one deadline.
use ai_protocol.Base.{
  ltb, leb, if◌then◌else◌, ℕ, zero, suc, ◌+◌, ◌-◌, ◌*◌, min, String, ◌&&◌, Option, none, some, List,
  ◌∷◌,
}
use ai_protocol.Result.{ok, err, timeout_error, http_error, raise_if}
use ai_protocol.Json.{Json, null, get, str_of, value_of}
use ai_protocol.Http.{
  Jsonschema, validate_instance, Response, raise_for_status, json, Answer, response, lost,
}
use ai_protocol.World.{World, Action, pure, lift, ◌>>=◌, ◌>>◌}
use ai_protocol.Protocol.Operation.{validate_operation}
use ai_protocol.Protocol.Retry.{safe_to_retry, retry_delay}

-- What the loop does to the outside.
pub data Event : Type 0 where
  clock_read : ℕ → Event
  -- The path and the timeout.
  request : String → ℕ → Event
  answered : Answer → Event
  slept : ℕ → Event

-- The surroundings: how long each step takes, and the service's answers, by what happened before.
pub record Surroundings : Type 0 where
  pub passes : List Event → ℕ
  pub answers : List Event → Answer

module _ (env : Surroundings) where
  -- Time goes on while an event is added.
  abbrev pub log : Event → World Event → World Event
  log e w = record { now = w.now + env.passes w.trace; trace = e ∷ w.trace }

  -- `time.monotonic()`
  unfoldable pub monotonic : Action (World Event) ℕ
  monotonic w =
      let t = w.now + env.passes w.trace in
      (ok t, record { now = t; trace = clock_read t ∷ w.trace })

  -- `client.request(…)`
  unfoldable pub send : String → ℕ → Action (World Event) Response
  send path timeout w =
      let sent = log (request path timeout) w in
      let answer = env.answers sent.trace in
      let heard = log (answered answer) sent in
      elim answer [ response r ↦ (ok r, heard) | lost ↦ (err http_error, heard) ]

  -- `time.sleep(seconds)`
  unfoldable pub sleep : ℕ → Action (World Event) (Unit {0})
  sleep seconds w = (
    ok tt,
    record { now = w.now + 1000 * seconds + env.passes w.trace; trace = slept seconds ∷ w.trace },
  )

  -- The two ends of an iteration: `continue` after a wait, or the result.
  unfoldable pub back_off : ℕ → Response → Action (World Event) (Option Json)
  back_off deadline r = do
    seconds ← lift (retry_delay r)
    now ← monotonic
    lift (
        raise_if (leb deadline (now + 1000 * seconds))
          (timeout_error "Retry-After exceeds the operation deadline"))
    sleep seconds
    pure none

  unfoldable pub finish : Response → Action (World Event) (Option Json)
  finish r = do lift (raise_for_status r); v ← lift (json r); pure (some v)

  -- One iteration of the loop; `none` is `continue`.
  unfoldable pub attempt_once : Json → ℕ → ℕ → Action (World Event) (Option Json)
  attempt_once operation deadline attempt = do
    now ← monotonic
    lift (raise_if (leb deadline now) (timeout_error "Operation deadline exceeded"))
    r ← send (str_of (get operation "path")) (min 30000 (deadline - now))
    later ← monotonic
    lift (raise_if (leb deadline later) (timeout_error "Operation deadline exceeded"))
    if safe_to_retry r && ltb attempt 5 then back_off deadline r else finish r

  -- `for attempt in range(1, 6)`, with the iterations left; a loop that runs out returns `None`.
  unfoldable pub attempts : Json → ℕ → ℕ → ℕ → Action (World Event) Json
  attempts operation deadline attempt zero = pure null
  attempts operation deadline attempt (suc left) = do
    outcome ← attempt_once operation deadline attempt
    elim outcome [ some v ↦ pure v | none ↦ attempts operation deadline (attempt + 1) left ]

  unfoldable pub execute : Jsonschema → Json → Json → ℕ → Action (World Event) Json
  execute js operation params task_timeout = do
    lift (validate_operation js operation)
    lift (validate_instance js (value_of (get operation "input_schema")) params)
    start ← monotonic
    attempts operation (start + task_timeout) 1 5
