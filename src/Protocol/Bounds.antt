-- ===== src/Protocol/Bounds.antt =====
-- `execute` makes five requests at most, repeats only what the service refused safely, and keeps to
-- its deadline.
use ai_protocol.Base.{ℕ, zero, suc, ◌+◌, ◌≤◌, ◌<◌, ◌≡◌, true, none, some, List, [], ◌∷◌, arith}
use ai_protocol.Result.{ok}
use ai_protocol.Json.{Json, get, value_of}
use ai_protocol.Http.{Jsonschema, is_success, response}
use ai_protocol.World.{World}
use ai_protocol.Protocol.Operation.{validate_operation}
use ai_protocol.Protocol.Execute.{
  Event, clock_read, answered, Surroundings, monotonic, send, sleep, back_off, finish, attempt_once,
  attempts, execute,
}
use ai_protocol.Protocol.Trace.{requests, may_send, RetriesSafely, Timely}

-- What `w'` adds to a trace that allowed a request, at attempt number `k`.
abbrev Kept : ℕ → ℕ → World Event → World Event → Type 0
Kept deadline k w w' =
    RetriesSafely w'.trace × Timely deadline w'.trace × (requests w'.trace ≤ requests w.trace + k)

-- The value is the body of a success that was answered last, in time.
abbrev pub Delivers : ℕ → Json → List Event → Type 0
Delivers deadline v (clock_read n ∷ answered (response r) ∷ rest) =
    (is_success r ≡ true) × (r.body ≡ some v) × (n < deadline)
Delivers deadline v t = ⊥

module _ (env : Surroundings) where
  attempt_once_lem :
      (operation : Json) (deadline attempt : ℕ) (w : World Event)
      → may_send w.trace ≡ true
      → RetriesSafely w.trace
      → Timely deadline w.trace
      → Kept deadline 1 w (attempt_once env operation deadline attempt w).1
  unfolding attempt_once monotonic send back_off finish sleep
  attempt_once_lem operation deadline attempt w m r t = ground arith

  -- Only an iteration before the fifth goes on, and then another request may be made.
  attempt_once-continue :
      (operation : Json) (deadline attempt : ℕ) (w : World Event)
      → (attempt_once env operation deadline attempt w).0 ≡ ok none
      → (may_send (attempt_once env operation deadline attempt w).1.trace ≡ true) × (attempt < 5)
  unfolding attempt_once monotonic send back_off finish sleep
  attempt_once-continue operation deadline attempt w h = ground arith

  attempt_once-return :
      (operation : Json) (deadline attempt : ℕ) (w : World Event) (v : Json)
      → (attempt_once env operation deadline attempt w).0 ≡ ok (some v)
      → Delivers deadline v (attempt_once env operation deadline attempt w).1.trace
  unfolding attempt_once monotonic send back_off finish sleep
  attempt_once-return operation deadline attempt w v h = ground arith

  attempts_bounds :
      (operation : Json) (deadline attempt left : ℕ) (w : World Event)
      → may_send w.trace ≡ true
      → RetriesSafely w.trace
      → Timely deadline w.trace
      → Kept deadline left w (attempts env operation deadline attempt left w).1
  unfolding attempts
  attempts_bounds operation deadline attempt zero w m r t = ground arith
  attempts_bounds operation deadline attempt (suc left) w m r t =
      let w' = (attempt_once env operation deadline attempt w).1 in
      ground (
        arith,
        attempt_once_lem operation deadline attempt w m r t,
        attempt_once-continue operation deadline attempt w,
        attempts_bounds operation deadline (attempt + 1) left w',
      )

  attempts-return :
      (operation : Json) (deadline attempt left : ℕ) (w : World Event) (v : Json)
      → 5 < attempt + left
      → (attempts env operation deadline attempt left w).0 ≡ ok v
      → attempt ≤ 5
      → Delivers deadline v (attempts env operation deadline attempt left w).1.trace
  unfolding attempts
  attempts-return operation deadline attempt zero w v e h k = absurd (omega arith)
  attempts-return operation deadline attempt (suc left) w v e h k =
      let w' = (attempt_once env operation deadline attempt w).1 in
      ground (
        arith,
        attempt_once-return operation deadline attempt w v,
        attempt_once-continue operation deadline attempt w,
        attempts-return operation deadline (attempt + 1) left w' v,
      )

  abbrev pub began : ℕ → World Event
  began n = record { now = n; trace = [] }

  -- From a fresh start, however the call ends and whatever the service answers: every request but
  -- the first follows an answer after which the operation may be repeated; there are five requests
  -- at most; the timeout that is given to a request is at most what is left until the deadline (the
  -- HTTP client applies it to each phase of a request); and no wait is begun that lasts beyond it.
  pub execute_bounds :
      (js : Jsonschema) (operation params : Json) (task_timeout n : ℕ)
      → let t = (execute env js operation params task_timeout (began n)).1.trace in
        RetriesSafely t × (requests t ≤ 5) × Timely (n + env.passes [] + task_timeout) t
  unfolding execute monotonic
  execute_bounds js operation params task_timeout n = ground (
    arith,
    attempts_bounds operation (n + env.passes [] + task_timeout) 1 5
        (record { now = n + env.passes []; trace = clock_read (n + env.passes []) ∷ [] }),
  )

  -- What is returned is the body of the last answer, a success read before the deadline.
  pub execute-Delivers :
      (js : Jsonschema) (operation params : Json) (task_timeout n : ℕ) (v : Json)
      → (execute env js operation params task_timeout (began n)).0 ≡ ok v
      → Delivers
          (n + env.passes [] + task_timeout)
          v
          (execute env js operation params task_timeout (began n)).1.trace
  unfolding execute monotonic
  execute-Delivers js operation params task_timeout n v h = ground (
    arith,
    attempts-return operation (n + env.passes [] + task_timeout) 1 5
        (record { now = n + env.passes []; trace = clock_read (n + env.passes []) ∷ [] }) v
        (omega arith),
  )

  -- A request goes out only for a descriptor and parameters that passed validation.
  pub execute_validates :
      (js : Jsonschema) (operation params : Json) (task_timeout n : ℕ)
      → 0 < requests (execute env js operation params task_timeout (began n)).1.trace
      → (validate_operation js operation ≡ ok tt)
        × (js.validates (value_of (get operation "input_schema")) params ≡ true)
  unfolding execute
  execute_validates js operation params task_timeout n h = ground arith
