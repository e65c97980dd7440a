-- ===== src/Demo/Until.antt =====
-- `until` (examples/service_integration_demo.py), and the loops of examples/dynamic_demo.py and
-- examples/queue_demo.py that wait for the gateway. Times are in milliseconds.
pub mod Ends
use ai_protocol.Base.{
  ltb, leb, ◌==◌, if◌then◌else◌, ℕ, zero, suc, ◌+◌, Bool, true, false, ◌||◌, Option, none, some,
}
use ai_protocol.Result.{
  Exception, Result, ok, err, runtime_error, timeout_error, http_error, os_error,
}

-- What the loop finds at a time: whether one of the processes has exited, what `check` ends in, and
-- how long that takes.
pub record Surroundings : Type 0 where
  pub has_exited : ℕ → Bool
  pub check : ℕ → Result Bool
  pub takes : ℕ → ℕ

-- `except (httpx.TransportError, OSError)`
abbrev pub is_transient : Exception → Bool
is_transient http_error = true
is_transient os_error = true
is_transient e = false

-- How the loop ends, and when; `none` is fuel that ran out.
abbrev pub Outcome : Type 0
Outcome = Option (Result (Unit {0}) × ℕ)

-- The rest of an iteration, by what `check` ended in, and when it ended.
abbrev pub after_check : Result Bool → ℕ → Outcome → Outcome
after_check (ok true) ended again = some (ok tt, ended)
after_check (ok false) ended again = again
after_check (err e) ended again = if is_transient e then again else some (err e, ended)

module _ (env : Surroundings) where
  unfoldable pub until_from : ℕ → ℕ → ℕ → Outcome
  until_from zero deadline now = none
  until_from (suc fuel) deadline now =
      let again = until_from fuel deadline (now + env.takes now + 30) in
      if ltb now deadline
      then (if env.has_exited now
          then some (err (runtime_error "An owned demo process exited; inspect output logs"), now)
          else after_check (env.check now) (now + env.takes now) again)
      else some (err (timeout_error "Demo startup or cleanup deadline exceeded"), now)

  -- Ten seconds hold at most 334 waits of 30 ms.
  unfoldable pub until : ℕ → Outcome
  until start = until_from 335 (start + 10000) start

-- The gateway that a demonstration started: whether it has exited, its answer to a request without
-- a token (a status, or a transport error), and how long that takes, by time.
pub record Gateway : Type 0 where
  pub has_exited : ℕ → Bool
  pub answer : ℕ → Option ℕ
  pub takes : ℕ → ℕ

abbrev pub is_up : Option ℕ → Bool
is_up (some status) = status == 401
is_up none = false

module _ (g : Gateway) where
  -- `while True` of `main` in dynamic_demo.py.
  unfoldable pub await_gateway : ℕ → ℕ → ℕ → Outcome
  await_gateway zero deadline now = none
  await_gateway (suc fuel) deadline now =
      let again = await_gateway fuel deadline (now + g.takes now + 50) in
      if g.has_exited now || leb deadline now
      then some (err (runtime_error "Gateway did not become ready; build the binaries first"), now)
      else if is_up (g.answer now)
      then some (ok tt, now + g.takes now)
      else again

  -- `for _ in range(100)` of `main` in queue_demo.py, with the iterations left.
  unfoldable pub await_private_gateway : ℕ → ℕ → Result ℕ
  await_private_gateway zero now = err (runtime_error "Private gateway did not become ready")
  await_private_gateway (suc left) now =
      let again = await_private_gateway left (now + g.takes now + 50) in
      if g.has_exited now
      then err (runtime_error "Private gateway failed to start; build the binaries first")
      else if is_up (g.answer now)
      then ok (now + g.takes now)
      else again

  -- Ten seconds hold at most 200 waits of 50 ms.
  unfoldable pub await_ready : ℕ → Outcome
  await_ready start = await_gateway 201 (start + 10000) start
