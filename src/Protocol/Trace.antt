-- ===== src/Protocol/Trace.antt =====
-- What may be read off the events of `execute`: how often it asked the service, that it repeated
-- only what it may, and that it kept to the deadline.
use ai_protocol.Base.{ℕ, suc, ◌+◌, ◌*◌, ◌≤◌, ◌<◌, ◌≡◌, Bool, true, false, List, [], ◌∷◌}
use ai_protocol.Http.{response, lost}
use ai_protocol.Protocol.Retry.{safe_to_retry}
use ai_protocol.Protocol.Execute.{Event, clock_read, request, answered, slept}

abbrev pub requests : List Event → ℕ
requests [] = 0
requests (request path timeout ∷ t) = suc (requests t)
requests (clock_read n ∷ t) = requests t
requests (answered a ∷ t) = requests t
requests (slept n ∷ t) = requests t

-- No request was made, or the service refused the last one in a way that permits another.
abbrev pub may_send : List Event → Bool
may_send [] = true
may_send (answered (response r) ∷ t) = safe_to_retry r
may_send (answered lost ∷ t) = false
may_send (request path timeout ∷ t) = false
may_send (clock_read n ∷ t) = may_send t
may_send (slept n ∷ t) = may_send t

-- Every request was one that could be made.
abbrev pub RetriesSafely : List Event → Type 0
RetriesSafely [] = Unit
RetriesSafely (request path timeout ∷ t) = (may_send t ≡ true) × RetriesSafely t
RetriesSafely (clock_read n ∷ t) = RetriesSafely t
RetriesSafely (answered a ∷ t) = RetriesSafely t
RetriesSafely (slept n ∷ t) = RetriesSafely t

-- The last reading of the clock.
abbrev pub last_read : List Event → ℕ
last_read [] = 0
last_read (clock_read n ∷ t) = n
last_read (request path timeout ∷ t) = last_read t
last_read (answered a ∷ t) = last_read t
last_read (slept n ∷ t) = last_read t

-- The timeout of every request is 30 seconds at most, and ends by the deadline; every wait, counted from
-- the reading before it, ends before the deadline.
abbrev pub Timely : ℕ → List Event → Type 0
Timely deadline [] = Unit
Timely deadline (request path timeout ∷ t) =
    (0 < timeout) × (timeout ≤ 30000) × (last_read t + timeout ≤ deadline) × Timely deadline t
Timely deadline (slept n ∷ t) = (last_read t + 1000 * n < deadline) × Timely deadline t
Timely deadline (clock_read n ∷ t) = Timely deadline t
Timely deadline (answered a ∷ t) = Timely deadline t
