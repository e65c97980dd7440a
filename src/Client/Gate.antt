-- ===== src/Client/Gate.antt =====
-- The state of `AsyncClient` (python/ai_protocol/client.py) and its methods, each cut where it
-- awaits. The lock of `self._condition` is never held across an await, so a section under it is one
-- step. Notifications only make waiting tasks look again, which they may do at any time here.
use ai_protocol.Base.{
  str_eq, if◌then◌else◌, ℕ, ◌+◌, ◌-◌, String, Bool, true, false, not, ◌&&◌, ◌||◌, Option, none,
  some, List, [],
}
use ai_protocol.Base.Int.{ℤ, pos, ltb_ℤ}
use ai_protocol.Base.Lists.{first}
use ai_protocol.Result.{
  Exception, protocol_error, operation_error, cancelled, Result, ok, err, is_ok, ◌>>◌, raise_if,
  require,
}
use ai_protocol.Json.{Json, null, int, get, int_of, value_of}
use ai_protocol.Regex.{fullmatch, token_pattern}
use ai_protocol.Http.{Jsonschema}
use ai_protocol.Protocol.Origin.{Split, validate_origin}
use ai_protocol.Protocol.Operation.{name_of}
use ai_protocol.Client.Policy.{max_outstanding_of, operations_of, validate_policy}

pub record Gate : Type 0 where
  pub dispatcher : Bool
  pub policy : Option Json
  pub active : ℕ
  pub ready : Bool
  pub closed : Bool
  pub refresher : Bool

-- `__init__`, with `bool(dispatcher_socket)` and the origin as `urlsplit` reads it. The token is
-- known to be a text and the limit to be an integer.
unfoldable pub init : (List ℕ → Split) → List ℕ → List ℕ → ℤ → Bool → Result Gate
init urlsplit origin token max_response_bytes dispatcher = do
  require (is_ok (validate_origin urlsplit origin))
      (protocol_error "Service URL must be an HTTP(S) origin without credentials or a path")
  require (fullmatch token_pattern token) (protocol_error "Invalid bearer credential")
  raise_if (ltb_ℤ max_response_bytes (pos 1))
      (protocol_error "max_response_bytes must be a positive integer")
  ok (record {
    dispatcher = dispatcher;
    policy = none;
    active = 0;
    ready = false;
    closed = false;
    refresher = false;
  })

-- The property `ready`.
abbrev pub is_ready : Gate → Bool
is_ready g = g.ready && not g.closed

-- `self._policy["limits"]["max_outstanding"]`; there is a policy whenever the gate is ready.
abbrev pub limit_of : Option Json → ℤ
limit_of none = pos 0
limit_of (some policy) = max_outstanding_of policy

abbrev pub permitted : Option Json → List Json
permitted none = []
permitted (some policy) = operations_of policy

-- `next((op for op in self._policy["operations"] if op["name"] == name), None)`
abbrev pub find_operation : String → Option Json → Option Json
find_operation name policy = first (λ operation. str_eq (name_of operation) name) (permitted policy)

abbrev pub not_started_error : String → Exception
not_started_error code =
    operation_error
      (record { code = code; execution = "not_started"; status = null; attempts = int (pos 0) })

-- What a pass through the loop of `_acquire` ends in.
pub data Admission : Type 0 where
  refused : Exception → Admission
  admitted : Json → Admission
  waits : Admission

abbrev pub has_room : Gate → Bool
has_room g = g.ready && (g.dispatcher || ltb_ℤ (pos g.active) (limit_of g.policy))

-- One pass through the loop of `_acquire`.
unfoldable pub acquire : Gate → String → Admission × Gate
acquire g name =
    if g.closed
    then (refused (not_started_error "client_closed"), g)
    else if has_room g
    then elim (find_operation name g.policy) [
      | none ↦ (refused (not_started_error "operation_not_permitted"), g)
      | some operation ↦
          (admitted operation, if g.dispatcher then g else record g { active = g.active + 1 })
    ]
    else (waits, g)

-- The `finally` of `call`.
unfoldable pub release : Gate → Gate
release g = if g.dispatcher then g else record g { active = g.active - 1 }

-- What fetching the policy ended in: a document, an error that `refresh` handles (transport,
-- status, size, JSON, two seconds' timeout), or the cancellation of the task.
pub data Fetched : Type 0 where
  document : Json → Fetched
  failed : Fetched
  interrupted : Fetched

-- `refresh`, up to its request.
unfoldable pub begin_refresh : Gate → Result (Unit {0})
begin_refresh g = raise_if g.closed (protocol_error "Client is closed")

abbrev pub pause : Exception → Gate → Result (Option Json) × Gate
pause e g = (err e, record g { ready = false })

-- The policy is stored, unless the client was closed meanwhile; it is returned as it is then held.
abbrev pub settle : Result Json → Gate → Result (Option Json) × Gate
settle (err e) g = pause (protocol_error "Policy refresh failed") g
settle (ok validated) g =
    let g' = if g.closed then g else record g { policy = some validated; ready = true } in
    (ok g'.policy, g')

-- `refresh`, from the answer on.
unfoldable pub end_refresh : Jsonschema → Fetched → Gate → Result (Option Json) × Gate
end_refresh js (document policy) g = settle (validate_policy js policy g.policy) g
end_refresh js failed g = pause (protocol_error "Policy refresh failed") g
end_refresh js interrupted g = pause cancelled g

-- `aclose`: the section under the lock, and the end of the refresher.
unfoldable pub aclose : Gate → Gate
aclose g = record g { closed = true; ready = false; refresher = false }

-- `__aenter__`: its first test, and its end, given how `refresh` ended.
unfoldable pub begin_enter : Gate → Result (Unit {0})
begin_enter g =
    raise_if (g.closed || g.refresher) (protocol_error "Client cannot be reopened or entered twice")

unfoldable pub end_enter : Result (Option Json) × Gate → Result (Unit {0}) × Gate
unfolding aclose
end_enter (ok policy, g) = (ok tt, record g { refresher = true })
end_enter (err e, g) = (err e, aclose g)

-- The delay of `_poll`, in milliseconds.
unfoldable pub poll_delay : Gate → ℤ
poll_delay g = if g.ready then int_of (get (value_of g.policy) "refresh_after_ms") else pos 1000
