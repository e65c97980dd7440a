-- ===== src/Demo/Streams/Expiry.antt =====
-- `main` of examples/queue_demo.py up to the streams: one request that waits too long in the queue,
-- while ten others hold every place.
use ai_protocol.Base.{
  ◌==◌, str_eq, ℕ, Bool, false, not, ◌&&◌, ◌||◌, Option, none, some, List, [], ◌∷◌,
}
use ai_protocol.Base.Int.{pos}
use ai_protocol.Base.Lists.{length, all}
use ai_protocol.Base.Text.{codes}
use ai_protocol.Result.{assertion_error, Result, ok, ◌>>=◌, ◌>>◌, require}
use ai_protocol.Json.{Json, str, obj, end, field, get, int_within, value_of}
use ai_protocol.Http.{Response, raise_for_status, json}
use ai_protocol.Release.Name.{Text, eq_text, mem}
use ai_protocol.Demo.Streams.{Streams}

-- `response.raise_for_status(); return response.json()`
unfoldable pub policy : Response → Result Json
policy r = do raise_for_status r; json r

-- `== {"error": {"code": "queue_timeout", "execution": "not_started"}}`
abbrev pub is_error : Json → Bool
is_error (obj (field c (str a) (field x (str b) end))) =
    str_eq c "code" && str_eq a "queue_timeout" && str_eq x "execution" && str_eq b "not_started"
    || str_eq c "execution" && str_eq a "not_started" && str_eq x "code" && str_eq b "queue_timeout"
is_error v = false

abbrev pub is_queue_timeout : Json → Bool
is_queue_timeout (obj (field k v end)) = str_eq k "error" && is_error v
is_queue_timeout v = false

abbrev pub has_text : Option (List ℕ) → Text → Bool
has_text none t = false
has_text (some s) t = eq_text s t

abbrev pub expired_query : Text
expired_query = codes "must-not-start"

-- The answers that the demonstration gets: to the change of the limit, to the request for the policy
-- before and after, to the request that expires; whether each held request has started, and what it is
-- answered with.
pub record Answers : Type 0 where
  pub changed : Response
  pub before : Response
  pub expired : Response
  pub after : Response
  pub holds_start : List Bool
  pub holds_end : List Response

-- The assertions up to the streams; `seen` is what the catalog has noted by then.
unfoldable pub check_expiry : Answers → List Text → Result (Unit {0})
check_expiry a seen = do
  raise_for_status a.changed
  interactive ← policy a.before
  require (int_within (pos 500) (pos 500) (get (value_of (get interactive "queue")) "max_wait_ms"))
      (assertion_error "max_wait_ms")
  require (all (λ b. b) a.holds_start) (assertion_error "holds_started")
  require (a.expired.status == 503) (assertion_error "status")
  body ← json a.expired
  require (is_queue_timeout body) (assertion_error "queue_timeout")
  require (has_text a.expired.retry_after (codes "1")) (assertion_error "Retry-After")
  require (not (mem expired_query seen)) (assertion_error "seen")
  later ← policy a.after
  require (int_within (pos 0) (pos 0) (get later "outstanding")) (assertion_error "outstanding")
  require (all (λ r. r.status == 200) a.holds_end) (assertion_error "holds")

-- `assert (await policy(name))["outstanding"] == 0`, for each of the names.
unfoldable pub check_outstanding : List Response → Result (Unit {0})
check_outstanding [] = ok tt
check_outstanding (r ∷ rs) = do
  p ← policy r
  require (int_within (pos 0) (pos 0) (get p "outstanding")) (assertion_error "outstanding")
  check_outstanding rs

-- The assertions after the streams.
unfoldable pub check_drained : Streams → List Response → List Text → Result (Unit {0})
check_drained s policies seen = do
  require (s.interactive == 80 && s.agent == 120) (assertion_error "completed")
  check_outstanding policies
  require (not (mem expired_query seen)) (assertion_error "seen")
  require (length seen == 210) (assertion_error "seen")
