-- ===== src/Demo/Transitions.antt =====
-- `main` of examples/dynamic_demo.py: what is read from the load client, and what is expected of it.
-- Times are in milliseconds.
pub mod Leaks
pub mod Script
use Prim.Native.Nat.{max}
use ai_protocol.Base.{
  ltb, leb, if◌then◌else◌, ℕ, ◌+◌, ◌-◌, String, Bool, not, ◌&&◌, ◌||◌, Option, none, some, List, [],
  ◌∷◌,
}
use ai_protocol.Base.Int.{pos}
use ai_protocol.Base.Lists.{any}
use ai_protocol.Base.Search.{contains}
use ai_protocol.Result.{
  http_error, type_error, key_error, runtime_error, no_value, Result, ok, err, ◌>>=◌, ◌>>◌,
}
use ai_protocol.Json.{Json, str, obj, end, field, lookup, get, eq_str, int_within, int_at_least}
use ai_protocol.Http.{raise_for_status, json, Answer, response, lost}
use ai_protocol.Release.Name.{Text, item}

abbrev pub event_named : String → Json
event_named n = obj (field "event" (str n) end)

-- `any(environment[name] in line for name in names)`
abbrev pub shows : List Text → Text → Bool
shows secrets l = any (λ s. contains s l) secrets

-- What a line is forwarded as; `loads` is `json.loads`, `none` where it raises.
abbrev pub forward : (Text → Option Json) → List Text → Text → Option Json
forward loads secrets l = if shows secrets l then some (event_named "credential_leak") else loads l

abbrev pub prepend : Option Json → List Json → List Json
prepend none events = events
prepend (some e) events = e ∷ events

-- `read_output`, with the queue that it fills.
unfoldable pub read_output : (Text → Option Json) → List Text → List Text → List Json
read_output loads secrets [] = event_named "exited" ∷ []
read_output loads secrets (l ∷ ls) =
    prepend (forward loads secrets l) (read_output loads secrets ls)

-- `v[key]`
abbrev pub entry : String → Json → Result Json
entry key (obj fs) = elim (lookup key fs) [ none ↦ err key_error | some v ↦ ok v ]
entry key v = err type_error

-- `event["event"]`
abbrev pub name_of : Json → Result Json
name_of event = entry "event" event

abbrev pub ends_demo : Json → Bool
ends_demo n = eq_str (some n) "exited" || eq_str (some n) "credential_leak"

-- The time, the events that are still queued, with the times at which they come, and those that were
-- printed, the newest first.
pub record Reader : Type 0 where
  pub now : ℕ
  pub queued : List (ℕ × Json)
  pub printed : List Json

-- Once an event was taken, by the name that it has.
abbrev pub take_event :
    (Json → Bool) → ℕ → Json → Result Json × Reader → Reader → Result Json → Result Json × Reader
take_event predicate deadline e again r (err x) = (err x, r)
take_event predicate deadline e again r (ok n) =
    if ends_demo n
    then (err (runtime_error "Load client ended unexpectedly or emitted credentials"), r)
    else if predicate e
    then (ok e, record r { printed = e ∷ r.printed })
    else if leb deadline r.now
    then (
      err (runtime_error "Expected client policy transition was not observed"),
      record r { printed = e ∷ r.printed },
    )
    else again

-- `wait_event`, from one `events.get` on.
unfoldable pub wait_from :
    (Json → Bool) → ℕ → ℕ → List Json → List (ℕ × Json) → Result Json × Reader
wait_from predicate deadline now printed [] =
    (err no_value, record { now = now; queued = []; printed = printed })
wait_from predicate deadline now printed ((t, e) ∷ es) =
    let again = wait_from predicate deadline (max now t) (e ∷ printed) es in
    if ltb (now + max 10 (deadline - now)) t
    then (err no_value, record { now = now; queued = (t, e) ∷ es; printed = printed })
    else take_event predicate deadline e again
        (record { now = max now t; queued = es; printed = printed }) (name_of e)

unfoldable pub wait_event : (Json → Bool) → Reader → Result Json × Reader
wait_event predicate r = wait_from predicate (r.now + 20000) r.now r.printed r.queued

-- `response.raise_for_status()` and `response.json()`
unfoldable pub answered : Answer → Result Json
answered lost = err http_error
answered (response r) = do raise_for_status r; json r

-- The event that is printed of the gateway's answer to a change.
unfoldable pub admin_update : Json → Result Json
admin_update result = do
  revision ← entry "policy_revision" result
  limits ← entry "limits" result
  limit ← entry "max_outstanding" limits
  outstanding ← entry "outstanding" result
  ok (
      obj (
        field "event" (str "admin_update") (
          field "policy_revision" revision
            (field "limit" limit (field "server_outstanding" outstanding end)))))

abbrev pub is_number : Option Json → ℕ → Bool
is_number o n = int_within (pos n) (pos n) o

-- What the assertions require of the gateway's answers and of the events.
unfoldable pub is_reduced : Json → Bool
is_reduced reduced =
    is_number (get reduced "outstanding") 5 && is_number (get reduced "policy_revision") 2

unfoldable pub shows_reduction : Json → Bool
shows_reduction event = is_number (get event "client_active") 5 && is_number (get event "limit") 2

abbrev pub is_policy : Json → Bool
is_policy item = eq_str (get item "event") "policy"

unfoldable pub is_second_policy : Json → Bool
is_second_policy item = is_policy item && is_number (get item "policy_revision") 2

unfoldable pub is_drained : Json → Bool
is_drained item =
    is_policy item
    && is_number (get item "limit") 2
    && is_number (get item "client_active") 2
    && not (int_at_least (pos 3) (get item "server_outstanding"))

unfoldable pub is_raised : Json → Bool
is_raised item =
    is_policy item
    && is_number (get item "policy_revision") 3
    && is_number (get item "client_active") 5

unfoldable pub is_completed : Json → Bool
is_completed item = eq_str (get item "event") "completed"

unfoldable pub has_succeeded : Json → Bool
has_succeeded completed =
    is_number (get completed "successful") 60 && is_number (get completed "errors") 0
