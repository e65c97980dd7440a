-- ===== src/Demo/Support.antt =====
-- examples/support_service.py: the support service, with the trace that it writes.
pub mod Answers
use ai_protocol.Base.{if◌then◌else◌, ℕ, String, Bool, Option, none, some, List, [], ◌∷◌, ◌++◌}
use ai_protocol.Base.Int.{ℤ, pos, eq_ℤ}
use ai_protocol.Base.Lists.{keep, first}
use ai_protocol.Base.Text.{codes}
use ai_protocol.Base.Search.{contains}
use ai_protocol.Result.{Result, ok, err}
use ai_protocol.Release.Name.{Text, eq_text, find}
use ai_protocol.Demo.Catalog.{Params, Library}

-- A ticket of `support_tickets.json`.
pub record Ticket : Type 0 where
  pub id : ℕ
  pub subject : Text
  pub message : Text

pub data Content : Type 0 where
  tickets : List Ticket → Content
  ticket : Option Ticket → Content
  error_text : String → Content

pub record Response : Type 0 where
  pub status : ℕ
  pub content : Content

-- A line of the trace.
pub record Row : Type 0 where
  pub path : Text
  pub authorization_present : Bool

-- A request: its target, and whether it has a header `Authorization`.
pub record Request : Type 0 where
  pub target : Text
  pub has_authorization : Bool

-- `t['id'] == ticket_id`
abbrev pub is_ticket : ℤ → Ticket → Bool
is_ticket n t = eq_ℤ (pos t.id) n

-- `t['subject'] + ' ' + t['message']`
abbrev pub text_of : Ticket → Text
text_of t = t.subject ++ (32 ∷ t.message)

-- The answer to `/api/tickets/get`, by the id.
abbrev pub ticket_response : List Ticket → Option ℤ → Response
ticket_response stored none = record { status = 400; content = error_text "Invalid ticket ID" }
ticket_response stored (some n) = record {
  status = 200;
  content = ticket (first (is_ticket n) stored);
}

module _ (lib : Library) where
  abbrev pub ticket_id : Params → Option ℤ
  ticket_id params = elim (find (codes "ticket_id") params) [ none ↦ none | some v ↦ lib.int v.0 ]

  abbrev pub text_param : Params → Text
  text_param params = lib.lower (elim (find (codes "text") params) [ none ↦ [] | some v ↦ v.0 ])

-- The tickets of the file, and whether `SUPPORT_TRACE_PATH` is set. `lower` of the library stands
-- for `str.casefold` here.
module _ (lib : Library) (stored : List Ticket) (traces : Bool) where
  unfoldable pub get_ticket : Params → Response
  get_ticket params = ticket_response stored (ticket_id lib params)

  unfoldable pub respond : Text → Params → Response
  unfolding get_ticket
  respond path params =
      if eq_text path (codes "/api/tickets/search")
      then record {
        status = 200;
        content =
            tickets (keep (λ t. contains (text_param lib params) (lib.lower (text_of t))) stored);
      }
      else if eq_text path (codes "/api/tickets/get")
      then get_ticket params
      else record { status = 404; content = error_text "Not found" }

  -- The rest of `do_GET`, with the trace so far, the newest line first.
  abbrev pub serve : Text × Text → Bool → List Row → Response × List Row
  serve (path, query) has_authorization trace = (
    respond path (lib.parse_qs query),
    if traces
        then record { path = path; authorization_present = has_authorization } ∷ trace
        else trace,
  )

  unfoldable pub handle_get : Request → List Row → Result Response × List Row
  handle_get request trace = elim (lib.urlparse request.target) [
    | err e ↦ (err e, trace)
    | ok url ↦
        let (response, rows) = serve url request.has_authorization trace in (ok response, rows)
  ]
