-- ===== src/Demo/Support/Answers.antt =====
-- What the support service answers and writes down, on every branch.
use ai_protocol.Base.{
  if◌then◌else◌, Bool-cases, String, ◌≡◌, refl, ◌≢◌, inl, inr, Bool, Option, none, some, List, ◌∷◌,
}
use ai_protocol.Base.Int.{ℤ, pos}
use ai_protocol.Base.Search.{contains, OccursIn, contains_iff, Picks, keep-Picks}
use ai_protocol.Base.Text.{codes}
use ai_protocol.Result.{ok}
use ai_protocol.Release.Name.{Text, eq_text, eq_text_iff}
use ai_protocol.Demo.Catalog.{Params, Library}
use ai_protocol.Demo.Catalog.Answers.{IsFirst, first-IsFirst, eq_ℤ_iff, not_text}
use ai_protocol.Demo.Support.{
  Ticket, tickets, ticket, error_text, Response, Row, Request, is_ticket, text_of, ticket_response,
  ticket_id, text_param, get_ticket, respond, handle_get,
}

module _ (lib : Library) (stored : List Ticket) where
  -- The answer to a request, by its path and its parameters.
  pub data Responds (path : Text) (params : Params) : Response → Type 0 where
    searched :
        {ts : List Ticket}
        → path ≡ codes "/api/tickets/search"
        → Picks (λ t. OccursIn (text_param lib params) (lib.lower (text_of t))) stored ts
        → Responds path params (record { status = 200; content = tickets ts })
    got :
        {n : ℤ} {o : Option Ticket}
        → path ≡ codes "/api/tickets/get"
        → ticket_id lib params ≡ some n
        → IsFirst (λ t. pos t.id ≡ n) stored o
        → Responds path params (record { status = 200; content = ticket o })
    bad_request :
        {m : String}
        → path ≡ codes "/api/tickets/get"
        → ticket_id lib params ≡ none
        → Responds path params (record { status = 400; content = error_text m })
    not_found :
        {m : String}
        → path ≢ codes "/api/tickets/get"
        → path ≢ codes "/api/tickets/search"
        → Responds path params (record { status = 404; content = error_text m })

  ticket_response-Responds :
      (path : Text) (params : Params) (o : Option ℤ)
      → path ≡ codes "/api/tickets/get"
      → ticket_id lib params ≡ o
      → Responds path params (ticket_response stored o)
  ticket_response-Responds path params none e h = bad_request e h
  ticket_response-Responds path params (some n) e h =
      got e h (first-IsFirst (is_ticket n) (λ t. pos t.id ≡ n) stored (λ t. eq_ℤ_iff t.id n))

  respond-Responds :
      (traces : Bool) (path : Text) (params : Params)
      → Responds path params (respond lib stored traces path params)
  unfolding respond get_ticket
  respond-Responds traces path params =
      elim (Bool-cases (eq_text path (codes "/api/tickets/search"))) [
        | inl search' ↦ rw search' (
            searched ((eq_text_iff path (codes "/api/tickets/search")).0 search') (
              keep-Picks (λ t. contains (text_param lib params) (lib.lower (text_of t)))
                (λ t. OccursIn (text_param lib params) (lib.lower (text_of t))) stored
                (λ t. contains_iff (text_param lib params) (lib.lower (text_of t)))))
        | inr no_search ↦ elim (Bool-cases (eq_text path (codes "/api/tickets/get"))) [
          | inl get ↦ rw no_search (
              rw get (
                ticket_response-Responds path params (ticket_id lib params)
                  ((eq_text_iff path (codes "/api/tickets/get")).0 get) refl))
          | inr no_get ↦
              rw no_search
                (rw no_get (not_found (not_text path _ no_get) (not_text path _ no_search)))
        ]
      ]

  -- Every request whose target can be parsed is answered: with exactly the tickets in which the text
  -- occurs, upper and lower case folded; with the ticket of the id, or none; with status 400 where the
  -- id is missing or no integer; with 404 on any other path. And one line is written, whatever the
  -- answer, if and only if a trace is asked for: the path, and whether the request had a credential.
  pub handle_get-Responds :
      (traces : Bool) (request : Request) (trace : List Row) (path query : Text)
      → lib.urlparse request.target ≡ ok (path, query)
      → (r : Response) × ((handle_get lib stored traces request trace).0 ≡ ok r)
        × Responds path (lib.parse_qs query) r
        × ((handle_get lib stored traces request trace).1 ≡ (
            if traces
            then record { path = path; authorization_present = request.has_authorization } ∷ trace
            else trace))
  unfolding handle_get
  handle_get-Responds traces request trace path query e = (
    respond lib stored traces path (lib.parse_qs query),
    rw (e, handle_get) refl,
    respond-Responds traces path (lib.parse_qs query),
    rw (e, handle_get) refl,
  )
