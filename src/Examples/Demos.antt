-- ===== src/Examples/Demos.antt =====
-- The programs of examples/ at work: an agent, a command line, services, streams and traces.
use ai_protocol.Base.{
  ℕ, zero, suc, String, ◌≡◌, refl, true, false, none, some, List, [], ◌∷◌, ◌++◌, arith,
}
use ai_protocol.Base.Int.{pos, ◌+ℤ◌}
use ai_protocol.Base.Lists.{length}
use ai_protocol.Base.Lines.{unlines}
use ai_protocol.Base.Text.{codes}
use ai_protocol.Regex.{fullmatch}
use ai_protocol.Result.{Result, ok, err, IsOk}
use ai_protocol.Json.{Json, null, bool, int, str, obj, field, end}
use ai_protocol.Http.{Answer}
use ai_protocol.Protocol.Operation.{validate_operation, check_references, check_operations}
use ai_protocol.Protocol.Discover.{discover}
use ai_protocol.Protocol.Retry.{safe_to_retry}
use ai_protocol.Protocol.Execute.{
  Surroundings, execute, attempts, attempt_once, monotonic, send, finish,
}
use ai_protocol.Protocol.Trace.{requests}
use ai_protocol.Protocol.Bounds.{began}
use ai_protocol.Dispatcher.{
  Exchange, finite, Peer, line, call, call_until, exchange, read_reply, has_reply_fields,
  is_inconsistent,
}
use ai_protocol.Demo.Agent.Choice.{
  Tool, Output, function_call, other_output, calls_of, published, choose,
}
use ai_protocol.Demo.Agent.{main}
use ai_protocol.Demo.Agent.Asks.{IsPermitted, main-IsPermitted}
use ai_protocol.Demo.Cli.{by_socket, Delivery, dispatch_main}
use ai_protocol.Demo.Cli.Asks.{IsCompleted, dispatch_main-IsCompleted}
use ai_protocol.Demo.Catalog.{Library}
use ai_protocol.Demo.Support.{Ticket, Response, Request, handle_get}
use ai_protocol.Demo.Support.Answers.{Responds, handle_get-Responds}
use ai_protocol.Demo.Streams.{Streams, complete, gather, replicate, streams}
use ai_protocol.Demo.Streams.Counted.{gather-counts}
use ai_protocol.Demo.Integration.{load_all, rows}
use ai_protocol.Demo.Integration.Rows.{rows_complete}
use ai_protocol.Examples.Data.{
  any_instance, plain_bytes, dicts_only, no_params, policy_with, with_body, done,
}

-- The agent: the model calls the one operation that there is.
abbrev quiet : Surroundings
quiet = record { passes = λ t. 1; answers = λ t. done }

abbrev calls_echo : List Tool → Result (List Output)
calls_echo offered = ok (other_output ∷ function_call "echo" "{}" ∷ [])

abbrev reads_dict : String → Result Json
reads_dict arguments = ok no_params

abbrev the_policy : Answer
the_policy = with_body 200 (policy_with 1 5)

agent_asks :
    requests (main quiet dicts_only calls_echo reads_dict the_policy (began quiet 0)).1.trace ≡ 1
unfolding fullmatch main choose published calls_of discover check_operations execute
    validate_operation check_references monotonic attempts attempt_once send finish safe_to_retry
agent_asks = refl

main-IsPermitted_example : IsPermitted quiet dicts_only calls_echo reads_dict the_policy 0
main-IsPermitted_example =
    main-IsPermitted quiet dicts_only calls_echo reads_dict the_policy 0 (omega (arith, agent_asks))

-- The command line: the dispatcher answers that the operation was completed.
abbrev completed_reply : Json
completed_reply = obj (
    field "ok" (bool true) (
      field "code" (str "ok") (
        field "execution" (str "completed") (
          field "attempts" (int (pos 1))
            (field "status" (int (pos 200)) (field "body" null end))))))

abbrev answering : Peer
answering = line (record { size = 80; terminated = true; parsed = ok completed_reply })

abbrev submit_echo : Json → Json → Exchange
submit_echo =
    by_socket dicts_only any_instance plain_bytes "id" "token" (finite (pos 5000)) (pos 0) (pos 0)
      (pos 1) answering

abbrev typed_params : Result Json
typed_params = ok no_params

abbrev reply_of : Result (Delivery × ℕ) → Delivery
reply_of (ok x) = x.0
reply_of (err e) = (null, [])

abbrev completed_exchange : Delivery
completed_exchange = reply_of (dispatch_main submit_echo "echo" typed_params)

exits_well : dispatch_main submit_echo "echo" typed_params ≡ ok (completed_exchange, 0)
unfolding fullmatch dispatch_main call call_until exchange read_reply has_reply_fields
    is_inconsistent ◌+ℤ◌
exits_well = refl

dispatch_main-IsCompleted_example :
    IsOk typed_params × (length completed_exchange.1 ≡ 1) × IsCompleted completed_exchange.0
dispatch_main-IsCompleted_example =
    dispatch_main-IsCompleted dicts_only any_instance plain_bytes "id" "token" (finite (pos 5000))
      (pos 0) (pos 0) (pos 1) answering "echo" typed_params completed_exchange exits_well

-- The support service, asked for a ticket with an id that is no integer.
abbrev library : Library
library = record {
  urlparse = λ target. ok (target, []);
  parse_qs = λ query. (codes "ticket_id", (codes "x", [])) ∷ [];
  int = λ text. none;
  lower = λ text. text;
}

abbrev one_ticket : List Ticket
one_ticket = record { id = 101; subject = codes "Password"; message = codes "missing" } ∷ []

abbrev wrong_id : Request
wrong_id = record { target = codes "/api/tickets/get"; has_authorization = false }

handle_get-Responds_example :
    (r : Response) × ((handle_get library one_ticket true wrong_id []).0 ≡ ok r)
    × Responds library one_ticket
        (codes "/api/tickets/get")
        ((codes "ticket_id", (codes "x", [])) ∷ [])
        r
    × ((handle_get library one_ticket true wrong_id []).1
        ≡ record { path = codes "/api/tickets/get"; authorization_present = false } ∷ [])
handle_get-Responds_example =
    handle_get-Responds library one_ticket true wrong_id [] (codes "/api/tickets/get") [] refl

-- The streams: one after the other.
abbrev successes : ℕ → ℕ → List (ℕ × ℕ)
successes i zero = []
successes i (suc n) = (i, 200) ∷ successes i n

abbrev all_ends : ℕ → List (ℕ × ℕ)
all_ends zero = []
all_ends (suc i) = successes i 10 ++ all_ends i

abbrev at_end : Streams
at_end = record {
  workers =
      replicate 8 (record { is_interactive = true; left = 0 })
      ++ replicate 12 (record { is_interactive = false; left = 0 });
  interactive = 80;
  agent = 120;
}

streams_end : gather (all_ends 20) streams ≡ ok at_end
unfolding gather complete
streams_end = refl

gather-counts_example : (at_end.interactive ≡ 80) × (at_end.agent ≡ 120)
gather-counts_example = gather-counts (all_ends 20) at_end streams_end (omega arith)

-- A trace of two lines, read in the middle of the third.
abbrev reads_length : List ℕ → Result Json
reads_length l = ok (int (pos (length l)))

rows_complete_example :
    rows reads_length (some (unlines (codes "{}" ∷ codes "{\"a\":1}" ∷ []) ++ codes "{\"a"))
    ≡ load_all reads_length (codes "{}" ∷ codes "{\"a\":1}" ∷ [])
rows_complete_example =
    rows_complete reads_length (codes "{}" ∷ codes "{\"a\":1}" ∷ []) (codes "{\"a")
      (refl, (refl, tt)) refl
