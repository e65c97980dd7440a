-- ===== src/Examples/Adaptive.antt =====
-- The adaptive client at work: its gate with two tasks, and a call that is refused once.
use ai_protocol.Base.{
  ◌==◌, if◌then◌else◌, ℕ, ◌≤◌, ◌<◌, ◌≡◌, refl, ◌↔◌, true, false, none, some, List, [], ◌∷◌, arith,
}
use ai_protocol.Base.Int.{pos, ◌≤ℤ◌}
use ai_protocol.Base.Lists.{length, count, set}
use ai_protocol.Result.{ok}
use ai_protocol.Regex.{fullmatch}
use ai_protocol.Json.{null}
use ai_protocol.Dispatcher.{Moment}
use ai_protocol.Protocol.Operation.{check_references, validate_operation, check_operations}
use ai_protocol.Client.Policy.{validate_policy}
use ai_protocol.Client.Revision.{IsPolicy, ContinuesFrom, validate_policy-IsPolicy}
use ai_protocol.Client.Gate.{Gate, aclose, end_refresh, document, limit_of}
use ai_protocol.Client.System.{
  outside, waiting, is_holding, System, pass_gate, Step, arrive, pass, refresh, Reach, start, next,
  holders,
}
use ai_protocol.Client.System.Invariant.{IsCounted, Step-admits}
use ai_protocol.Client.System.Continuity.{
  IsSafe, Reach-IsSafe, Extends, Reach-Extends, closed_is_final,
}
use ai_protocol.Client.Body.{read_body, joined, read_body_iff}
use ai_protocol.Client.Call.{Surroundings, granted, call}
use ai_protocol.Client.Call.Trace.{posts}
use ai_protocol.Client.Call.Outcome.{IsFaithful, call-IsFaithful}
use ai_protocol.Client.Call.Dispatched.{is_dispatched, call_with_dispatcher}
use ai_protocol.Examples.Data.{dicts_only, echo, no_params, policy_with, too_many, done, plain_text}

-- A client that was just made, before its first refresh, and two tasks of which one waits.
abbrev new_gate : Gate
new_gate = record {
  dispatcher = false;
  policy = none;
  active = 0;
  ready = false;
  closed = false;
  refresher = false;
}

abbrev early : System
early = record { gate = new_gate; tasks = waiting "echo" ∷ outside ∷ [] }

abbrev ready_gate : Gate
ready_gate = record new_gate { policy = some (policy_with 1 1); ready = true }

abbrev refreshed : System
refreshed = record early { gate = ready_gate }

policy_accepted : validate_policy dicts_only (policy_with 1 1) none ≡ ok (policy_with 1 1)
unfolding validate_policy check_operations validate_operation check_references fullmatch
policy_accepted = refl

refreshes : (end_refresh dicts_only (document (policy_with 1 1)) new_gate).1 ≡ ready_gate
unfolding end_refresh validate_policy check_operations validate_operation check_references fullmatch
refreshes = refl

-- The refresh ends, and the waiting task passes.
refreshing : Step dicts_only early refreshed
unfolding end_refresh validate_policy check_operations validate_operation check_references fullmatch
refreshing = refresh (document (policy_with 1 1))

passing : Step dicts_only refreshed (pass_gate 0 "echo" refreshed)
passing = pass 0 "echo" refl

early-IsCounted : IsCounted early
early-IsCounted = record { direct = refl; counted = refl; open_if_ready = λ h. refl }

refreshed-IsCounted : IsCounted refreshed
refreshed-IsCounted = record { direct = refl; counted = refl; open_if_ready = λ h. refl }

early-IsSafe : IsSafe dicts_only early
early-IsSafe = record {
  count = early-IsCounted;
  accepted = λ p e. cc;
  present = λ h. cc;
  bounded = omega arith;
}

one_admitted : holders refreshed < holders (pass_gate 0 "echo" refreshed)
unfolding pass_gate
one_admitted = omega arith

whole_run : Reach dicts_only early (pass_gate 0 "echo" refreshed)
whole_run = next (next start refreshing) passing

-- A later refresh brings the next revision, with another limit.
abbrev renewed : System
renewed = record refreshed { gate = record ready_gate { policy = some (policy_with 2 3) } }

renewing : Reach dicts_only refreshed renewed
unfolding end_refresh validate_policy check_operations validate_operation check_references fullmatch
renewing = next start (refresh (document (policy_with 2 3)))

abbrev shut : System
shut = record refreshed { gate = aclose refreshed.gate }

closing : Reach dicts_only shut (record shut { tasks = set shut.tasks 1 (waiting "echo") })
closing = next start (arrive 1 "echo" refl)

shut-IsCounted : IsCounted shut
unfolding aclose
shut-IsCounted = record { direct = refl; counted = refl; open_if_ready = λ h. cc }

is_shut : shut.gate.closed ≡ true
unfolding aclose
is_shut = refl

validate_policy-IsPolicy_example :
    (policy_with 1 1 ≡ policy_with 1 1)
    × IsPolicy dicts_only (policy_with 1 1)
    × ContinuesFrom none (policy_with 1 1)
validate_policy-IsPolicy_example =
    validate_policy-IsPolicy dicts_only (policy_with 1 1) none (policy_with 1 1) policy_accepted

Step-admits_example :
    (refreshed.gate.closed ≡ false)
    × (refreshed.gate.ready ≡ true)
    × (pos (holders (pass_gate 0 "echo" refreshed)) ≤ℤ limit_of refreshed.gate.policy)
Step-admits_example = Step-admits refreshed-IsCounted passing one_admitted

Reach-IsSafe_example : IsSafe dicts_only (pass_gate 0 "echo" refreshed)
Reach-IsSafe_example = Reach-IsSafe early-IsSafe whole_run

Reach-Extends_example : Extends (some (policy_with 1 1)) (some (policy_with 2 3))
Reach-Extends_example = Reach-Extends renewing

closed_is_final_example :
    (shut.gate.closed ≡ true)
    × (count is_holding (set shut.tasks 1 (waiting "echo")) ≤ holders shut)
closed_is_final_example = closed_is_final shut-IsCounted closing is_shut

-- A body in two chunks.
abbrev three_bytes : List ℕ
three_bytes = 1 ∷ 2 ∷ 3 ∷ []

two_chunks : read_body 3 [] ((1 ∷ 2 ∷ []) ∷ (3 ∷ []) ∷ []) ≡ ok (1 ∷ 2 ∷ 3 ∷ [])
unfolding read_body
two_chunks = refl

-- A call whose first post is refused by 429 and whose second succeeds.
abbrev busy_first : Surroundings
busy_first = record {
  passes = λ t. 10;
  admits = λ t. granted echo;
  answers = λ t. if posts t == 1 then too_many else done;
  replies = λ t. null;
  has_dispatcher = false;
}

abbrev handing_over : Surroundings
handing_over = record busy_first { has_dispatcher = true }

call-IsFaithful_example :
    IsFaithful
      (call busy_first dicts_only plain_text true no_params (Moment.finite (pos 5000)) none 0)
call-IsFaithful_example =
    call-IsFaithful busy_first dicts_only plain_text true no_params (Moment.finite (pos 5000)) none
      0 refl

call_with_dispatcher_example :
    let t =
      (call handing_over dicts_only plain_text true no_params
        (Moment.finite (pos 5000))
        none
        0).1.trace in
    (posts t ≡ 0) × (count is_dispatched t ≤ 1)
call_with_dispatcher_example =
    call_with_dispatcher handing_over dicts_only plain_text true no_params
      (Moment.finite (pos 5000)) none 0 refl

read_body_iff_example :
    (read_body 3 [] ((1 ∷ 2 ∷ []) ∷ (3 ∷ []) ∷ []) ≡ ok three_bytes)
    ↔ ((three_bytes ≡ joined ((1 ∷ 2 ∷ []) ∷ (3 ∷ []) ∷ [])) × (length three_bytes ≤ 3))
read_body_iff_example = read_body_iff 3 ((1 ∷ 2 ∷ []) ∷ (3 ∷ []) ∷ []) three_bytes
