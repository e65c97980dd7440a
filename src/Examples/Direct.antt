-- ===== src/Examples/Direct.antt =====
-- The synchronous client at work: a first answer of 429, then a success.
use ai_protocol.Base.{
  ◌==◌, if◌then◌else◌, ◌+◌, ◌≤◌, ◌<◌, ◌≡◌, refl, ◌↔◌, true, none, some, List, [], arith,
}
use ai_protocol.Base.Int.{pos}
use ai_protocol.Base.Text.{codes, strip}
use ai_protocol.Regex.{fullmatch}
use ai_protocol.Result.{Result, ok}
use ai_protocol.Json.{Json, int, str, obj, end, field, get, value_of}
use ai_protocol.Http.{Answer, response}
use ai_protocol.World.{World}
use ai_protocol.Protocol.Origin.{validate_origin}
use ai_protocol.Protocol.Operation.{check_references, validate_operation, check_operations}
use ai_protocol.Protocol.Operation.References.{HasLocalReferences, check_references_iff}
use ai_protocol.Protocol.Operation.Descriptor.{IsOperation, validate_operation_iff}
use ai_protocol.Protocol.Retry.{safe_to_retry, retry_delay}
use ai_protocol.Protocol.Execute.{
  Event, Surroundings, monotonic, send, sleep, back_off, finish, attempt_once, attempts, execute,
}
use ai_protocol.Protocol.Trace.{requests, RetriesSafely, Timely}
use ai_protocol.Protocol.Bounds.{
  Delivers, began, execute_bounds, execute-Delivers, execute_validates,
}
use ai_protocol.Conformance.{
  Service, check_service, check_unauthenticated, check_discovery, check_call, validate_contract,
  report, Refuses, Publishes, check_service_sound,
}
use ai_protocol.Client.Policy.{validate_policy}
use ai_protocol.Examples.Data.{
  dicts_only, echo, no_params, policy_with, with_body, too_many, done, origin_of,
}

abbrev answer_at : List Event → Answer
answer_at t = if requests t == 1 then too_many else done

abbrev busy_once : Surroundings
busy_once = record { passes = λ t. 10; answers = answer_at }

abbrev run : Result Json × World Event
run = execute busy_once dicts_only echo no_params 5000 (began busy_once 0)

run_returns : run.0 ≡ ok (int (pos 7))
unfolding fullmatch strip execute validate_operation check_references monotonic attempts
    attempt_once send back_off sleep finish safe_to_retry retry_delay
run_returns = refl

run_asks_twice : requests run.1.trace ≡ 2
unfolding fullmatch strip execute validate_operation check_references monotonic attempts
    attempt_once send back_off sleep finish safe_to_retry retry_delay
run_asks_twice = refl

run_asks : 0 < requests run.1.trace
run_asks = omega (arith, run_asks_twice)

check_references_iff_example : (check_references echo ≡ ok tt) ↔ HasLocalReferences echo
check_references_iff_example = check_references_iff echo

validate_operation_iff_example :
    (validate_operation dicts_only echo ≡ ok tt) ↔ IsOperation dicts_only echo
validate_operation_iff_example = validate_operation_iff dicts_only echo

execute_bounds_example :
    RetriesSafely run.1.trace
    × (requests run.1.trace ≤ 5)
    × Timely (0 + busy_once.passes [] + 5000) run.1.trace
execute_bounds_example = execute_bounds busy_once dicts_only echo no_params 5000 0

execute-Delivers_example : Delivers (0 + busy_once.passes [] + 5000) (int (pos 7)) run.1.trace
execute-Delivers_example =
    execute-Delivers busy_once dicts_only echo no_params 5000 0 (int (pos 7)) run_returns

execute_validates_example :
    (validate_operation dicts_only echo ≡ ok tt)
    × (dicts_only.validates (value_of (get echo "input_schema")) no_params ≡ true)
execute_validates_example = execute_validates busy_once dicts_only echo no_params 5000 0 run_asks

-- A service that refuses discovery without a token, and publishes a policy to one with it.
abbrev refusal : Json
refusal = obj (field "error" (obj (field "execution" (str "not_started") end)) end)

abbrev well_behaved : Service
well_behaved = record {
  unauthenticated = with_body 401 refusal;
  discovery = response (record {
    status = 200;
    retry_after = none;
    cache_control = some "no-store";
    body = some (policy_with 1 5);
  });
  posted = λ path. done;
}

service_passes :
    check_service dicts_only
      (λ name document. true)
      origin_of
      (codes "http://host")
      (codes "secret")
      well_behaved
      none
    ≡ ok (report (policy_with 1 5))
unfolding fullmatch check_service check_unauthenticated check_discovery check_call validate_contract
    validate_origin validate_policy check_operations validate_operation check_references
service_passes = refl

check_service_sound_example :
    (document : Json) × Refuses dicts_only (λ name document. true) well_behaved.unauthenticated
    × Publishes dicts_only (λ name document. true) well_behaved.discovery document
    × (report (policy_with 1 5) ≡ report document)
check_service_sound_example =
    check_service_sound dicts_only (λ name document. true) origin_of (codes "http://host")
      (codes "secret") well_behaved none (report (policy_with 1 5)) service_passes
