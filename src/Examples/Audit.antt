-- ===== src/Examples/Audit.antt =====
-- The audit of one client at work.
use ai_protocol.Base.{String, ◌≡◌, refl, true, none, some, List, [], ◌∷◌}
use ai_protocol.Base.Int.{ℤ, pos, ◌-ℤ◌, ◌*ℤ◌}
use ai_protocol.Result.{Result, ok}
use ai_protocol.Benchmark.Records.{
  Event, discovery_start, discovery_end, policy_applied, gate_final, Attempt,
}
use ai_protocol.Benchmark.Delays.{application_delays}
use ai_protocol.Base.Text.{codes}
use ai_protocol.Benchmark.Trace.{RawLine, admission, read_trace}
use ai_protocol.Benchmark.Clients.{summary_of, client_policy, audit_retries}

abbrev client_events : List Event
client_events =
    discovery_start "demo-owner" (pos 0)
    ∷ discovery_end true
    ∷ policy_applied "demo-owner" true (pos 1) (pos 5) (pos 1)
    ∷ gate_final "demo-owner" (pos 0) (pos 5) (pos 1)
    ∷ []

abbrev last_gate : Event
last_gate = gate_final "demo-owner" (pos 0) (pos 5) (pos 1)

client_passes : client_policy client_events [] true ≡ ok (summary_of client_events [] last_gate)
unfolding client_policy application_delays
client_passes = refl

abbrev refused_attempt : Attempt
refused_attempt = record {
  number = 1;
  start_ms = pos 0;
  end_ms = some (pos 10);
  status = some 429;
  problem = none;
  error_kind = none;
  retry_after = none;
  outcome = "response";
}

abbrev second_attempt : Attempt
second_attempt = record refused_attempt {
  number = 2;
  start_ms = pos 1010;
  end_ms = some (pos 1020);
  status = some 200;
}

abbrev one_second : String → Result ℤ
one_second text = ok (pos 1)

retries_pass : audit_retries one_second (refused_attempt ∷ second_attempt ∷ []) ≡ ok tt
unfolding audit_retries ◌-ℤ◌ ◌*ℤ◌
retries_pass = refl

-- A trace that stops in the middle of a sample.
abbrev cut_off : List RawLine
cut_off =
    record { text = codes "{}\n"; parsed = some (admission (pos 1) (pos 5)) }
    ∷ record { text = codes "{\"active\":1"; parsed = none }
    ∷ []

cut_off_read : read_trace cut_off ≡ ok (admission (pos 1) (pos 5) ∷ [], 1)
unfolding read_trace
cut_off_read = refl
