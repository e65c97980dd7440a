-- ===== src/Benchmark/Clients.antt =====
-- benchmarks/multiclient/analyze_clients.py: the policies that one client applied, and the audit of
-- the retries of a task.
use mathlib.Core.Path.{subst}
use ai_protocol.Base.{
  leb, ◌==◌, str_eq, if◌then◌else◌, ℕ, ◌+◌, ◌≤◌, String, ◌≡◌, refl, sym, ap, ◌⊎◌, inl, inr, Bool,
  true, false, not, ◌&&◌, ◌||◌, Option, none, some, List, [], ◌∷◌, arith,
}
use ai_protocol.Base.Int.{ℤ, pos, ◌-ℤ◌, ◌*ℤ◌, leb_ℤ, eq_ℤ}
use ai_protocol.Base.Lists.{length, all, any, keep, first, count, length-keep}
use ai_protocol.Result.{
  Exception, type_error, stop_iteration, assertion_error, Result, ok, err, ◌>>=◌, ◌>>◌, raise_if,
  require, Result-cases, >>=-ok,
}
use ai_protocol.Benchmark.Records.{
  Event, arrival, attempt_start, attempt_end, terminal, discovery_start, discovery_end,
  policy_applied, gate_final, Attempt,
}
use ai_protocol.Benchmark.Summary.{has_status, is_queue_timeout}
use ai_protocol.Benchmark.Delays.{Change, Delay, application_delays}

abbrev pub is_discovery : Event → Bool
is_discovery (discovery_start owner at_ms) = true
is_discovery e = false

abbrev pub is_discovery_end : Event → Bool
is_discovery_end (discovery_end success) = true
is_discovery_end e = false

abbrev pub is_successful_end : Event → Bool
is_successful_end (discovery_end success) = success
is_successful_end e = false

abbrev pub is_failed_end : Event → Bool
is_failed_end (discovery_end success) = not success
is_failed_end e = false

-- A discovery of another owner, and a gate that ended with attempts under way.
abbrev pub is_foreign : Event → Bool
is_foreign (discovery_start owner at_ms) = not (str_eq owner "demo-owner")
is_foreign e = false

abbrev pub is_busy_end : Event → Bool
is_busy_end (gate_final owner active limit revision) = not (eq_ℤ active (pos 0))
is_busy_end e = false

abbrev pub is_ready_policy : Event → Bool
is_ready_policy (policy_applied owner ready revision limit at_ms) = ready
is_ready_policy e = false

abbrev pub is_first_policy : Option Event → Bool
is_first_policy (some (policy_applied owner ready revision limit at_ms)) =
    eq_ℤ limit (pos 5) && eq_ℤ revision (pos 1)
is_first_policy o = false

abbrev pub is_final : Event → Bool
is_final (gate_final owner active limit revision) = str_eq owner "demo-owner"
is_final e = false

-- `(final['limit'], final['revision']) == (5, revision)`
abbrev pub ends_with : ℤ → Event → Bool
ends_with expected (gate_final owner active limit revision) =
    eq_ℤ limit (pos 5) && eq_ℤ revision expected
ends_with expected e = false

abbrev pub is_applied : Delay → Bool
is_applied d = elim d.applied_ms [ none ↦ false | some v ↦ true ]

pub record Discovery : Type 0 where
  pub requests : ℕ
  pub successes : ℕ
  pub failures : ℕ
  pub incomplete : ℤ
  pub policies : List Event
  pub delays : List Delay
  pub final : Event

abbrev pub summary_of : List Event → List Change → Event → Discovery
summary_of events changes final = record {
  requests = count is_discovery events;
  successes = count is_successful_end events;
  failures = count is_failed_end events;
  incomplete = pos (count is_discovery events) -ℤ pos (count is_discovery_end events);
  policies = keep is_ready_policy events;
  delays = application_delays events changes;
  final = final;
}

-- The revision in which an adaptive client ends.
abbrev pub last_revision : List Change → ℤ
last_revision [] = pos 1
last_revision (c ∷ changes) = pos 3

-- The tests on a fixed client (mode D), and on an adaptive one.
abbrev pub check_mode : Bool → List Event → List Change → Event → Result (Unit {0})
check_mode true events changes final = do
  require (count is_ready_policy events == 1 && count is_discovery events == 1) (assertion_error "")
  require (ends_with (pos 1) final) (assertion_error "")
  require (all (λ d. not (is_applied d)) (application_delays events changes)) (assertion_error "")
check_mode false events changes final = do
  require (all is_applied (application_delays events changes)) (assertion_error "")
  require (ends_with (last_revision changes) final) (assertion_error "")

unfoldable pub client_policy : List Event → List Change → Bool → Result Discovery
client_policy events changes fixed = do
  raise_if (any is_foreign events) (assertion_error "")
  raise_if (any is_busy_end events) (assertion_error "")
  require (is_first_policy (first is_ready_policy events)) (assertion_error "")
  final ← elim (first is_final events) [ none ↦ err stop_iteration | some e ↦ ok e ]
  check_mode fixed events changes final
  ok (summary_of events changes final)

ends_counted :
    (events : List Event)
    → count is_successful_end events + count is_failed_end events ≡ count is_discovery_end events
ends_counted [] = refl
ends_counted (discovery_end success ∷ events) = ground (arith, ends_counted events)
ends_counted (arrival id at_ms ∷ events) = ends_counted events
ends_counted (attempt_start id number at_ms ∷ events) = ends_counted events
ends_counted (attempt_end id number at_ms status problem kind retry_after ∷ events) =
    ends_counted events
ends_counted (terminal id outcome reason at_ms ∷ events) = ends_counted events
ends_counted (discovery_start owner at_ms ∷ events) = ends_counted events
ends_counted (policy_applied owner ready revision limit at_ms ∷ events) = ends_counted events
ends_counted (gate_final owner active limit revision ∷ events) = ends_counted events

-- The tests before the last, and the result.
four_guards :
    (a b c : Bool) (m : Result Event) (k : Event → Result (Unit {0})) (v : Event → Discovery)
    (x : Exception) (w : Discovery)
    → (raise_if a x >> (raise_if b x >> (require c x >> (m >>= λ e. (k e >> ok (v e)))))) ≡ ok w
    → (e : Event) × (k e ≡ ok tt) × (w ≡ v e)
four_guards a b c (err q) k v x w h = let raised : ⊥ = ground arith in absurd raised
four_guards a b c (ok e) k v x w h = (e, ground arith, ground arith)

-- The requests of a client that passes are its successes, its failures and those that did not end;
-- and a fixed client made one request and applied one policy.
pub client_policy-counts :
    (events : List Event) (changes : List Change) (fixed : Bool) (d : Discovery)
    → client_policy events changes fixed ≡ ok d
    → (d.incomplete ≡ pos d.requests -ℤ pos (d.successes + d.failures))
      × ((fixed ≡ false) ⊎ ((d.requests ≡ 1) × (length d.policies ≡ 1)))
unfolding client_policy
client_policy-counts events changes fixed d h =
    let (final, checked, same) =
      four_guards (any is_foreign events) (any is_busy_end events)
        (is_first_policy (first is_ready_policy events)) _ (check_mode fixed events changes)
        (summary_of events changes) (assertion_error "") d h in
    let ends = ends_counted events in
    subst
      (λ (x : Discovery).
        (x.incomplete ≡ pos x.requests -ℤ pos (x.successes + x.failures))
        × ((fixed ≡ false) ⊎ ((x.requests ≡ 1) × (length x.policies ≡ 1))))
      (sym same)
      (
        ap (λ (n : ℕ). pos (count is_discovery events) -ℤ pos n) (sym ends),
        once fixed final checked,
      )
  where
    once :
        (fixed : Bool) (final : Event)
        → check_mode fixed events changes final ≡ ok tt
        → (fixed ≡ false)
          ⊎ ((count is_discovery events ≡ 1) × (length (keep is_ready_policy events) ≡ 1))
    once false final checked = inl refl
    once true final checked = let kept = length-keep is_ready_policy events in inr (ground arith)

-- The test on the attempt before a retry.
abbrev pub permits_retry : Attempt → Bool
permits_retry a = has_status 429 a || is_queue_timeout a

-- `after['start_ms'] - before['end_ms'] >= int(before['retry_after'] or 1) * 1000`, where `int` of a
-- text is an argument.
abbrev pub delay_before : (String → Result ℤ) → Option String → Result ℤ
delay_before parse_int none = ok (pos 1)
delay_before parse_int (some s) = if str_eq s "" then ok (pos 1) else parse_int s

abbrev pub ended : Attempt → Result ℤ
ended a = elim a.end_ms [ none ↦ err type_error | some at_ms ↦ ok at_ms ]

abbrev pub audit_pair : (String → Result ℤ) → Attempt → Attempt → Result (Unit {0})
audit_pair parse_int before after = do
  require (permits_retry before) (assertion_error "")
  end_ms ← ended before
  seconds ← delay_before parse_int before.retry_after
  require (leb_ℤ (seconds *ℤ pos 1000) (after.start_ms -ℤ end_ms)) (assertion_error "")

abbrev pub audit_pairs : (String → Result ℤ) → List Attempt → Result (Unit {0})
audit_pairs parse_int [] = ok tt
audit_pairs parse_int (a ∷ []) = ok tt
audit_pairs parse_int (a ∷ b ∷ attempts) =
    audit_pair parse_int a b >> audit_pairs parse_int (b ∷ attempts)

unfoldable pub audit_retries : (String → Result ℤ) → List Attempt → Result (Unit {0})
audit_retries parse_int attempts = do
  require (leb (length attempts) 5) (assertion_error "")
  audit_pairs parse_int attempts

pairs_permitted :
    (parse_int : String → Result ℤ) (a : Attempt) (attempts : List Attempt)
    → audit_pairs parse_int (a ∷ attempts) ≡ ok tt
    → length attempts ≤ count permits_retry (a ∷ attempts)
pairs_permitted parse_int a [] h = omega arith
pairs_permitted parse_int a (b ∷ attempts) h = elim (Result-cases (audit_pair parse_int a b)) [
  | inr (e, q) ↦ let raised : ⊥ = cc in absurd raised
  | inl (u, q) ↦
      let (x, first_pair, others) =
        >>=-ok (audit_pair parse_int a b) (λ _. audit_pairs parse_int (b ∷ attempts)) h in
      let permitted : permits_retry a ≡ true = ground arith in
      let ih = pairs_permitted parse_int b attempts others in ground arith
]

-- The attempts of a task that passes are five at most, and all but one were refused in a way that
-- permits a retry.
pub audit_retries_bounds :
    (parse_int : String → Result ℤ) (a : Attempt) (attempts : List Attempt)
    → audit_retries parse_int (a ∷ attempts) ≡ ok tt
    → (length (a ∷ attempts) ≤ 5) × (length (a ∷ attempts) ≤ count permits_retry (a ∷ attempts) + 1)
unfolding audit_retries
audit_retries_bounds parse_int a attempts h =
    let audited : audit_pairs parse_int (a ∷ attempts) ≡ ok tt =
      after (leb (length (a ∷ attempts)) 5) (assertion_error "") _ h in
    let few : leb (length (a ∷ attempts)) 5 ≡ true = within _ _ _ h in
    let most = pairs_permitted parse_int a attempts audited in ground arith
  where
    after :
        (b : Bool) (x : Exception) (m : Result (Unit {0})) → (require b x >> m) ≡ ok tt → m ≡ ok tt
    after b x m g = ground arith

    within :
        (b : Bool) (x : Exception) (m : Result (Unit {0})) → (require b x >> m) ≡ ok tt → b ≡ true
    within b x m g = ground arith
