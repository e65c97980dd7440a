-- ===== src/Benchmark/Delays.antt =====
-- benchmarks/stage4_1/comparison.py: failure reasons, and the delay until a changed policy is
-- applied.
use ai_protocol.Base.{
  str_eq, if◌then◌else◌, ℕ, suc, ◌+◌, String, ◌≡◌, refl, ap, Bool, false, ◌&&◌, Option, none, some,
  List, [], ◌∷◌, map, arith,
}
use ai_protocol.Base.Int.{ℤ, pos, pos_part, ◌-ℤ◌, ◌≤ℤ◌, eq_ℤ}
use ai_protocol.Base.Lists.{length, keep, first, count, All, length-keep}
use ai_protocol.Benchmark.Tasks.{is_kind}
use ai_protocol.Benchmark.Records.{Event, policy_applied, Row}
use ai_protocol.Benchmark.Summary.{has_outcome}

-- `Counter(…)` of texts, in the order of their first occurrence.
abbrev pub tally_one : String → List (String × ℕ) → List (String × ℕ)
tally_one s [] = (s, 1) ∷ []
tally_one s ((t, n) ∷ counts) =
    let rest = tally_one s counts in if str_eq s t then (t, n + 1) ∷ counts else (t, n) ∷ rest

abbrev pub tally : List (String × ℕ) → List String → List (String × ℕ)
tally counts [] = counts
tally counts (s ∷ ss) = tally (tally_one s counts) ss

abbrev pub is_failure : String → Row → Bool
is_failure kind r = is_kind kind r.task && has_outcome "failed" r

unfoldable pub failure_reasons : String → List Row → List (String × ℕ)
failure_reasons kind rows = tally [] (map (λ r. r.reason) (keep (is_failure kind) rows))

abbrev pub total : List (String × ℕ) → ℕ
total [] = 0
total ((s, n) ∷ counts) = n + total counts

tally_one-total :
    (s : String) (counts : List (String × ℕ)) → total (tally_one s counts) ≡ total counts + 1
tally_one-total s [] = refl
tally_one-total s ((t, n) ∷ counts) = ground (arith, tally_one-total s counts)

tally-total :
    (ss : List String) (counts : List (String × ℕ))
    → total (tally counts ss) ≡ total counts + length ss
tally-total [] counts = omega arith
tally-total (s ∷ ss) counts =
    omega (arith, tally-total ss (tally_one s counts), tally_one-total s counts)

length-map : (f : Row → String) (rows : List Row) → length (map f rows) ≡ length rows
length-map f [] = refl
length-map f (r ∷ rows) = ap suc (length-map f rows)

-- The reasons of a class account for each of its failures, once.
pub failure_reasons-total :
    (kind : String) (rows : List Row)
    → total (failure_reasons kind rows) ≡ count (is_failure kind) rows
unfolding failure_reasons
failure_reasons-total kind rows =
    let reasons = map (λ r. r.reason) (keep (is_failure kind) rows) in
    let sum' = tally-total reasons [] in
    let mapped = length-map (λ r. r.reason) (keep (is_failure kind) rows) in
    let kept = length-keep (is_failure kind) rows in omega arith

-- A change of a policy by its administrator, in milliseconds.
pub record Change : Type 0 where
  pub owner : String
  pub revision : ℤ
  pub limit : ℤ
  pub request_started : ℤ
  pub actual : ℤ

pub record Delay : Type 0 where
  pub change : Change
  pub applied_ms : Option ℤ
  pub delay_lower_ms : Option ℤ
  pub delay_upper_ms : Option ℤ

-- The time of the first event that applies the change.
abbrev pub applies : Change → Event → Bool
applies c (policy_applied owner ready revision limit at_ms) =
    str_eq owner c.owner && ready && eq_ℤ revision c.revision && eq_ℤ limit c.limit
applies c e = false

abbrev pub time_of : Option Event → Option ℤ
time_of (some (policy_applied owner ready revision limit at_ms)) = some at_ms
time_of o = none

-- `max(0, applied - since)`
abbrev pub since : ℤ → Option ℤ → Option ℤ
since start none = none
since start (some applied) = some (pos (pos_part (applied -ℤ start)))

abbrev pub delay_of : Change → Option ℤ → Delay
delay_of c applied = record {
  change = c;
  applied_ms = applied;
  delay_lower_ms = since c.actual applied;
  delay_upper_ms = since c.request_started applied;
}

unfoldable pub application_delays : List Event → List Change → List Delay
application_delays events changes =
    map (λ c. delay_of c (time_of (first (applies c) events))) changes

-- Both bounds are there, or neither is; and they are in order.
abbrev pub Ordered : Option ℤ → Option ℤ → Type 0
Ordered none none = Unit
Ordered (some a) (some b) = (pos 0 ≤ℤ a) × (a ≤ℤ b)
Ordered a b = ⊥

since-Ordered : (a b : ℤ) (o : Option ℤ) → a ≤ℤ b → Ordered (since b o) (since a o)
since-Ordered a b none h = tt
since-Ordered a b (some v) h = unfold ◌-ℤ◌ in ground arith

-- Where every request was answered after it was made, each delay has two bounds in order, or none.
pub application_delays-Ordered :
    (events : List Event) (changes : List Change)
    → All (λ c. c.request_started ≤ℤ c.actual) changes
    → All (λ d. Ordered d.delay_lower_ms d.delay_upper_ms) (application_delays events changes)
unfolding application_delays
application_delays-Ordered events [] h = tt
application_delays-Ordered events (c ∷ changes) (h, hs) = (
  since-Ordered c.request_started c.actual (time_of (first (applies c) events)) h,
  application_delays-Ordered events changes hs,
)
