-- ===== src/Benchmark/Summary.antt =====
-- `summarize` (benchmarks/stage4/analyze.py), and the phases, failure reasons and delays of
-- benchmarks/stage4_1/comparison.py.
use ai_protocol.Base.{
  ltb, ◌==◌, str_eq, if◌then◌else◌, ℕ, String, Bool, false, ◌&&◌, ◌||◌, Option, none, some, List,
  [], ◌∷◌, ◌++◌, map,
}
use ai_protocol.Base.Int.{ℤ, ◌-ℤ◌, leb_ℤ}
use ai_protocol.Base.Lists.{length, keep, count}
use ai_protocol.Json.{Json, obj, size, get, eq_str}
use ai_protocol.Benchmark.Tasks.{is_kind}
use ai_protocol.Benchmark.Percentile.{percentile}
use ai_protocol.Benchmark.Records.{Attempt, Row}

-- The values that are there.
abbrev pub present : List (Option ℤ) → List ℤ
present [] = []
present (none ∷ os) = present os
present (some v ∷ os) = v ∷ present os

abbrev pub has_outcome : String → Row → Bool
has_outcome outcome r = str_eq r.outcome outcome

abbrev pub all_attempts : List Row → List Attempt
all_attempts [] = []
all_attempts (r ∷ rows) = r.attempts ++ all_attempts rows

abbrev pub has_status : ℕ → Attempt → Bool
has_status status a = elim a.status [ none ↦ false | some s ↦ s == status ]

abbrev pub is_text : Option String → String → Bool
is_text none s = false
is_text (some t) s = str_eq t s

abbrev pub fields_of : Json → ℕ
fields_of (obj fs) = size fs
fields_of v = 0

-- `a.get('error') == {'code': 'queue_timeout', 'execution': 'not_started'}`
abbrev pub is_queue_error : Option Json → Bool
is_queue_error none = false
is_queue_error (some v) =
    fields_of v == 2
    && eq_str (get v "code") "queue_timeout"
    && eq_str (get v "execution") "not_started"

abbrev pub is_queue_timeout : Attempt → Bool
is_queue_timeout a = has_status 503 a && is_queue_error a.problem

abbrev pub is_upstream_error : Attempt → Bool
is_upstream_error a = has_status 502 a || has_status 504 a

-- `max(…)` and `min(…)`
abbrev pub greatest : List ℤ → Option ℤ
greatest [] = none
greatest (v ∷ vs) = elim (greatest vs) [
  | none ↦ some v
  | some w ↦ some (if leb_ℤ v w then w else v)
]

abbrev pub least : List ℤ → Option ℤ
least [] = none
least (v ∷ vs) = elim (least vs) [ none ↦ some v | some w ↦ some (if leb_ℤ v w then v else w) ]

abbrev pub difference : Option ℤ → Option ℤ → Option ℤ
difference (some a) (some b) = some (a -ℤ b)
difference a b = none

abbrev pub lag : Row → Option ℤ
lag r = difference r.arrived_ms (some r.task.arrival_ms)

-- A quotient, by its two parts; absent without rows.
abbrev pub per_task : ℕ → List Row → Option (ℕ × ℕ)
per_task n [] = none
per_task n (r ∷ rows) = some (n, length (r ∷ rows))

pub record Figures : Type 0 where
  pub tasks : ℕ
  pub success : ℕ
  pub failed : ℕ
  pub unfinished : ℕ
  pub success_fraction : Option (ℕ × ℕ)
  pub failed_fraction : Option (ℕ × ℕ)
  pub unfinished_fraction : Option (ℕ × ℕ)
  pub successful_e2e_p50_ms : Option ℤ
  pub successful_e2e_p95_ms : Option ℤ
  pub successful_e2e_p99_ms : Option ℤ
  pub attempts : ℕ
  pub attempts_per_task : Option (ℕ × ℕ)
  pub http_429 : ℕ
  pub queue_timeout : ℕ
  pub network_errors : ℕ
  pub upstream_errors : ℕ
  pub generator_rejections : ℕ
  pub arrival_lag_p99_ms : Option ℤ
  pub all_success_batch_ms : Option ℤ

-- The end-to-end times of the successes, which `reconstruct` gives to each.
abbrev pub success_times : List Row → List ℤ
success_times rows = present (map (λ r. r.e2e_ms) (keep (has_outcome "success") rows))

-- Given only where there are rows and all are successes.
unfoldable pub batch_ms : List Row → Option ℤ
batch_ms rows =
    if ltb 0 (length rows) && count (has_outcome "success") rows == length rows
    then difference (greatest (present (map (λ r. r.completed_ms) rows)))
        (least (map (λ r. r.task.arrival_ms) rows))
    else none

abbrev pub figures : (ℕ → ℕ → ℕ) → List Row → Figures
figures rank rows = record {
  tasks = length rows;
  success = count (has_outcome "success") rows;
  failed = count (has_outcome "failed") rows;
  unfinished = count (has_outcome "unfinished") rows;
  success_fraction = per_task (count (has_outcome "success") rows) rows;
  failed_fraction = per_task (count (has_outcome "failed") rows) rows;
  unfinished_fraction = per_task (count (has_outcome "unfinished") rows) rows;
  successful_e2e_p50_ms = percentile rank (success_times rows) 50;
  successful_e2e_p95_ms = percentile rank (success_times rows) 95;
  successful_e2e_p99_ms = percentile rank (success_times rows) 99;
  attempts = length (all_attempts rows);
  attempts_per_task = per_task (length (all_attempts rows)) rows;
  http_429 = count (has_status 429) (all_attempts rows);
  queue_timeout = count is_queue_timeout (all_attempts rows);
  network_errors = count (λ a. is_text a.error_kind "network_error") (all_attempts rows);
  upstream_errors = count is_upstream_error (all_attempts rows);
  generator_rejections = count (λ r. str_eq r.reason "generator_capacity") rows;
  arrival_lag_p99_ms = percentile rank (present (map lag rows)) 99;
  all_success_batch_ms = batch_ms rows;
}

-- The result for one of the two classes; `rank` is the rank that `percentile` computes.
unfoldable pub summarize : (ℕ → ℕ → ℕ) → String → List Row → Figures
unfolding batch_ms
summarize rank kind rows = figures rank (keep (λ r. is_kind kind r.task) rows)
