-- ===== src/Benchmark/Phases.antt =====
-- benchmarks/stage4_1/comparison.py: the results by phase.
use ai_protocol.Base.{
  ◌==◌, if◌then◌else◌, ℕ, ◌+◌, String, ◌≡◌, refl, Bool, true, false, ◌&&◌, Option, none, some, List,
  [], ◌∷◌, map, arith,
}
use ai_protocol.Base.Int.{ℤ, pos, ltb_ℤ, leb_ℤ}
use ai_protocol.Base.Lists.{length, keep, count, sum}
use ai_protocol.Json.{Json}
use ai_protocol.Benchmark.Records.{
  Event, attempt_start, attempt_end, terminal, discovery_start, Row,
}
use ai_protocol.Benchmark.Summary.{is_queue_error, Figures, summarize}
use ai_protocol.Benchmark.Delays.{tally, failure_reasons}

-- A window of time: no bound stands for infinity.
pub record Window : Type 0 where
  pub name : String
  pub low : Option ℤ
  pub high : Option ℤ

unfoldable pub windows : Bool → List Window
windows true =
    record { name = "before_start"; low = none; high = some (pos 0) }
    ∷ record { name = "initial"; low = some (pos 0); high = some (pos 2000) }
    ∷ record { name = "reduced"; low = some (pos 2000); high = some (pos 5000) }
    ∷ record { name = "restored"; low = some (pos 5000); high = none }
    ∷ []
windows false =
    record { name = "before_start"; low = none; high = some (pos 0) }
    ∷ record { name = "constant"; low = some (pos 0); high = none }
    ∷ []

abbrev pub from_low : Option ℤ → ℤ → Bool
from_low none v = true
from_low (some low) v = leb_ℤ low v

abbrev pub below_high : Option ℤ → ℤ → Bool
below_high none v = true
below_high (some high) v = ltb_ℤ v high

-- `lo <= v < hi`
abbrev pub in_window : Window → ℤ → Bool
in_window w v = from_low w.low v && below_high w.high v

abbrev pub cohort : Window → List Row → List Row
cohort w rows = keep (λ r. in_window w r.task.arrival_ms) rows

abbrev pub started_in : Window → Event → Bool
started_in w (attempt_start id number at_ms) = in_window w at_ms
started_in w e = false

abbrev pub discovered_in : Window → Event → Bool
discovered_in w (discovery_start owner at_ms) = in_window w at_ms
discovered_in w e = false

-- The answers of a window, by a test on the status and the error.
abbrev pub answered_in : Window → (Option ℕ → Option Json → Bool) → Event → Bool
answered_in w p (attempt_end id number at_ms status problem kind retry_after) =
    in_window w at_ms && p status problem
answered_in w p e = false

abbrev pub ended_in : Window → List Event → List String
ended_in w [] = []
ended_in w (terminal id outcome reason at_ms ∷ events) =
    let rest = ended_in w events in if in_window w at_ms then outcome ∷ rest else rest
ended_in w (e ∷ events) = ended_in w events

pub record Phase : Type 0 where
  pub name : String
  pub interactive_cohort : Figures
  pub agent_cohort : Figures
  pub interactive_failures : List (String × ℕ)
  pub agent_failures : List (String × ℕ)
  pub operation_starts : ℕ
  pub http_429_responses : ℕ
  pub queue_timeout_responses : ℕ
  pub discovery_starts : ℕ
  pub terminal_outcomes : List (String × ℕ)
  pub upstream_starts : ℕ

abbrev pub is_429 : Option ℕ → Option Json → Bool
is_429 none problem = false
is_429 (some status) problem = status == 429

abbrev pub is_timeout : Option ℕ → Option Json → Bool
is_timeout none problem = false
is_timeout (some status) problem = status == 503 && is_queue_error problem

-- The phase of one window. `upstream` are the times, from the start, of the measured requests that
-- the upstream started.
abbrev pub phase_of : (ℕ → ℕ → ℕ) → List Row → List Event → List ℤ → Window → Phase
phase_of rank rows events upstream w = record {
  name = w.name;
  interactive_cohort = summarize rank "interactive" (cohort w rows);
  agent_cohort = summarize rank "agent" (cohort w rows);
  interactive_failures = failure_reasons "interactive" (cohort w rows);
  agent_failures = failure_reasons "agent" (cohort w rows);
  operation_starts = count (started_in w) events;
  http_429_responses = count (answered_in w is_429) events;
  queue_timeout_responses = count (answered_in w is_timeout) events;
  discovery_starts = count (discovered_in w) events;
  terminal_outcomes = tally [] (ended_in w events);
  upstream_starts = count (in_window w) upstream;
}

unfoldable pub phase_results : (ℕ → ℕ → ℕ) → List Row → List Event → List ℤ → Bool → List Phase
unfolding windows
phase_results rank rows events upstream dynamic =
    map (phase_of rank rows events upstream) (windows dynamic)

-- A time lies in one window.
one_window : (dynamic : Bool) (v : ℤ) → count (λ w. in_window w v) (windows dynamic) ≡ 1
unfolding windows
one_window true v = ground arith
one_window false v = ground arith

over_windows : (Window → ℕ) → List Window → ℕ
over_windows f [] = 0
over_windows f (w ∷ ws) = f w + over_windows f ws

over_windows-cons :
    (v : ℤ) (vs : List ℤ) (ws : List Window)
    → over_windows (λ w. count (in_window w) (v ∷ vs)) ws
      ≡ count (λ w. in_window w v) ws + over_windows (λ w. count (in_window w) vs) ws
unfolding over_windows
over_windows-cons v vs [] = refl
over_windows-cons v vs (w ∷ ws) = ground (arith, over_windows-cons v vs ws)

each_once :
    (dynamic : Bool) (vs : List ℤ)
    → over_windows (λ w. count (in_window w) vs) (windows dynamic) ≡ length vs
unfolding over_windows windows
each_once true [] = refl
each_once false [] = refl
each_once dynamic (v ∷ vs) =
    omega
      (arith, over_windows-cons v vs (windows dynamic), one_window dynamic v, each_once dynamic vs)

-- The phases together count every measured request of the upstream once.
pub phase_results-upstream :
    (rank : ℕ → ℕ → ℕ) (rows : List Row) (events : List Event) (upstream : List ℤ) (dynamic : Bool)
    → sum (map (λ p. p.upstream_starts) (phase_results rank rows events upstream dynamic))
      ≡ length upstream
unfolding phase_results windows over_windows
phase_results-upstream rank rows events upstream true = each_once true upstream
phase_results-upstream rank rows events upstream false = each_once false upstream
