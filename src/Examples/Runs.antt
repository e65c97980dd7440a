-- ===== src/Examples/Runs.antt =====
-- The analysis of a run at work: three tasks of two classes.
use ai_protocol.Base.{ℕ, ◌+◌, ◌*◌, ◌/◌, String, ◌≡◌, refl, true, none, some, List, [], ◌∷◌, arith}
use ai_protocol.Base.Int.{ℤ, pos}
use ai_protocol.Base.Lists.{keep, count}
use ai_protocol.Result.{Result, ok, err}
use ai_protocol.Benchmark.Tasks.{Task, is_kind}
use ai_protocol.Benchmark.Partition.{Group, assigned, groups_of, partition}
use ai_protocol.Benchmark.Round.{partition-keeps}
use ai_protocol.Benchmark.Percentile.{percentile, IsNearestRank, percentile-IsNearestRank}
use ai_protocol.Benchmark.Records.{
  Event, arrival, attempt_start, attempt_end, terminal, discovery_start, policy_applied, Row, apply,
  update_row, take_events, reconstruct,
}
use ai_protocol.Benchmark.Records.Own.{row_of, tasks_of, is_of}
use ai_protocol.Benchmark.Records.Ending.{
  last_final, IsEnding, IsListed, AreDistinct, reconstruct-IsEnding,
}
use ai_protocol.Benchmark.Delays.{Change}

abbrev task_of : String → String → ℕ → Task
task_of id kind at_ms = record {
  id = id;
  owner = "demo-owner";
  kind = kind;
  arrival_ms = pos at_ms;
}

abbrev three_tasks : List Task
three_tasks =
    task_of "t0" "agent" 0 ∷ task_of "t1" "interactive" 100 ∷ task_of "t2" "agent" 2500 ∷ []

abbrev two_workers : List Group
two_workers = groups_of three_tasks 2

divided : partition three_tasks 2 ≡ ok two_workers
unfolding partition
divided = refl

partition-keeps_example :
    count (is_kind "agent") (assigned two_workers) ≡ count (is_kind "agent") three_tasks
partition-keeps_example = partition-keeps (is_kind "agent") three_tasks 2 two_workers divided

-- A rank that is exact.
abbrev exact_rank : ℕ → ℕ → ℕ
exact_rank n percent = (n * percent + 99) / 100

percentile-IsNearestRank_example :
    (x : ℤ) × (percentile exact_rank (pos 5 ∷ pos 1 ∷ pos 9 ∷ []) 95 ≡ some x)
    × IsNearestRank 95 (pos 5 ∷ pos 1 ∷ pos 9 ∷ []) x
percentile-IsNearestRank_example =
    percentile-IsNearestRank exact_rank (pos 5) (pos 1 ∷ pos 9 ∷ []) 95 (omega arith) (omega arith)
      (omega arith, omega arith)

abbrev seen : List Event
seen =
    discovery_start "demo-owner" (pos 0)
    ∷ policy_applied "demo-owner" true (pos 1) (pos 5) (pos 1)
    ∷ arrival "t0" (pos 2)
    ∷ attempt_start "t0" 1 (pos 3)
    ∷ arrival "t1" (pos 101)
    ∷ attempt_end "t0" 1 (pos 50) (some 200) none none none
    ∷ terminal "t0" "success" "ok" (pos 51)
    ∷ terminal "t1" "failed" "deadline" (pos 900)
    ∷ policy_applied "demo-owner" true (pos 2) (pos 2) (pos 2050)
    ∷ []

abbrev rebuilt : Result (List Row)
rebuilt = reconstruct three_tasks seen

abbrev rows_of : Result (List Row) → List Row
rows_of (ok rows) = rows
rows_of (err e) = []

rebuilt_ok : reconstruct three_tasks seen ≡ ok (rows_of rebuilt)
unfolding reconstruct take_events update_row apply
rebuilt_ok = refl

abbrev reduction : Change
reduction = record {
  owner = "demo-owner";
  revision = pos 2;
  limit = pos 2;
  request_started = pos 2000;
  actual = pos 2010;
}

three_distinct : AreDistinct three_tasks
three_distinct = ((refl, (refl, tt)), ((refl, tt), (tt, tt)))

-- The second task failed, and the third stayed unfinished.
reconstruct-IsEnding_example :
    (tasks_of (rows_of rebuilt) ≡ three_tasks)
    × ((t : Task)
        → IsListed t three_tasks
        → (r : Row) × (row_of t.id (rows_of rebuilt) ≡ some r)
          × (r.task ≡ t)
          × IsEnding t (last_final (keep (is_of t.id) seen)) r)
reconstruct-IsEnding_example =
    reconstruct-IsEnding three_tasks seen (rows_of rebuilt) three_distinct rebuilt_ok
