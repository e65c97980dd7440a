-- ===== src/Benchmark/Tasks.antt =====
-- The tasks of a run (benchmarks/stage4/run.py and its configuration files). Times are in whole
-- milliseconds.
use ai_protocol.Base.{str_eq, String, Bool, true, not, ◌&&◌, List, [], ◌∷◌, map}
use ai_protocol.Base.Int.{ℤ}
use ai_protocol.Base.Lists.{any}

pub record Task : Type 0 where
  pub id : String
  pub owner : String
  pub kind : String
  pub arrival_ms : ℤ

-- The test on `task['class']`.
abbrev pub is_kind : String → Task → Bool
is_kind kind t = str_eq t.kind kind

abbrev pub task_ids : List Task → List String
task_ids tasks = map (λ t. t.id) tasks

-- `len(ids) == len(set(ids))`
abbrev pub distinct : List String → Bool
distinct [] = true
distinct (x ∷ xs) = not (any (str_eq x) xs) && distinct xs
