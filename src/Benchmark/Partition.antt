-- ===== src/Benchmark/Partition.antt =====
-- `partition` (benchmarks/multiclient/run.py): one owner's tasks are dealt out to processes.
use ai_protocol.Base.{
  ◌==◌, str_eq, ℕ, zero, suc, ◌-◌, String, Bool, ◌&&◌, ◌||◌, List, [], ◌∷◌, ◌++◌,
}
use ai_protocol.Base.Lists.{length, all, any, keep}
use ai_protocol.Result.{assertion_error, Result, ok, ◌>>◌, require}
use ai_protocol.Benchmark.Tasks.{Task, is_kind, task_ids, distinct}

-- `xs[start::step]`
abbrev pub every {ℓ} : {A : Type ℓ} → ℕ → ℕ → List A → List A
every start step [] = []
every zero step (x ∷ xs) = x ∷ every (step - 1) step xs
every (suc start) step (x ∷ xs) = every start step xs

-- A process: the ones named `agent-1` and so on, with the tokens `AGENT_TOKEN_1` and so on; and the
-- one that is interactive.
pub data Process : Type 0 where
  agent : ℕ → Process
  interactive : Process

pub record Group : Type 0 where
  pub process : Process
  pub tasks : List Task

-- The groups of the agents from `index` on, of which `left` are to come.
abbrev pub agent_groups : ℕ → ℕ → ℕ → List Task → List Group
agent_groups index zero workers agents = []
agent_groups index (suc left) workers agents =
    record { process = agent (suc index); tasks = every index workers agents }
    ∷ agent_groups (suc index) left workers agents

-- `task for group in groups for task in group['tasks']`
abbrev pub assigned : List Group → List Task
assigned [] = []
assigned (g ∷ groups) = g.tasks ++ assigned groups

abbrev pub groups_of : List Task → ℕ → List Group
groups_of tasks workers =
    agent_groups 0 workers workers (keep (is_kind "agent") tasks)
    ++ record { process = interactive; tasks = keep (is_kind "interactive") tasks } ∷ []

-- `set(xs) == set(ys)`
abbrev pub same_ids : List String → List String → Bool
same_ids xs ys = all (λ x. any (str_eq x) ys) xs && all (λ y. any (str_eq y) xs) ys

unfoldable pub partition : List Task → ℕ → Result (List Group)
partition tasks workers = do
  require (workers == 1 || workers == 2 || workers == 4) (assertion_error "")
  require (all (λ t. str_eq t.owner "demo-owner") tasks) (assertion_error "")
  let ids = task_ids (assigned (groups_of tasks workers))
  require (distinct ids && length ids == length tasks) (assertion_error "")
  require (same_ids ids (task_ids tasks)) (assertion_error "")
  ok (groups_of tasks workers)
