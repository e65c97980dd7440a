-- ===== src/Benchmark/Round.antt =====
-- Dealing out in turns loses no task and repeats none, and gives each process its fair share.
use ai_protocol.Base.{
  ◌==◌, str_eq, ==_iff, ℕ, zero, suc, ◌+◌, ◌-◌, ◌≤◌, ◌<◌, String, ◌≡◌, refl, sym, ap, ◌∙◌, Bool,
  true, false, not, ◌&&◌, ◌||◌, List, [], ◌∷◌, ◌++◌, arith, eq_iff,
}
use ai_protocol.Base.Lists.{length, all, keep, count, count-append, count-le-length}
use ai_protocol.Result.{Exception, assertion_error, ok, ◌>>◌, require}
use ai_protocol.Benchmark.Tasks.{Task, is_kind, task_ids, distinct}
use ai_protocol.Benchmark.Partition.{
  every, interactive, Group, agent_groups, assigned, groups_of, same_ids, partition,
}

-- The tasks with some property in the groups from `index` on.
abbrev dealt : (Task → Bool) → ℕ → ℕ → ℕ → List Task → ℕ
dealt p index zero workers agents = 0
dealt p index (suc left) workers agents =
    count p (every index workers agents) + dealt p (suc index) left workers agents

count-assigned :
    (p : Task → Bool) (index left workers : ℕ) (agents : List Task)
    → count p (assigned (agent_groups index left workers agents))
      ≡ dealt p index left workers agents
count-assigned p index zero workers agents = refl
count-assigned p index (suc left) workers agents =
    let rest = assigned (agent_groups (suc index) left workers agents) in
    count-append p (every index workers agents) rest
    ∙ ap (λ (n : ℕ). count p (every index workers agents) + n)
        (count-assigned p (suc index) left workers agents)

dealt-nil : (p : Task → Bool) (index left workers : ℕ) → dealt p index left workers [] ≡ 0
dealt-nil p index zero workers = refl
dealt-nil p index (suc left) workers = let ih = dealt-nil p (suc index) left workers in omega arith

dealt-suc :
    (p : Task → Bool) (index left workers : ℕ) (t : Task) (agents : List Task)
    → dealt p (suc index) left workers (t ∷ agents) ≡ dealt p index left workers agents
dealt-suc p index zero workers t agents = refl
dealt-suc p index (suc left) workers t agents =
    ap (λ (n : ℕ). count p (every index workers agents) + n)
      (dealt-suc p (suc index) left workers t agents)

-- The last group apart.
dealt-last :
    (p : Task → Bool) (index left workers : ℕ) (agents : List Task)
    → dealt p index (suc left) workers agents
      ≡ dealt p index left workers agents + count p (every (index + left) workers agents)
dealt-last p index zero workers agents =
    let same : index + 0 ≡ index = omega arith in rw same (omega arith)
dealt-last p index (suc left) workers agents =
    let same : index + suc left ≡ suc index + left = omega arith in
    let ih = dealt-last p (suc index) left workers agents in rw same (omega (arith, ih))

-- With at least one process every task is dealt out once.
dealt-all :
    (p : Task → Bool) (more : ℕ) (agents : List Task)
    → dealt p 0 (suc more) (suc more) agents ≡ count p agents
dealt-all p more [] = dealt-nil p 0 (suc more) (suc more)
dealt-all p more (t ∷ agents) =
    let shifted = dealt-suc p 0 more (suc more) t agents in
    let last = dealt-last p 0 more (suc more) agents in
    let ih = dealt-all p more agents in ground arith

-- The tasks of either class, and the others.
abbrev unclassified : Task → Bool
unclassified t = not (is_kind "agent" t) && not (is_kind "interactive" t)

either_kind : (t : Task) → is_kind "agent" t ≡ true → is_kind "interactive" t ≡ false
either_kind t h = ap (λ (s : String). str_eq s "interactive") ((eq_iff t.kind "agent").0 h)

count-kinds :
    (p : Task → Bool) (tasks : List Task)
    → count p tasks
      ≡ count p (keep (is_kind "agent") tasks)
        + count p (keep (is_kind "interactive") tasks)
        + count p (keep unclassified tasks)
count-kinds p [] = refl
count-kinds p (t ∷ tasks) = ground (arith, either_kind t, count-kinds p tasks)

count-groups :
    (p : Task → Bool) (groups others : List Group)
    → count p (assigned (groups ++ others)) ≡ count p (assigned groups) + count p (assigned others)
count-groups p [] others = omega arith
count-groups p (g ∷ groups) others =
    let whole = count-append p g.tasks (assigned (groups ++ others)) in
    let part = count-append p g.tasks (assigned groups) in
    omega (arith, whole, part, count-groups p groups others)

count-groups_of :
    (p : Task → Bool) (tasks : List Task) (more : ℕ)
    → count p (assigned (groups_of tasks (suc more)))
      ≡ count p (keep (is_kind "agent") tasks) + count p (keep (is_kind "interactive") tasks)
count-groups_of p tasks more =
    let agents = keep (is_kind "agent") tasks in
    let others = keep (is_kind "interactive") tasks in
    let dealt' = count-assigned p 0 (suc more) (suc more) agents ∙ dealt-all p more agents in
    let last = count-append p others [] in
    count-groups p (agent_groups 0 (suc more) (suc more) agents)
      (record { process = interactive; tasks = others } ∷ [])
    ∙ omega (arith, dealt', last)

count-true : (tasks : List Task) → count (λ t. true) tasks ≡ length tasks
count-true [] = refl
count-true (t ∷ tasks) = ap suc (count-true tasks)

length-task_ids : (tasks : List Task) → length (task_ids tasks) ≡ length tasks
length-task_ids [] = refl
length-task_ids (t ∷ tasks) = ap suc (length-task_ids tasks)

-- The tests of `partition` in a row.
four_tests :
    (a b c d e : Bool) (x : Exception) (v w : List Group)
    → (require a x >> (require b x >> (require (c && d) x >> (require e x >> ok v)))) ≡ ok w
    → (a ≡ true) × (d ≡ true) × (v ≡ w)
four_tests a b c d e x v w h = ground arith

-- A division that is accepted holds every task as often as the run does: none is lost, and none is
-- given to two processes.
pub partition-keeps :
    (p : Task → Bool) (tasks : List Task) (workers : ℕ) (groups : List Group)
    → partition tasks workers ≡ ok groups
    → count p (assigned groups) ≡ count p tasks
unfolding partition
partition-keeps p tasks zero groups h = let raised : ⊥ = ground arith in absurd raised
partition-keeps p tasks (suc more) groups h =
    let (some_workers, as_many, same) =
      four_tests (suc more == 1 || suc more == 2 || suc more == 4)
        (all (λ t. str_eq t.owner "demo-owner") tasks)
        (distinct (task_ids (assigned (groups_of tasks (suc more)))))
        (length (task_ids (assigned (groups_of tasks (suc more)))) == length tasks)
        (same_ids (task_ids (assigned (groups_of tasks (suc more)))) (task_ids tasks))
        (assertion_error "") (groups_of tasks (suc more)) groups h in
    let ids : length (task_ids (assigned (groups_of tasks (suc more)))) ≡ length tasks =
      (==_iff _ _).0 as_many in
    let named = length-task_ids (assigned (groups_of tasks (suc more))) in
    let all_dealt = count-groups_of (λ t. true) tasks more in
    let every_task = count-kinds (λ t. true) tasks in
    let dealt' = count-groups_of p tasks more in
    let whole = count-true (assigned (groups_of tasks (suc more))) in
    let lengths = count-true tasks in
    let rest = count-true (keep unclassified tasks) in
    let none_left = count-le-length p (keep unclassified tasks) in
    let kinds = count-kinds p tasks in
    ap (λ (gs : List Group). count p (assigned gs)) (sym same) ∙ omega arith

-- Of two processes, the one named first has as many tasks as the other, or one more.
pub every_fair :
    {A : Type 0} (workers i j : ℕ) (tasks : List A)
    → i ≤ j
    → j < workers
    → (length (every j workers tasks) ≤ length (every i workers tasks))
      × (length (every i workers tasks) ≤ length (every j workers tasks) + 1)
every_fair workers i j [] low high = omega arith
every_fair workers zero zero (t ∷ tasks) low high = omega arith
every_fair workers zero (suc j) (t ∷ tasks) low high =
    let ih = every_fair workers j (workers - 1) tasks (omega arith) (omega arith) in omega arith
every_fair workers (suc i) zero (t ∷ tasks) low high = absurd (omega arith)
every_fair workers (suc i) (suc j) (t ∷ tasks) low high =
    every_fair workers i j tasks (omega arith) (omega arith)
