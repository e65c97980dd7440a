-- ===== src/Benchmark/Records/Ending.antt =====
-- How the record of a task ends: by the last of its own terminal events.
use mathlib.Core.Path.{subst}
use ai_protocol.Base.{
  str_eq, if◌then◌else◌, Bool-cases, String, ◌≡◌, refl, sym, ap, ◌∙◌, ◌≢◌, ◌⊎◌, inl, inr, true,
  false, Option, none, some, List, [], ◌∷◌, ◌++◌, map, arith, eq_iff,
}
use ai_protocol.Base.Int.{ℤ, ◌-ℤ◌}
use ai_protocol.Base.Lists.{keep, All, All-append}
use ai_protocol.Result.{ok, >>=-ok}
use ai_protocol.Benchmark.Tasks.{Task}
use ai_protocol.Benchmark.Records.{
  Event, arrival, attempt_start, attempt_end, terminal, discovery_start, discovery_end,
  policy_applied, gate_final, Row, new_row, insert_row, initial_rows, end_attempt, apply, with_e2e,
  reconstruct,
}
use ai_protocol.Benchmark.Records.Own.{
  row_of, tasks_of, apply-task, is_of, follow, finished, reconstruct_own,
}

-- What a terminal event says.
pub record Final : Type 0 where
  pub outcome : String
  pub reason : String
  pub at_ms : ℤ

abbrev pub final_of : Event → Option Final
final_of (terminal id outcome reason at_ms) =
    some (record { outcome = outcome; reason = reason; at_ms = at_ms })
final_of e = none

abbrev later_of : Option Final → Option Final → Option Final
later_of earlier none = earlier
later_of earlier (some f) = some f

-- The last terminal event.
abbrev pub last_final : List Event → Option Final
last_final [] = none
last_final (e ∷ events) = later_of (final_of e) (last_final events)

-- The end of a task, and its time from the planned arrival.
abbrev pub IsEnding : Task → Option Final → Row → Type 0
IsEnding t none r =
    (r.outcome ≡ "unfinished") × (r.reason ≡ "no_terminal_event") × (r.e2e_ms ≡ none)
IsEnding t (some f) r =
    (r.outcome ≡ f.outcome)
    × (r.reason ≡ f.reason)
    × (((f.outcome ≡ "unfinished") × (r.e2e_ms ≡ none))
        ⊎ ((f.outcome ≢ "unfinished") × (r.e2e_ms ≡ some (f.at_ms -ℤ t.arrival_ms))))

-- What an event, or several, change of the end of a record.
abbrev completion : Final → Option ℤ
completion f = if str_eq f.outcome "unfinished" then none else some f.at_ms

abbrev Closes : Option Final → Row → Row → Type 0
Closes none before after =
    (after.outcome ≡ before.outcome)
    × (after.reason ≡ before.reason)
    × (after.completed_ms ≡ before.completed_ms)
Closes (some f) before after =
    (after.outcome ≡ f.outcome) × (after.reason ≡ f.reason) × (after.completed_ms ≡ completion f)

apply-Closes :
    (e : Event) (r changed : Row) → apply e r ≡ ok changed → Closes (final_of e) r changed
unfolding apply
apply-Closes (arrival id at_ms) r changed h = ground arith
apply-Closes (attempt_start id number at_ms) r changed h = ground arith
apply-Closes (attempt_end id number at_ms status problem kind retry_after) r changed h =
    let (attempts, found, same) = >>=-ok (end_attempt number _ r.attempts) _ h in ground arith
apply-Closes (terminal id outcome reason at_ms) r changed h = ground arith
apply-Closes (discovery_start owner at_ms) r changed h = ground arith
apply-Closes (discovery_end success) r changed h = ground arith
apply-Closes (policy_applied owner ready revision limit at_ms) r changed h = ground arith
apply-Closes (gate_final owner active limit revision) r changed h = ground arith

later-Closes :
    (earlier later : Option Final) (r s t : Row)
    → Closes earlier r s
    → Closes later s t
    → Closes (later_of earlier later) r t
later-Closes earlier (some f) r s t h k = k
later-Closes none none r s t (a, b, c) (a', b', c') = (a' ∙ a, b' ∙ b, c' ∙ c)
later-Closes (some f) none r s t (a, b, c) (a', b', c') = (a' ∙ a, b' ∙ b, c' ∙ c)

-- The own events of a task keep it, and close its record.
follow-Closes :
    (events : List Event) (r : Row) (last : Option Row)
    → follow events (some r) ≡ ok last
    → (after : Row) × (last ≡ some after)
      × (after.task ≡ r.task)
      × Closes (last_final events) r after
follow-Closes [] r last h = let same : some r ≡ last = cc in (r, sym same, refl, (refl, refl, refl))
follow-Closes (e ∷ events) r last h =
    let (changed, applied, rest) = >>=-ok (apply e r) (λ c. follow events (some c)) h in
    let (after, same, task, closes) = follow-Closes events changed last rest in
    (
      after,
      same,
      task ∙ apply-task e r changed applied,
      later-Closes (final_of e) (last_final events) r changed after
          (apply-Closes e r changed applied) closes,
    )

-- The task is one of the list.
pub data IsListed (t : Task) : List Task → Type 0 where
  here : {u : Task} {tasks : List Task} → t ≡ u → IsListed t (u ∷ tasks)
  there : {u : Task} {tasks : List Task} → IsListed t tasks → IsListed t (u ∷ tasks)

-- No identifier occurs twice.
abbrev pub AreDistinct : List Task → Type 0
AreDistinct [] = Unit
AreDistinct (t ∷ tasks) = All (λ u. str_eq t.id u.id ≡ false) tasks × AreDistinct tasks

insert_row-new :
    (t : Task) (rows : List Row)
    → All (λ r. str_eq r.task.id t.id ≡ false) rows
    → insert_row t rows ≡ rows ++ new_row t ∷ []
insert_row-new t [] h = refl
insert_row-new t (r ∷ rows) (other, h) =
    rw other (ap (λ (rs : List Row). r ∷ rs) (insert_row-new t rows h))

-- The tasks still to come are none of those that have a record.
abbrev AreFresh : List Row → List Task → Type 0
AreFresh rows tasks = All (λ u. All (λ r. str_eq r.task.id u.id ≡ false) rows) tasks

fresh_snoc :
    (t : Task) (rows : List Row) (tasks : List Task)
    → AreFresh rows tasks
    → All (λ u. str_eq t.id u.id ≡ false) tasks
    → AreFresh (rows ++ new_row t ∷ []) tasks
fresh_snoc t rows [] h k = tt
fresh_snoc t rows (u ∷ tasks) (new, h) (other, k) = (
  All-append (λ r. str_eq r.task.id u.id ≡ false) rows (new_row t ∷ []) new (other, tt),
  fresh_snoc t rows tasks h k,
)

append_assoc :
    (rows : List Row) (r : Row) (others : List Row)
    → (rows ++ r ∷ []) ++ others ≡ rows ++ r ∷ others
append_assoc [] r others = refl
append_assoc (s ∷ rows) r others = ap (λ (rs : List Row). s ∷ rs) (append_assoc rows r others)

initial_rows-new :
    (rows : List Row) (tasks : List Task)
    → AreFresh rows tasks
    → AreDistinct tasks
    → initial_rows rows tasks ≡ rows ++ map new_row tasks
initial_rows-new [] [] h d = refl
initial_rows-new (r ∷ rows) [] h d = ap (λ (rs : List Row). r ∷ rs) (initial_rows-new rows [] tt tt)
initial_rows-new rows (t ∷ tasks) (new, h) (others, d) =
    ap (λ (rs : List Row). initial_rows rs tasks) (insert_row-new t rows new)
    ∙ initial_rows-new (rows ++ new_row t ∷ []) tasks (fresh_snoc t rows tasks h others) d
    ∙ append_assoc rows (new_row t) (map new_row tasks)

none_fresh : (tasks : List Task) → AreFresh [] tasks
none_fresh [] = tt
none_fresh (t ∷ tasks) = (tt, none_fresh tasks)

tasks_of-new : (tasks : List Task) → tasks_of (map new_row tasks) ≡ tasks
tasks_of-new [] = refl
tasks_of-new (t ∷ tasks) = ap (λ (ts : List Task). t ∷ ts) (tasks_of-new tasks)

All-at : (P : Task → Type 0) (t : Task) (tasks : List Task) → IsListed t tasks → All P tasks → P t
All-at P t [] i h = elim i [ ]
All-at P t (u ∷ tasks) (here e) (p, h) = subst P (sym e) p
All-at P t (u ∷ tasks) (there i) (p, h) = All-at P t tasks i h

-- The new record of each task.
row_of-new :
    (t : Task) (tasks : List Task)
    → AreDistinct tasks
    → IsListed t tasks
    → row_of t.id (map new_row tasks) ≡ some (new_row t)
row_of-new t [] d i = elim i [ ]
row_of-new t (u ∷ tasks) (others, d) (here e) =
    subst (λ (v : Task). row_of t.id (map new_row (v ∷ tasks)) ≡ some (new_row t)) e
      (rw ((eq_iff t.id t.id).1 refl) refl)
row_of-new t (u ∷ tasks) (others, d) (there i) =
    let other = All-at (λ v. str_eq u.id v.id ≡ false) t tasks i others in
    rw other (row_of-new t tasks d i)

ending :
    (t : Task) (o : Option Final) (after : Row)
    → after.task ≡ t
    → Closes o (new_row t) after
    → IsEnding t o (with_e2e after)
ending t none after same (outcome, reason, completed) = (outcome, reason, rw completed refl)
ending t (some f) after same (outcome, reason, completed) =
    elim (Bool-cases (str_eq f.outcome "unfinished")) [
      | inl unfinished' ↦
          let nothing : after.completed_ms ≡ none = completed ∙ rw unfinished' refl in
          (outcome, reason, inl ((eq_iff f.outcome "unfinished").0 unfinished', rw nothing refl))
      | inr closed ↦
          let time : after.completed_ms ≡ some f.at_ms = completed ∙ rw closed refl in
          (
            outcome,
            reason,
            inr (
              λ e. let both : false ≡ true = sym closed ∙ (eq_iff f.outcome "unfinished").1 e in cc,
              rw time (ap (λ (u : Task). some (f.at_ms -ℤ u.arrival_ms)) same),
            ),
          )
    ]

-- Where no identifier occurs twice, the records that are made are those of the tasks, in their order.
-- The record of a task ends as the last of its own terminal events says, with the time from the
-- planned arrival unless that is `unfinished`; without a terminal event it stays unfinished, without
-- a time.
pub reconstruct-IsEnding :
    (tasks : List Task) (events : List Event) (rows : List Row)
    → AreDistinct tasks
    → reconstruct tasks events ≡ ok rows
    → (tasks_of rows ≡ tasks)
      × ((t : Task)
          → IsListed t tasks
          → (r : Row) × (row_of t.id rows ≡ some r)
            × (r.task ≡ t)
            × IsEnding t (last_final (keep (is_of t.id) events)) r)
reconstruct-IsEnding tasks events rows d h =
    let (kept, own) = reconstruct_own tasks events rows h in
    let new : initial_rows [] tasks ≡ map new_row tasks =
      initial_rows-new [] tasks (none_fresh tasks) d in
    (
      kept ∙ ap tasks_of new ∙ tasks_of-new tasks,
      λ t i.
          let (last, followed, found) = own t.id in
          let start : row_of t.id (initial_rows [] tasks) ≡ some (new_row t) =
            ap (row_of t.id) new ∙ row_of-new t tasks d i in
          let (after, same, task, closes) =
            follow-Closes (keep (is_of t.id) events) (new_row t) last
              (ap (follow (keep (is_of t.id) events)) (sym start) ∙ followed) in
          (
            with_e2e after,
            found ∙ ap finished same,
            task,
            ending t (last_final (keep (is_of t.id) events)) after task closes,
          ),
    )
