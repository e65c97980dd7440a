-- ===== src/Benchmark/Records/Own.antt =====
-- The record of a task depends on the events of that task only.
use mathlib.Core.Path.{subst}
use ai_protocol.Base.{
  str_eq, Bool-cases, Option-cases, String, ◌≡◌, refl, sym, ap, ◌∙◌, inl, inr, Bool, true, false,
  Option, none, some, List, [], ◌∷◌, map, arith, eq_iff,
}
use ai_protocol.Base.Lists.{keep, first}
use ai_protocol.Result.{Result, ok, ◌>>=◌, >>=-ok}
use ai_protocol.Benchmark.Tasks.{Task}
use ai_protocol.Benchmark.Records.{
  Event, arrival, attempt_start, attempt_end, terminal, discovery_start, discovery_end,
  policy_applied, gate_final, event_id, Row, initial_rows, end_attempt, apply, has_id, update_row,
  update_named, take_event, take_events, with_e2e, reconstruct,
}

abbrev pub row_of : String → List Row → Option Row
row_of id rows = first (has_id id) rows

abbrev pub tasks_of : List Row → List Task
tasks_of rows = map (λ r. r.task) rows

-- An event leaves the description of the task alone.
pub apply-task : (e : Event) (r changed : Row) → apply e r ≡ ok changed → changed.task ≡ r.task
unfolding apply
apply-task (arrival id at_ms) r changed h = ground arith
apply-task (attempt_start id number at_ms) r changed h = ground arith
apply-task (attempt_end id number at_ms status problem kind retry_after) r changed h =
    let (attempts, found, same) = >>=-ok (end_attempt number _ r.attempts) _ h in ground arith
apply-task (terminal id outcome reason at_ms) r changed h = ground arith
apply-task (discovery_start owner at_ms) r changed h = ground arith
apply-task (discovery_end success) r changed h = ground arith
apply-task (policy_applied owner ready revision limit at_ms) r changed h = ground arith
apply-task (gate_final owner active limit revision) r changed h = ground arith

-- What an update of one record does.
update_row-tasks :
    (e : Event) (id : String) (rows changed : List Row)
    → update_row id (apply e) rows ≡ ok changed
    → tasks_of changed ≡ tasks_of rows
unfolding update_row
update_row-tasks e id [] changed h = ground arith
update_row-tasks e id (r ∷ rows) changed h = elim (Bool-cases (has_id id r)) [
  | inl own ↦
      let (new, applied, same) = >>=-ok (apply e r) _ (rw own at h) in
      let task = apply-task e r new applied in ground arith
  | inr other ↦
      let (rest, updated, same) = >>=-ok (update_row id (apply e) rows) _ (rw other at h) in
      let ih = update_row-tasks e id rows rest updated in ground arith
]

abbrev pub is_named : String → Option String → Bool
is_named id none = false
is_named id (some j) = str_eq j id

abbrev pub is_of : String → Event → Bool
is_of id e = is_named id (event_id e)

-- The events of one task, applied to its record alone.
abbrev pub follow : List Event → Option Row → Result (Option Row)
follow [] o = ok o
follow (e ∷ events) none = follow events none
follow (e ∷ events) (some r) = apply e r >>= λ changed. follow events (some changed)

-- One event of the task on its record.
abbrev OwnStep : Event → Option Row → Option Row → Type 0
OwnStep e none after = after ≡ none
OwnStep e (some r) after = (changed : Row) × (apply e r ≡ ok changed) × (after ≡ some changed)

own_step :
    (e : Event) (id : String) (rows changed : List Row)
    → update_row id (apply e) rows ≡ ok changed
    → OwnStep e (row_of id rows) (row_of id changed)
unfolding update_row
own_step e id [] changed h = ground arith
own_step e id (r ∷ rows) changed h = elim (Bool-cases (has_id id r)) [
  | inl own ↦
      let (new, applied, same) = >>=-ok (apply e r) _ (rw own at h) in
      let task = apply-task e r new applied in
      let kept : has_id id new ≡ true = ap (λ (t : Task). str_eq t.id id) task ∙ own in
      let front : changed ≡ new ∷ rows = ground arith in
      rw own (rw front (rw kept (new, applied, refl)))
  | inr other ↦
      let (rest, updated, same) = >>=-ok (update_row id (apply e) rows) _ (rw other at h) in
      let front : changed ≡ r ∷ rest = ground arith in
      rw other (rw front (rw other (own_step e id rows rest updated)))
]

other_step :
    (e : Event) (j id : String) (rows changed : List Row)
    → str_eq j id ≡ false
    → update_row j (apply e) rows ≡ ok changed
    → row_of id changed ≡ row_of id rows
unfolding update_row
other_step e j id [] changed d h = ground arith
other_step e j id (r ∷ rows) changed d h = elim (Bool-cases (has_id j r)) [
  | inl own ↦
      let (new, applied, same) = >>=-ok (apply e r) _ (rw own at h) in
      let named : r.task.id ≡ j = (eq_iff r.task.id j).0 own in
      let before : has_id id r ≡ false = ap (λ (s : String). str_eq s id) named ∙ d in
      let after : has_id id new ≡ false =
        ap (λ (t : Task). str_eq t.id id) (apply-task e r new applied) ∙ before in
      let front : changed ≡ new ∷ rows = ground arith in rw front (rw before (rw after refl))
  | inr other ↦
      let (rest, updated, same) = >>=-ok (update_row j (apply e) rows) _ (rw other at h) in
      let front : changed ≡ r ∷ rest = ground arith in
      let ih = other_step e j id rows rest d updated in rw front (rw ih refl)
]

follow_step :
    (e : Event) (events : List Event) (before after last : Option Row)
    → OwnStep e before after
    → follow events after ≡ ok last
    → follow (e ∷ events) before ≡ ok last
follow_step e events none after last step h = ap (follow events) (sym step) ∙ h
follow_step e events (some r) after last (changed, applied, same) h =
    rw applied (ap (follow events) (sym same) ∙ h)

passed_over :
    (e : Event) (rows changed : List Row)
    → event_id e ≡ none
    → take_event e rows ≡ ok changed
    → rows ≡ changed
passed_over e rows changed nobody h =
    let same : ◌≡◌ {A = Result (List Row)} (ok rows) (ok changed) =
      ap (update_named (apply e) rows) (sym nobody) ∙ h in
    cc

taken_up :
    (e : Event) (j : String) (rows changed : List Row)
    → event_id e ≡ some j
    → take_event e rows ≡ ok changed
    → update_row j (apply e) rows ≡ ok changed
taken_up e j rows changed named h = ap (update_named (apply e) rows) (sym named) ∙ h

take_events-follow :
    (id : String) (events : List Event) (rows changed : List Row)
    → take_events events rows ≡ ok changed
    → follow (keep (is_of id) events) (row_of id rows) ≡ ok (row_of id changed)
unfolding take_events
take_events-follow id [] rows changed h = let same : rows ≡ changed = ground arith in rw same refl
take_events-follow id (e ∷ events) rows changed h =
    let (next_rows, step, rest) = >>=-ok (take_event e rows) _ h in
    let ih = take_events-follow id events next_rows changed rest in
    elim (Option-cases (event_id e)) [
      | inl nobody ↦
          let same = passed_over e rows next_rows nobody step in
          let own : is_of id e ≡ false = ap (is_named id) nobody in
          rw own (ap (λ (r : List Row). follow (keep (is_of id) events) (row_of id r)) same ∙ ih)
      | inr (j, named) ↦
          let updated = taken_up e j rows next_rows named step in
          elim (Bool-cases (str_eq j id)) [
            | inl same ↦
                let own : is_of id e ≡ true = ap (is_named id) named ∙ same in
                let updated' =
                  subst (λ (k : String). update_row k (apply e) rows ≡ ok next_rows)
                    ((eq_iff j id).0 same) updated in
                rw own (
                  follow_step e (keep (is_of id) events) (row_of id rows) (row_of id next_rows)
                    (row_of id changed) (own_step e id rows next_rows updated') ih)
            | inr distinct' ↦
                let own : is_of id e ≡ false = ap (is_named id) named ∙ distinct' in
                let kept = other_step e j id rows next_rows distinct' updated in
                rw own (ap (follow (keep (is_of id) events)) (sym kept) ∙ ih)
          ]
    ]

abbrev pub finished : Option Row → Option Row
finished none = none
finished (some r) = some (with_e2e r)

row_of-with_e2e :
    (id : String) (rows : List Row) → row_of id (map with_e2e rows) ≡ finished (row_of id rows)
row_of-with_e2e id [] = refl
row_of-with_e2e id (r ∷ rows) = elim (Bool-cases (has_id id r)) [
  | inl own ↦ rw own refl
  | inr other ↦ rw other (row_of-with_e2e id rows)
]

-- The record of a task is what its own events, in their order, make of a new record, with the time
-- from the planned arrival to the end.
reconstruct-follow :
    (id : String) (tasks : List Task) (events : List Event) (rows : List Row)
    → reconstruct tasks events ≡ ok rows
    → (last : Option Row) × (follow (keep (is_of id) events) (row_of id (initial_rows [] tasks))
        ≡ ok last)
      × (row_of id rows ≡ finished last)
unfolding reconstruct
reconstruct-follow id tasks events rows h =
    let (changed, taken, same) = >>=-ok (take_events events (initial_rows [] tasks)) _ h in
    let done : map with_e2e changed ≡ rows = ground arith in
    (
      row_of id changed,
      take_events-follow id events (initial_rows [] tasks) changed taken,
      ap (row_of id) (sym done) ∙ row_of-with_e2e id changed,
    )

take_events-tasks :
    (events : List Event) (rows changed : List Row)
    → take_events events rows ≡ ok changed
    → tasks_of changed ≡ tasks_of rows
unfolding take_events
take_events-tasks [] rows changed h = let same : rows ≡ changed = ground arith in rw same refl
take_events-tasks (e ∷ events) rows changed h =
    let (next_rows, step, rest) = >>=-ok (take_event e rows) _ h in
    take_events-tasks events next_rows changed rest ∙ (elim (Option-cases (event_id e)) [
      | inl nobody ↦ ap tasks_of (sym (passed_over e rows next_rows nobody step))
      | inr (j, named) ↦
          update_row-tasks e j rows next_rows (taken_up e j rows next_rows named step)
    ])

tasks_of-with_e2e : (rows : List Row) → tasks_of (map with_e2e rows) ≡ tasks_of rows
tasks_of-with_e2e [] = refl
tasks_of-with_e2e (r ∷ rows) = ap (λ (ts : List Task). r.task ∷ ts) (tasks_of-with_e2e rows)

-- The records are those of the tasks, in their order, whatever the events are.
reconstruct-tasks :
    (tasks : List Task) (events : List Event) (rows : List Row)
    → reconstruct tasks events ≡ ok rows
    → tasks_of rows ≡ tasks_of (initial_rows [] tasks)
unfolding reconstruct
reconstruct-tasks tasks events rows h =
    let (changed, taken, same) = >>=-ok (take_events events (initial_rows [] tasks)) _ h in
    let done : map with_e2e changed ≡ rows = ground arith in
    ap tasks_of (sym done)
    ∙ tasks_of-with_e2e changed
    ∙ take_events-tasks events (initial_rows [] tasks) changed taken

-- The records that are made are those of the tasks, in their order; and the record of each task is
-- what its own events, in their order, make of a new record, with the time from the planned arrival
-- to the end.
pub reconstruct_own :
    (tasks : List Task) (events : List Event) (rows : List Row)
    → reconstruct tasks events ≡ ok rows
    → (tasks_of rows ≡ tasks_of (initial_rows [] tasks))
      × ((id : String)
          → (last : Option Row) × (follow
                (keep (is_of id) events)
                (row_of id (initial_rows [] tasks))
              ≡ ok last)
            × (row_of id rows ≡ finished last))
reconstruct_own tasks events rows h =
    (reconstruct-tasks tasks events rows h, λ id. reconstruct-follow id tasks events rows h)
