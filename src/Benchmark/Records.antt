-- ===== src/Benchmark/Records.antt =====
-- `reconstruct` (benchmarks/stage4/analyze.py): the record of each task, from the events of a run.
pub mod Ending
pub mod Own
use ai_protocol.Base.{
  ◌==◌, str_eq, if◌then◌else◌, ℕ, String, Bool, Option, none, some, List, [], ◌∷◌, ◌++◌, map,
}
use ai_protocol.Base.Int.{ℤ, ◌-ℤ◌}
use ai_protocol.Result.{stop_iteration, Result, ok, err, ◌>>=◌, ◌>>◌}
use ai_protocol.Json.{Json}
use ai_protocol.Benchmark.Tasks.{Task}

-- A line of client-events.jsonl, by its `event`, with the entries that the analysis reads.
pub data Event : Type 0 where
  arrival : String → ℤ → Event
  attempt_start : String → ℕ → ℤ → Event
  attempt_end : String → ℕ → ℤ → Option ℕ → Option Json → Option String → Option String → Event
  terminal : String → String → String → ℤ → Event
  discovery_start : String → ℤ → Event
  discovery_end : Bool → Event
  policy_applied : String → Bool → ℤ → ℤ → ℤ → Event
  gate_final : String → ℤ → ℤ → ℤ → Event

-- `event.get('id')`
abbrev pub event_id : Event → Option String
event_id (arrival id at_ms) = some id
event_id (attempt_start id number at_ms) = some id
event_id (attempt_end id number at_ms status problem kind retry_after) = some id
event_id (terminal id outcome reason at_ms) = some id
event_id e = none

pub record Attempt : Type 0 where
  pub number : ℕ
  pub start_ms : ℤ
  pub end_ms : Option ℤ
  pub status : Option ℕ
  pub problem : Option Json
  pub error_kind : Option String
  pub retry_after : Option String
  pub outcome : String

pub record Row : Type 0 where
  pub task : Task
  pub attempts : List Attempt
  pub outcome : String
  pub reason : String
  pub completed_ms : Option ℤ
  pub arrived_ms : Option ℤ
  pub observed_end_ms : Option ℤ
  pub e2e_ms : Option ℤ

abbrev pub new_row : Task → Row
new_row t = record {
  task = t;
  attempts = [];
  outcome = "unfinished";
  reason = "no_terminal_event";
  completed_ms = none;
  arrived_ms = none;
  observed_end_ms = none;
  e2e_ms = none;
}

-- `records[task['id']] = …`: a key that is there keeps its place.
abbrev pub insert_row : Task → List Row → List Row
insert_row t [] = new_row t ∷ []
insert_row t (r ∷ rows) =
    let rest = insert_row t rows in if str_eq r.task.id t.id then new_row t ∷ rows else r ∷ rest

abbrev pub initial_rows : List Row → List Task → List Row
initial_rows rows [] = rows
initial_rows rows (t ∷ tasks) = initial_rows (insert_row t rows) tasks

-- `attempt.update(…)` of the first attempt with the number; `next` raises where there is none.
abbrev pub end_attempt : ℕ → (Attempt → Attempt) → List Attempt → Result (List Attempt)
end_attempt number f [] = err stop_iteration
end_attempt number f (a ∷ attempts) =
    let rest = end_attempt number f attempts in
    if a.number == number then ok (f a ∷ attempts) else (do others ← rest; ok (a ∷ others))

abbrev pub attempt_outcome : Option ℕ → String
attempt_outcome none = "network_error"
attempt_outcome (some status) = "response"

-- What an event does to the record of its task.
unfoldable pub apply : Event → Row → Result Row
apply (arrival id at_ms) r = ok (record r { arrived_ms = some at_ms })
apply (attempt_start id number at_ms) r = ok (record r {
  attempts =
      r.attempts
      ++ record {
        number = number;
        start_ms = at_ms;
        end_ms = none;
        status = none;
        problem = none;
        error_kind = none;
        retry_after = none;
        outcome = "incomplete";
      }
        ∷ [];
})
apply (attempt_end id number at_ms status problem kind retry_after) r = do
  attempts ←
      end_attempt number
        (λ a. record a {
          end_ms = some at_ms;
          status = status;
          problem = problem;
          error_kind = kind;
          retry_after = retry_after;
          outcome = attempt_outcome status;
        })
        r.attempts
  ok (record r { attempts = attempts })
apply (terminal id outcome reason at_ms) r = ok (record r {
  outcome = outcome;
  reason = reason;
  completed_ms = if str_eq outcome "unfinished" then none else some at_ms;
  observed_end_ms = some at_ms;
})
apply e r = ok r

abbrev pub has_id : String → Row → Bool
has_id id r = str_eq r.task.id id

-- The record with an identifier is changed; nothing happens where there is none.
unfoldable pub update_row : String → (Row → Result Row) → List Row → Result (List Row)
update_row id f [] = ok []
update_row id f (r ∷ rows) =
    let rest = update_row id f rows in
    if has_id id r
    then (do changed ← f r; ok (changed ∷ rows))
    else (do others ← rest; ok (r ∷ others))

-- An event without an identifier is passed over.
abbrev pub update_named : (Row → Result Row) → List Row → Option String → Result (List Row)
update_named f rows none = ok rows
update_named f rows (some id) = update_row id f rows

abbrev pub take_event : Event → List Row → Result (List Row)
take_event e rows = update_named (apply e) rows (event_id e)

unfoldable pub take_events : List Event → List Row → Result (List Row)
take_events [] rows = ok rows
take_events (e ∷ events) rows = take_event e rows >>= λ changed. take_events events changed

-- `row['e2e_ms'] = …`
abbrev pub with_e2e : Row → Row
with_e2e r = record r {
  e2e_ms = elim r.completed_ms [ none ↦ none | some done_ms ↦ some (done_ms -ℤ r.task.arrival_ms) ];
}

unfoldable pub reconstruct : List Task → List Event → Result (List Row)
reconstruct tasks events = do
  rows ← take_events events (initial_rows [] tasks)
  ok (map with_e2e rows)
