-- ===== src/Client/System.antt =====
-- Any number of tasks that share one `AsyncClient`, as interleavings of the steps of its methods.
pub mod Invariant
pub mod Continuity
use ai_protocol.Base.{ℕ, String, ◌≡◌, Bool, true, false, some, List}
use ai_protocol.Base.Lists.{get_elem?, count, set}
use ai_protocol.Json.{Json}
use ai_protocol.Http.{Jsonschema}
use ai_protocol.Client.Gate.{
  Gate, Admission, refused, admitted, waits, acquire, release, Fetched, end_refresh, aclose,
}

-- Where a task stands: outside of an attempt, in the loop of `_acquire`, or between `_acquire` and
-- the end of its `finally`.
pub data Task : Type 0 where
  outside : Task
  waiting : String → Task
  holding : Json → Task

abbrev pub is_holding : Task → Bool
is_holding (holding operation) = true
is_holding task = false

pub record System : Type 0 where
  pub gate : Gate
  pub tasks : List Task

-- Where a task stands after a pass through the loop of `_acquire`.
abbrev pub after_pass : String → Admission → Task
after_pass name (refused e) = outside
after_pass name (admitted operation) = holding operation
after_pass name waits = waiting name

unfoldable pub pass_gate : ℕ → String → System → System
unfolding acquire
pass_gate i name s = record s {
  gate = (acquire s.gate name).1;
  tasks = set s.tasks i (after_pass name (acquire s.gate name).0);
}

-- One step: a task enters `_acquire`, makes a pass, is cancelled there, or leaves its attempt; a
-- refresh ends; the client is closed. A refresh that was begun may end at any later time.
pub data Step (js : Jsonschema) (s : System) : System → Type 0 where
  arrive :
      (i : ℕ) (name : String)
      → get_elem? s.tasks i ≡ some outside
      → Step js s (record s { tasks = set s.tasks i (waiting name) })
  pass :
      (i : ℕ) (name : String)
      → get_elem? s.tasks i ≡ some (waiting name)
      → Step js s (pass_gate i name s)
  give_up :
      (i : ℕ) (name : String)
      → get_elem? s.tasks i ≡ some (waiting name)
      → Step js s (record s { tasks = set s.tasks i outside })
  leave :
      (i : ℕ) (operation : Json)
      → get_elem? s.tasks i ≡ some (holding operation)
      → Step js s (record s { gate = release s.gate; tasks = set s.tasks i outside })
  refresh : (fetched : Fetched) → Step js s (record s { gate = (end_refresh js fetched s.gate).1 })
  close : Step js s (record s { gate = aclose s.gate })

pub data Reach (js : Jsonschema) (s : System) : System → Type 0 where
  start : Reach js s s
  next : {t u : System} → Reach js s t → Step js t u → Reach js s u

-- The attempts that are under way.
abbrev pub holders : System → ℕ
holders s = count is_holding s.tasks
