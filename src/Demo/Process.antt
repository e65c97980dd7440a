-- ===== src/Demo/Process.antt =====
-- How the demonstrations stop what they started: `stop_process` (examples/dynamic_demo.py), the
-- `finally` of `child` (examples/quickstart.py) and that of `run`
-- (examples/service_integration_demo.py).
pub mod Stopped
use mathlib.Core.List.{reverse}
use ai_protocol.Base.{leb, ◌==◌, if◌then◌else◌, ℕ, Bool, false, Option, none, some, List, [], ◌∷◌}

pub data Signal : Type 0 where
  sigterm : Signal
  sigint : Signal
  sigkill : Signal

-- A process: whether it runs (`poll() is None`), how long after a signal it exits, in milliseconds,
-- if it does, and the signals that it was sent, the newest first.
pub record Process : Type 0 where
  pub is_running : Bool
  pub exits_after : Signal → Option ℕ
  pub signals : List Signal

-- Whether `process.wait(timeout=…)` returns.
abbrev pub exits_within : ℕ → Option ℕ → Bool
exits_within timeout none = false
exits_within timeout (some t) = leb t timeout

-- `process.wait(timeout=5)`, and `process.kill(); process.wait()` where that expires.
unfoldable pub wait_or_kill : Signal → Process → Process
wait_or_kill s p =
    if exits_within 5000 (p.exits_after s)
    then record p { is_running = false }
    else record p { is_running = false; signals = sigkill ∷ p.signals }

-- `if process.poll() is None: …`
unfoldable pub stop_with : Signal → Process → Process
unfolding wait_or_kill
stop_with s p = if p.is_running then wait_or_kill s (record p { signals = s ∷ p.signals }) else p

unfoldable pub stop_process : Process → Process
unfolding stop_with
stop_process p = stop_with sigterm p

-- The processes of the machine, by their number.
abbrev pub Host : Type 0
Host = ℕ → Process

abbrev pub at : ℕ → (Process → Process) → Host → Host
at pid f host q = if q == pid then f (host q) else host q

-- The `finally` of `run`: the processes that were started, the last first.
abbrev pub stop_in_turn : List ℕ → Host → Host
stop_in_turn [] host = host
stop_in_turn (pid ∷ pids) host = stop_in_turn pids (at pid (stop_with sigint) host)

unfoldable pub stop_all : List ℕ → Host → Host
stop_all pids host = stop_in_turn (reverse pids) host
