-- ===== src/Demo/Process/Stopped.antt =====
-- What holds once a demonstration has stopped its processes.
use mathlib.Core.List.{reverse, reverse-append}
use ai_protocol.Base.{
  ◌==◌, if◌then◌else◌, Bool-cases, ℕ, ◌≡◌, refl, ◌∙◌, inl, inr, Bool, true, false, ◌||◌, List, [],
  ◌∷◌, ◌++◌, arith,
}
use ai_protocol.Demo.Process.{
  Signal, sigint, sigkill, Process, exits_within, wait_or_kill, stop_with, Host, at, stop_in_turn,
  stop_all,
}

-- It does not run. It was sent nothing if it had exited; else the signal, and one that kills it if
-- and only if it would not have exited within five seconds.
pub data WasStopped (s : Signal) (before after : Process) : Type 0 where
  had_exited : before.is_running ≡ false → after ≡ before → WasStopped s before after
  exited :
      before.is_running ≡ true
      → exits_within 5000 (before.exits_after s) ≡ true
      → after.is_running ≡ false
      → after.signals ≡ s ∷ before.signals
      → WasStopped s before after
  killed :
      before.is_running ≡ true
      → exits_within 5000 (before.exits_after s) ≡ false
      → after.is_running ≡ false
      → after.signals ≡ sigkill ∷ s ∷ before.signals
      → WasStopped s before after

pub stop_with-WasStopped : (s : Signal) (p : Process) → WasStopped s p (stop_with s p)
unfolding stop_with wait_or_kill
stop_with-WasStopped s p = elim (Bool-cases p.is_running) [
  | inr gone ↦ had_exited gone (rw gone)
  | inl runs ↦ elim (Bool-cases (exits_within 5000 (p.exits_after s))) [
    | inl soon ↦ exited runs soon (ground arith) (ground arith)
    | inr late ↦ killed runs late (ground arith) (ground arith)
  ]
]

-- To stop a process that was stopped changes nothing.
stop_with_idem : (s : Signal) (p : Process) → stop_with s (stop_with s p) ≡ stop_with s p
unfolding stop_with wait_or_kill
stop_with_idem s p = ground arith

abbrev pub is_member : ℕ → List ℕ → Bool
is_member q [] = false
is_member q (pid ∷ pids) = q == pid || is_member q pids

stop_in_turn_lem :
    (pids : List ℕ) (host : Host) (q : ℕ)
    → stop_in_turn pids host q ≡ (if is_member q pids then stop_with sigint (host q) else host q)
stop_in_turn_lem [] host q = refl
stop_in_turn_lem (pid ∷ pids) host q = ground (
  arith,
  stop_in_turn_lem pids (at pid (stop_with sigint) host) q,
  stop_with_idem sigint (host q),
)

is_member-append :
    (q : ℕ) (xs ys : List ℕ) → is_member q (xs ++ ys) ≡ (is_member q xs || is_member q ys)
is_member-append q [] ys = refl
is_member-append q (x ∷ xs) ys = ground (arith, is_member-append q xs ys)

is_member-reverse : (q : ℕ) (xs : List ℕ) → is_member q (reverse xs) ≡ is_member q xs
is_member-reverse q [] = refl
is_member-reverse q (x ∷ xs) =
    rw (reverse-append (x ∷ []) xs)
      (is_member-append q (reverse xs) (x ∷ []) ∙ ground (arith, is_member-reverse q xs))

stop_all_lem :
    (pids : List ℕ) (host : Host) (q : ℕ)
    → stop_all pids host q ≡ (if is_member q pids then stop_with sigint (host q) else host q)
unfolding stop_all
stop_all_lem pids host q = rw (← is_member-reverse q pids) (stop_in_turn_lem (reverse pids) host q)

-- On any machine: each process that was started has been stopped (it no longer runs; it was sent
-- nothing if it had exited before, else SIGINT, and was killed exactly if five seconds were not
-- enough), and every other process is as it was.
pub stop_all-owned :
    (pids : List ℕ) (host : Host) (q : ℕ)
    → (is_member q pids ≡ true → WasStopped sigint (host q) (stop_all pids host q))
      × (is_member q pids ≡ false → stop_all pids host q ≡ host q)
stop_all-owned pids host q = (
  λ mine.
      let e : stop_all pids host q ≡ stop_with sigint (host q) =
        rw mine at (stop_all_lem pids host q) in
      rw e (stop_with-WasStopped sigint (host q)),
  λ other. rw other at (stop_all_lem pids host q),
)
