-- ===== src/Examples/Services.antt =====
-- The demonstrations at work.
use ai_protocol.Base.{
  ltb, ◌==◌, if◌then◌else◌, ℕ, ◌+◌, ◌*◌, ◌<◌, ◌≡◌, refl, inr, true, false, none, some, [], ◌∷◌,
  arith,
}
use ai_protocol.Result.{Result, ok, err, http_error}
use ai_protocol.Demo.Process.{sigint, sigkill, stop_with, Host, stop_all}
use ai_protocol.Demo.Process.Stopped.{WasStopped, is_member, stop_all-owned}
use ai_protocol.Demo.Until.{Surroundings, until}
use ai_protocol.Demo.Until.Ends.{Says, until_ends, until-returns}

-- A server that is up after 100 ms, and refuses connections before; a check takes 5 ms.
abbrev starting : Surroundings
starting = record {
  has_exited = λ t. false;
  check = λ t. if ltb t 100 then err http_error else ok true;
  takes = λ t. 5;
}

until_ends_example :
    (r : Result (Unit {0})) × (t : ℕ) × (until starting 0 ≡ some (r, t))
    × Says starting (0 + 10000) r t
until_ends_example = until_ends starting 0

until-returns_example : (t : ℕ) × (until starting 0 ≡ some (ok tt, t)) × (t < 100 + 2 * 5 + 30)
until-returns_example =
    until-returns starting 0 100 5 (λ t h. refl) (λ t h. inr (ground arith)) (λ t h. ground arith)
      (λ t. omega arith) (omega arith) (omega arith)

-- Process 1 ends on SIGINT, process 2 does not, process 3 belongs to someone else.
abbrev machine : Host
machine pid = record {
  is_running = true;
  exits_after = λ s. if pid == 2 then none else some 40;
  signals = [];
}

stop_all-owned_example :
    (is_member 2 (1 ∷ 2 ∷ []) ≡ true
      → WasStopped sigint (machine 2) (stop_all (1 ∷ 2 ∷ []) machine 2))
    × (is_member 2 (1 ∷ 2 ∷ []) ≡ false → stop_all (1 ∷ 2 ∷ []) machine 2 ≡ machine 2)
stop_all-owned_example = stop_all-owned (1 ∷ 2 ∷ []) machine 2

second_is_killed : (stop_all (1 ∷ 2 ∷ []) machine 2).signals ≡ sigkill ∷ sigint ∷ []
unfolding stop_all stop_with
second_is_killed = refl
