-- ===== src/Demo/Transitions/Script.antt =====
-- `main` of examples/dynamic_demo.py, from the moment when five requests are held.
use ai_protocol.Base.{◌==◌, ℕ, suc, Bool, false, Option, none, some, List, [], ◌∷◌}
use ai_protocol.Result.{ok, assertion_error, require}
use ai_protocol.Json.{Json, get}
use ai_protocol.Http.{Answer}
use ai_protocol.World.{Action, pure, lift, ◌>>=◌, ◌>>◌}
use ai_protocol.Release.Name.{Text}
use ai_protocol.Demo.Transitions.{
  read_output, Reader, wait_event, answered, admin_update, is_number, is_reduced, shows_reduction,
  is_second_policy, is_drained, is_raised, is_completed, has_succeeded,
}

-- What the others do: the gateway's answers to a change of the limit and to the last request for
-- the policy, and the exit status of the load client, if it ends within five seconds.
pub record Others : Type 0 where
  pub patched : ℕ → Answer
  pub final_policy : Answer
  pub load_status : Option ℕ

abbrev pub is_zero : Option ℕ → Bool
is_zero none = false
is_zero (some n) = n == 0

-- `assert test`
abbrev pub assert : Bool → Action Reader (Unit {0})
assert test = lift (require test (assertion_error "assert"))

-- `print(json.dumps(event), flush=True)`
abbrev pub print_event : Json → Action Reader (Unit {0})
print_event e r = (ok tt, record r { printed = e ∷ r.printed })

-- `change`: what the gateway answers to the request of the administrator is printed, in part.
unfoldable pub change : Answer → Action Reader Json
change answer = do
  result ← lift (answered answer)
  update ← lift (admin_update result)
  print_event update
  pure result

module _ (o : Others) where
  unfoldable pub script : Action Reader (Unit {0})
  script = do
    reduced ← change (o.patched 2)
    assert (is_reduced reduced)
    event ← wait_event is_second_policy
    assert (shows_reduction event)
    drained ← wait_event is_drained
    raised ← change (o.patched 5)
    assert (is_number (get raised "policy_revision") 3)
    reached ← wait_event is_raised
    completed ← wait_event is_completed
    assert (has_succeeded completed)
    assert (is_zero o.load_status)
    policy ← lift (answered o.final_policy)
    assert (is_number (get policy "outstanding") 0)

-- The reader at the start, on the lines that the load client writes, with the times at which they come.
abbrev pub stamp : (ℕ → ℕ) → List Json → List (ℕ × Json)
stamp arrives [] = []
stamp arrives (e ∷ es) = (arrives 0, e) ∷ stamp (λ n. arrives (suc n)) es

abbrev pub reader : (Text → Option Json) → List Text → (ℕ → ℕ) → ℕ → List Text → Reader
reader loads secrets arrives start lines = record {
  now = start;
  queued = stamp arrives (read_output loads secrets lines);
  printed = [];
}
