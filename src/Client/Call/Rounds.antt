-- ===== src/Client/Call/Rounds.antt =====
-- One iteration of the loop of `call`, and the loop, without a dispatcher.
use mathlib.Core.Path.{subst}
use native.Mathlib.Numerals.{add-one}
use ai_protocol.Base.{
  Bool-cases, ℕ, zero, suc, ◌+◌, ◌≤◌, ◌<◌, String, ◌≡◌, sym, ap, ◌≢◌, inl, inr, Bool, true, false,
  Option, none, some, List, ◌∷◌, arith, eq_iff,
}
use ai_protocol.Base.Int.{pos}
use ai_protocol.Base.Lists.{count}
use ai_protocol.Result.{
  Exception, operation_error, deadline_exceeded, Result, ok, err, Result-cases,
}
use ai_protocol.Json.{Json, int}
use ai_protocol.Http.{Jsonschema, Response, is_success, response}
use ai_protocol.World.{finally, resume}
use ai_protocol.Protocol.Retry.{retry_delay}
use ai_protocol.Client.Call.{
  Event, released, posted, answered, Frame, Surroundings, Handled, returned, responded, acquire,
  post, attempt_body, free, deliver, back_off, reject, conclude, attempt_once, attempts_from,
}
use ai_protocol.Client.Call.Trace.{
  is_acquired, is_released, posts, known_answers, may_post, PostsSafely, IsBalanced,
  safe_to_retry-known, retry_delay-err,
}

-- At the head of an iteration every attempt so far was refused in a way that permits another.
pub record IsHead (number : ℕ) (f : Frame) : Type 0 where
  pub numbered : number ≡ suc f.attempts
  pub balanced : IsBalanced f.trace
  pub counted : posts f.trace ≡ f.attempts
  pub refused : posts f.trace ≡ known_answers f.trace
  pub idle : f.may_have_executed ≡ false
  pub free_to_post : may_post f.trace ≡ true
  pub safely : PostsSafely f.trace

-- An error that says `not_started` is raised only if every post was answered so.
abbrev pub Claims : Exception → List Event → Type 0
Claims (operation_error x) t = x.execution ≡ "not_started" → posts t ≡ known_answers t
Claims (deadline_exceeded x) t =
    (x.attempts ≡ int (pos (posts t))) × (x.execution ≡ "not_started" → posts t ≡ known_answers t)
Claims e t = Unit

-- The value is the body of the success that was answered last, after which the gate was left.
abbrev pub Delivers : Json → List Event → Type 0
Delivers v (released ∷ answered (response r) ∷ rest) = (is_success r ≡ true) × (r.body ≡ some v)
Delivers v t = ⊥

abbrev pub Ended : ℕ → Frame → Type 0
Ended number f =
    IsBalanced f.trace
    × PostsSafely f.trace
    × (posts f.trace ≡ f.attempts)
    × (posts f.trace ≤ number)
    × (f.may_have_executed ≡ false → posts f.trace ≡ known_answers f.trace)

-- How an iteration that began at the head `number` may end.
abbrev pub After : ℕ → Result (Option Json) × Frame → Type 0
After number (ok none, f) = IsHead (suc number) f × (number < 5)
After number (ok (some v), f) = Ended number f × Delivers v f.trace
After number (err e, f) = Ended number f × Claims e f.trace

-- How `_acquire` may end: inside of the gate, or with an error.
abbrev Acquired : ℕ → Result Json × Frame → Type 0
Acquired number (ok d, f) =
    (number ≡ suc f.attempts)
    × (count is_acquired f.trace ≡ suc (count is_released f.trace))
    × (posts f.trace ≡ f.attempts)
    × (posts f.trace ≡ known_answers f.trace)
    × (f.may_have_executed ≡ false)
    × (may_post f.trace ≡ true)
    × PostsSafely f.trace
Acquired number (err e, f) = Ended number f × Claims e f.trace

-- The response was answered last, to the only post that may not have been refused.
abbrev Heard : ℕ → Response → List Event → Type 0
Heard number r (released ∷ answered (response q) ∷ posted path ∷ rest) =
    (q ≡ r)
    × (posts rest ≡ known_answers rest)
    × (suc (posts rest) ≡ number)
    × (count is_acquired rest ≡ suc (count is_released rest))
    × (may_post rest ≡ true)
    × PostsSafely rest
Heard number r t = ⊥

-- What `Heard` says of the events before the response.
abbrev Before : ℕ → List Event → Type 0
Before number rest =
    (posts rest ≡ known_answers rest)
    × (suc (posts rest) ≡ number)
    × (count is_acquired rest ≡ suc (count is_released rest))
    × (may_post rest ≡ true)
    × PostsSafely rest

abbrev heard : Response → String → List Event → List Event
heard r path rest = released ∷ answered (response r) ∷ posted path ∷ rest

Heard-shape :
    (number : ℕ) (r : Response) (t : List Event)
    → Heard number r t
    → (path : String) × (rest : List Event) × (heard r path rest ≡ t) × Before number rest
Heard-shape number r (released ∷ answered (response q) ∷ posted path ∷ rest) h =
    (path, rest, ap (λ (x : Response). heard x path rest) (sym h.0), (h.1, h.2, h.3, h.4, h.5))
Heard-shape number r _ h = absurd h

-- How the `try` block may end, its `finally` included.
abbrev Tried : ℕ → Result Handled × Frame → Type 0
Tried number (ok (returned v), f) = ⊥
Tried number (ok (responded r), f) =
    Heard number r f.trace × (f.attempts ≡ number) × (f.may_have_executed ≡ true)
Tried number (err e, f) = Ended number f × Claims e f.trace

words_differ : ◌≢◌ {A = String} "unknown" "not_started"
words_differ h = cc ((eq_iff "unknown" "not_started").1 h)

module _ (env : Surroundings) (expiry : ℕ) where
  acquire-Acquired :
      (number : ℕ) (f : Frame) → IsHead number f → Acquired number (acquire env expiry f)
  unfolding acquire
  acquire-Acquired number f h = ground arith

module _ (env : Surroundings) (expiry : ℕ) (js : Jsonschema) (dumps : Json → Option (List ℕ))
    (params : Json) where
  attempt_body-Tried :
      (number : ℕ) (d : Json) (f : Frame)
      → env.has_dispatcher ≡ false
      → Acquired number (ok d, f)
      → Tried number
          (finally (attempt_body env expiry js dumps params d number) (free env expiry) f)
  unfolding attempt_body post
  attempt_body-Tried number d f direct h = ground (arith, words_differ)

  abbrev answered_frame : ℕ → ℕ → Response → String → List Event → Frame
  answered_frame number now r path rest = record {
    now = now;
    trace = heard r path rest;
    attempts = number;
    may_have_executed = true;
  }

  deliver-After :
      (number now : ℕ) (r : Response) (path : String) (rest : List Event)
      → is_success r ≡ true
      → Before number rest
      → After number (deliver env expiry r (answered_frame number now r path rest))
  unfolding deliver
  deliver-After number now r path rest s h = ground (arith, words_differ)

  reject-After :
      (deadline number now : ℕ) (r : Response) (path : String) (rest : List Event)
      → number ≤ 5
      → Before number rest
      → After number (reject env expiry deadline number r (answered_frame number now r path rest))
  unfolding reject back_off
  reject-After deadline number now r path rest n h = elim (Result-cases (retry_delay r)) [
    | inl (seconds, e) ↦ ground (arith, safe_to_retry-known r, words_differ)
    | inr (x, e) ↦
        let (m, q) = retry_delay-err r x e in ground (arith, safe_to_retry-known r, words_differ)
  ]

  conclude_at :
      (deadline number now : ℕ) (r : Response) (path : String) (rest : List Event)
      → number ≤ 5
      → Before number rest
      → After number (
          conclude env expiry deadline number (responded r) (answered_frame number now r path rest))
  unfolding conclude
  conclude_at deadline number now r path rest n h = elim (Bool-cases (is_success r)) [
    | inl success ↦ rw success (deliver-After number now r path rest success h)
    | inr failed ↦ rw failed (reject-After deadline number now r path rest n h)
  ]

  conclude-After :
      (deadline number : ℕ) (handled : Handled) (f : Frame)
      → number ≤ 5
      → Tried number (ok handled, f)
      → After number (conclude env expiry deadline number handled f)
  conclude-After deadline number (returned v) f n h = absurd h
  conclude-After deadline number (responded r) f n (h, made, may) =
      let (path, rest, shape, before) = Heard-shape number r f.trace h in
      subst
        (λ (t : List Event).
          After number (conclude env expiry deadline number (responded r) (record f { trace = t })))
        shape
        (subst
          (λ (k : ℕ). After number (
            conclude env expiry deadline number (responded r) (record {
              now = f.now;
              trace = heard r path rest;
              attempts = k;
              may_have_executed = f.may_have_executed;
            })))
          (sym made)
          (subst
            (λ (b : Bool). After number (
              conclude env expiry deadline number (responded r) (record {
                now = f.now;
                trace = heard r path rest;
                attempts = number;
                may_have_executed = b;
              })))
            (sym may) (conclude_at deadline number f.now r path rest n before)))

  Tried-After :
      (deadline number : ℕ) (x : Result Handled × Frame)
      → number ≤ 5
      → Tried number x
      → After number (resume (conclude env expiry deadline number) x)
  Tried-After deadline number (ok handled, f) n h = conclude-After deadline number handled f n h
  Tried-After deadline number (err e, f) n h = h

  Acquired-After :
      (deadline number : ℕ) (x : Result Json × Frame)
      → env.has_dispatcher ≡ false
      → number ≤ 5
      → Acquired number x
      → After number (
          resume
            (λ d f.
              resume
                (conclude env expiry deadline number)
                (finally (attempt_body env expiry js dumps params d number) (free env expiry) f))
            x)
  Acquired-After deadline number (ok d, f) direct n h =
      Tried-After deadline number _ n (attempt_body-Tried number d f direct h)
  Acquired-After deadline number (err e, f) direct n h = h

  attempt_once-After :
      (deadline number : ℕ) (f : Frame)
      → env.has_dispatcher ≡ false
      → number ≤ 5
      → IsHead number f
      → After number (attempt_once env expiry js dumps params deadline number f)
  unfolding attempt_once
  attempt_once-After deadline number f direct n h =
      Acquired-After deadline number (acquire env expiry f) direct n
        (acquire-Acquired env expiry number f h)

  -- How the loop may end.
  abbrev pub Finished : Result Json × Frame → Type 0
  Finished (ok v, f) = Ended 5 f × Delivers v f.trace
  Finished (err e, f) = Ended 5 f × Claims e f.trace

  After-Finished :
      (deadline number left : ℕ) (x : Result (Option Json) × Frame)
      → After number x
      → number ≤ 5
      → ((f : Frame)
          → IsHead (suc number) f
          → number < 5
          → Finished (attempts_from env expiry js dumps params deadline (number + 1) left f))
      → Finished (
          resume
            (λ outcome. elim outcome [
              | some v ↦ (λ (f : Frame). (ok v, f))
              | none ↦ attempts_from env expiry js dumps params deadline (number + 1) left
            ])
            x)
  After-Finished deadline number left (ok none, f) (h, n) k go = go f h n
  After-Finished deadline number left (ok (some v), f) h k go = ground arith
  After-Finished deadline number left (err e, f) h k go = ground arith

  pub attempts_from-Finished :
      (deadline number left : ℕ) (f : Frame)
      → env.has_dispatcher ≡ false
      → number + left ≡ 6
      → number ≤ 5
      → IsHead number f
      → Finished (attempts_from env expiry js dumps params deadline number left f)
  unfolding attempts_from
  attempts_from-Finished deadline number zero f direct e n h = absurd (omega arith)
  attempts_from-Finished deadline number (suc left) f direct e n h =
      After-Finished deadline number left
        (attempt_once env expiry js dumps params deadline number f)
        (attempt_once-After deadline number f direct n h) n
        (λ f' h' few.
          attempts_from-Finished deadline (number + 1) left f' direct (omega arith) (omega arith)
            (rw add-one h'))
