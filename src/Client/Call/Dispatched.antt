-- ===== src/Client/Call/Dispatched.antt =====
-- With a dispatcher a call hands its operation over at most once, and posts nothing itself.
use ai_protocol.Base.{
  Bool-cases, ℕ, zero, suc, ◌+◌, ◌≤◌, ◌≡◌, refl, inl, inr, Bool, true, false, Option, none, some,
  List, arith,
}
use ai_protocol.Base.Int.{ℤ, pos, pos_part, ltb_ℤ, leb_ℤ}
use ai_protocol.Base.Lists.{count}
use ai_protocol.Result.{cancelled, Result, ok, err}
use ai_protocol.Json.{Json}
use ai_protocol.Http.{Jsonschema}
use ai_protocol.World.{resume}
use ai_protocol.Dispatcher.{Moment, not_finite}
use ai_protocol.Client.Call.{
  Event, dispatched, Frame, Surroundings, acquire, dispatch, attempt_body, conclude, attempt_once,
  attempts_from, on_timeout, fresh, call_within, duration_of, call_for, call,
}
use ai_protocol.Client.Call.Trace.{posts}

abbrev pub is_dispatched : Event → Bool
is_dispatched dispatched = true
is_dispatched e = false

abbrev pub IsQuiet : ℕ → List Event → Type 0
IsQuiet k t = (posts t ≡ 0) × (count is_dispatched t ≤ k)

-- An iteration ends the loop.
abbrev Ends : Result (Option Json) × Frame → Type 0
Ends (ok none, f) = ⊥
Ends (ok (some v), f) = IsQuiet 1 f.trace
Ends (err e, f) = IsQuiet 1 f.trace

module _ (env : Surroundings) (expiry : ℕ) (js : Jsonschema) (dumps : Json → Option (List ℕ))
    (params : Json) (handed : env.has_dispatcher ≡ true) where
  attempt_once-Ends :
      (deadline number : ℕ) (f : Frame)
      → IsQuiet 0 f.trace
      → Ends (attempt_once env expiry js dumps params deadline number f)
  unfolding attempt_once acquire attempt_body dispatch conclude
  attempt_once-Ends deadline number f h = ground arith

  ended :
      (deadline number left : ℕ) (x : Result (Option Json) × Frame)
      → Ends x
      → IsQuiet 1
          (resume
            (λ outcome. elim outcome [
              | some v ↦ (λ (f : Frame). (ok v, f))
              | none ↦ attempts_from env expiry js dumps params deadline (number + 1) left
            ])
            x).1.trace
  ended deadline number left (ok none, f) h = absurd h
  ended deadline number left (ok (some v), f) h = h
  ended deadline number left (err e, f) h = h

  attempts_from-IsQuiet :
      (deadline number left : ℕ) (f : Frame)
      → IsQuiet 0 f.trace
      → IsQuiet 1 (attempts_from env expiry js dumps params deadline number left f).1.trace
  unfolding attempts_from
  attempts_from-IsQuiet deadline number zero f h = ground arith
  attempts_from-IsQuiet deadline number (suc left) f h =
      ended deadline number left (attempt_once env expiry js dumps params deadline number f)
        (attempt_once-Ends deadline number f h)

trace-on_timeout : (x : Result Json × Frame) → (on_timeout x).1.trace ≡ x.1.trace
trace-on_timeout (ok v, f) = refl
trace-on_timeout (err cancelled, f) = refl
trace-on_timeout (err _, f) = refl

call_within-IsQuiet :
    (env : Surroundings) (js : Jsonschema) (dumps : Json → Option (List ℕ)) (params : Json)
    (duration : ℤ) (n : ℕ)
    → env.has_dispatcher ≡ true
    → IsQuiet 1 (call_within env js dumps params duration n).1.trace
unfolding call_within
call_within-IsQuiet env js dumps params duration n handed =
    elim (Bool-cases (ltb_ℤ (pos 3600000) duration)) [
      | inl long ↦ rw long (refl, omega arith)
      | inr short ↦ rw short (elim (Bool-cases (leb_ℤ duration (pos 0))) [
        | inl late ↦ rw late (refl, omega arith)
        | inr timely ↦
            let t : ℕ = n + pos_part duration in
            rw timely (
              rw trace-on_timeout (
                attempts_from-IsQuiet env t js dumps params handed t 1 5 (fresh n)
                  (refl, omega arith)))
      ])
    ]

call_for-IsQuiet :
    (env : Surroundings) (js : Jsonschema) (dumps : Json → Option (List ℕ)) (params : Json) (n : ℕ)
    (duration : Moment)
    → env.has_dispatcher ≡ true
    → IsQuiet 1 (call_for env js dumps params n duration).1.trace
call_for-IsQuiet env js dumps params n not_finite handed = (refl, omega arith)
call_for-IsQuiet env js dumps params n (Moment.finite duration) handed =
    call_within-IsQuiet env js dumps params duration n handed

-- With a dispatcher, however it replies and however the call ends, the operation is handed over at
-- most once and is never posted.
pub call_with_dispatcher :
    (env : Surroundings) (js : Jsonschema) (dumps : Json → Option (List ℕ)) (entered : Bool)
    (params : Json) (timeout : Moment) (deadline : Option Moment) (n : ℕ)
    → env.has_dispatcher ≡ true
    → let t = (call env js dumps entered params timeout deadline n).1.trace in
      (posts t ≡ 0) × (count is_dispatched t ≤ 1)
unfolding call
call_with_dispatcher env js dumps false params timeout deadline n handed = (refl, omega arith)
call_with_dispatcher env js dumps true params timeout deadline n handed =
    call_for-IsQuiet env js dumps params n (duration_of timeout deadline n) handed
