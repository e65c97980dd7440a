-- ===== src/Client/Call/Outcome.antt =====
-- What a call of an operation may do and report, for any behaviour of the gate and the service.
use ai_protocol.Base.{
  Bool-cases, ℕ, ◌+◌, ◌≤◌, String, ◌≡◌, refl, ◌≢◌, inl, inr, Bool, true, false, Option, List, arith,
  eq_iff,
}
use ai_protocol.Base.Int.{ℤ, pos, pos_part, ltb_ℤ, leb_ℤ}
use ai_protocol.Result.{operation_error, cancelled, Result, ok, err}
use ai_protocol.Json.{Json}
use ai_protocol.Http.{Jsonschema}
use ai_protocol.Dispatcher.{Moment, not_finite}
use ai_protocol.Client.Call.{
  Frame, Surroundings, on_timeout, fresh, call_within, duration_of, call_for, call,
}
use ai_protocol.Client.Call.Trace.{posts, PostsSafely, IsBalanced}
use ai_protocol.Client.Call.Rounds.{IsHead, Claims, Delivers, Finished, attempts_from-Finished}

-- The entries of the gate are matched by releases; a post is repeated only after an answer that
-- permits it; there are five posts at most; and a value is the body of the success that was
-- answered last, while an error that says `not_started` comes only if every post was refused.
abbrev pub IsFaithful : Result Json × Frame → Type 0
IsFaithful (ok v, f) =
    IsBalanced f.trace × PostsSafely f.trace × (posts f.trace ≤ 5) × Delivers v f.trace
IsFaithful (err e, f) =
    IsBalanced f.trace × PostsSafely f.trace × (posts f.trace ≤ 5) × Claims e f.trace

unknown_word : ◌≢◌ {A = String} "unknown" "not_started"
unknown_word h = cc ((eq_iff "unknown" "not_started").1 h)

fresh-IsHead : (n : ℕ) → IsHead 1 (fresh n)
fresh-IsHead n = record {
  numbered = refl;
  balanced = refl;
  counted = refl;
  refused = refl;
  idle = refl;
  free_to_post = refl;
  safely = tt;
}

on_timeout-IsFaithful :
    (env : Surroundings) (expiry : ℕ) (js : Jsonschema) (dumps : Json → Option (List ℕ))
    (params : Json) (x : Result Json × Frame)
    → Finished env expiry js dumps params x
    → IsFaithful (on_timeout x)
on_timeout-IsFaithful env expiry js dumps params (ok v, f) h = ground arith
on_timeout-IsFaithful env expiry js dumps params (err cancelled, f) h = ground (arith, unknown_word)
on_timeout-IsFaithful env expiry js dumps params (err (operation_error x), f) h = ground arith
on_timeout-IsFaithful env expiry js dumps params (err _, f) h = ground arith

call_within-IsFaithful :
    (env : Surroundings) (js : Jsonschema) (dumps : Json → Option (List ℕ)) (params : Json)
    (duration : ℤ) (n : ℕ)
    → env.has_dispatcher ≡ false
    → IsFaithful (call_within env js dumps params duration n)
unfolding call_within
call_within-IsFaithful env js dumps params duration n direct =
    elim (Bool-cases (ltb_ℤ (pos 3600000) duration)) [
      | inl long ↦ rw long (refl, tt, omega arith, tt)
      | inr short ↦ rw short (elim (Bool-cases (leb_ℤ duration (pos 0))) [
        | inl late ↦ rw late (refl, tt, omega arith, (refl, λ h. refl))
        | inr timely ↦
            let t : ℕ = n + pos_part duration in
            rw timely (
              on_timeout-IsFaithful env t js dumps params _ (
                attempts_from-Finished env t js dumps params t 1 5 (fresh n) direct refl
                  (omega arith) (fresh-IsHead n)))
      ])
    ]

call_for-IsFaithful :
    (env : Surroundings) (js : Jsonschema) (dumps : Json → Option (List ℕ)) (params : Json) (n : ℕ)
    (duration : Moment)
    → env.has_dispatcher ≡ false
    → IsFaithful (call_for env js dumps params n duration)
call_for-IsFaithful env js dumps params n not_finite direct = (refl, tt, omega arith, tt)
call_for-IsFaithful env js dumps params n (Moment.finite duration) direct =
    call_within-IsFaithful env js dumps params duration n direct

-- Whatever the gate, the service and the clock do: a call without a dispatcher leaves the gate as
-- often as it enters it; it posts five times at most, and again only after a refusal that permits
-- it; what it returns is the body of the last answer, a success; and an error that says
-- `not_started` is raised only if every post was refused before it was started. The count of
-- attempts of an expired deadline is the number of posts.
pub call-IsFaithful :
    (env : Surroundings) (js : Jsonschema) (dumps : Json → Option (List ℕ)) (entered : Bool)
    (params : Json) (timeout : Moment) (deadline : Option Moment) (n : ℕ)
    → env.has_dispatcher ≡ false
    → IsFaithful (call env js dumps entered params timeout deadline n)
unfolding call
call-IsFaithful env js dumps false params timeout deadline n direct = (refl, tt, omega arith, tt)
call-IsFaithful env js dumps true params timeout deadline n direct =
    call_for-IsFaithful env js dumps params n (duration_of timeout deadline n) direct
