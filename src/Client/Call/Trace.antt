-- ===== src/Client/Call/Trace.antt =====
-- What may be read off the events of `call`.
use ai_protocol.Base.{
  Option-cases, ℕ, String, ◌≡◌, inl, inr, Bool, true, false, List, [], ◌∷◌, arith,
}
use ai_protocol.Http.{Response, response, lost}
use ai_protocol.Json.{get, eq_str, value_of}
use ai_protocol.Base.Lists.{count}
use ai_protocol.Result.{Exception, value_error, err}
use ai_protocol.Protocol.Retry.{refused_with, safe_to_retry, retry_delay}
use ai_protocol.Client.Call.{Event, acquired, released, posted, answered, error_of, is_known}

abbrev pub is_acquired : Event → Bool
is_acquired acquired = true
is_acquired e = false

abbrev pub is_released : Event → Bool
is_released released = true
is_released e = false

abbrev pub is_posted : Event → Bool
is_posted (posted path) = true
is_posted e = false

-- An answer that says that the operation was not started.
abbrev pub is_known_answer : Event → Bool
is_known_answer (answered (response r)) = is_known r
is_known_answer e = false

abbrev pub posts : List Event → ℕ
posts = count is_posted

-- Every answer belongs to a post of its own, so these are as many as the posts only if every post
-- was answered so.
abbrev pub known_answers : List Event → ℕ
known_answers = count is_known_answer

-- No post was made, or the last was answered in a way that permits another.
abbrev pub may_post : List Event → Bool
may_post [] = true
may_post (answered (response r) ∷ t) = safe_to_retry r
may_post (answered lost ∷ t) = false
may_post (posted path ∷ t) = false
may_post (e ∷ t) = may_post t

abbrev pub PostsSafely : List Event → Type 0
PostsSafely [] = Unit
PostsSafely (posted path ∷ t) = (may_post t ≡ true) × PostsSafely t
PostsSafely (e ∷ t) = PostsSafely t

-- As many releases of the gate as entries.
abbrev pub IsBalanced : List Event → Type 0
IsBalanced t = count is_acquired t ≡ count is_released t

-- What may be retried was not started.
refused_known :
    (r : Response)
    → refused_with "queue_timeout" r.body ≡ true
    → (eq_str (get (error_of r) "code") "queue_timeout" ≡ true)
      × (eq_str (get (error_of r) "execution") "not_started" ≡ true)
refused_known r h = elim (Option-cases (get (value_of r.body) "error")) [
  | inl nothing ↦ ground arith
  | inr (v, e) ↦ ground arith
]

pub safe_to_retry-known : (r : Response) → safe_to_retry r ≡ true → is_known r ≡ true
unfolding safe_to_retry is_known
safe_to_retry-known r h = ground (arith, refused_known r)

-- A delay that cannot be read is a `ValueError`.
pub retry_delay-err :
    (r : Response) (e : Exception) → retry_delay r ≡ err e → (m : String) × (e ≡ value_error m)
unfolding retry_delay
retry_delay-err r e h = ("Exceeds the limit for conversion", ground arith)
