-- ===== src/Demo/Cli/Asks.antt =====
-- What the exit status of the dispatcher's command-line client says.
use mathlib.Core.Path.{subst}
use ai_protocol.Base.{
  ℕ, String, ◌≡◌, refl, sym, ap, ◌∙◌, inl, inr, true, false, none, some, List, arith,
}
use ai_protocol.Base.Int.{ℤ, pos}
use ai_protocol.Base.Lists.{length}
use ai_protocol.Result.{Result, ok, err, IsOk}
use ai_protocol.Json.{Json, str, get, eq_str, int_within}
use ai_protocol.Http.{Jsonschema}
use ai_protocol.Dispatcher.{is_true, is_present, is_inconsistent, Peer, Exchange, Moment, call}
use ai_protocol.Dispatcher.Replies.{IsConsistent, IsHonest, IsSound, call-IsSound}
use ai_protocol.Demo.Cli.{by_socket, Delivery, delivered, exit_status, exit_with, dispatch_main}

-- A reply that says that the operation was carried out.
pub record IsCompleted (reply : Json) : Type 0 where
  pub success : is_true (get reply "ok") ≡ true
  pub execution : eq_str (get reply "execution") "completed" ≡ true
  pub body : is_present (get reply "body") ≡ true
  pub status : int_within (pos 200) (pos 299) (get reply "status") ≡ true

exit_zero : (reply : Json) → exit_status reply ≡ 0 → is_true (get reply "ok") ≡ true
exit_zero reply h = ground arith

consistent-IsCompleted :
    (reply : Json) → IsConsistent reply → is_true (get reply "ok") ≡ true → IsCompleted reply
unfolding is_inconsistent
consistent-IsCompleted reply (fields, h) success = record {
  success = success;
  execution = ground arith;
  body = ground arith;
  status = ground arith;
}

completed-not-not_started :
    (reply : Json)
    → eq_str (get reply "execution") "completed" ≡ true
    → get reply "execution" ≡ some (str "not_started")
    → ⊥
completed-not-not_started reply h e = let both : false ≡ true = rw e at h in cc

wrote_one :
    (peer : Peer) (x : Delivery)
    → IsHonest peer x
    → eq_str (get x.0 "execution") "completed" ≡ true
    → length x.1 ≡ 1
wrote_one peer (reply, written) (inl (nothing, e)) h = absurd (completed-not-not_started reply h e)
wrote_one peer (reply, written) (inr (one, s)) h = one

delivered-IsSound :
    (js : Jsonschema) (validate : Json → Json → Result (Unit {0})) (dumps : Json → Result (List ℕ))
    (operation params : Json) (peer : Peer) (y : Exchange) (x : Delivery)
    → delivered y ≡ ok x
    → IsSound js validate dumps operation params peer y
    → IsConsistent x.0 × IsHonest peer x
delivered-IsSound js validate dumps operation params peer (err e, written) x h s = cc
delivered-IsSound js validate dumps operation params peer (ok reply, written) x h s =
    let same : ◌≡◌ {A = Delivery} (reply, written) x = cc in
    subst (λ (z : Delivery). IsConsistent z.0 × IsHonest peer z) same s

exit_with-ok :
    (d : Result Delivery) (x : Delivery) (n : ℕ)
    → exit_with d ≡ ok (x, n)
    → (d ≡ ok x) × (exit_status x.0 ≡ n)
exit_with-ok (err e) x n h = cc
exit_with-ok (ok y) x n h =
    let same : y ≡ x = cc in
    let status : exit_status y.0 ≡ n = cc in
    (ap ok same, ap (λ (z : Delivery). exit_status z.0) (sym same) ∙ status)

-- The client of dispatch_client.py ends with status 0 only if its parameters could be read, it wrote
-- exactly one request to the dispatcher, and the reply says that the operation was completed, with a
-- body and a status from 200 to 299.
pub dispatch_main-IsCompleted :
    (js : Jsonschema) (validate : Json → Json → Result (Unit {0})) (dumps : Json → Result (List ℕ))
    (id token : String) (timeout : Moment) (asked now later : ℤ) (peer : Peer) (operation : String)
    (params : Result Json) (x : Delivery)
    → dispatch_main
        (by_socket js validate dumps id token timeout asked now later peer)
        operation
        params
      ≡ ok (x, 0)
    → IsOk params × (length x.1 ≡ 1) × IsCompleted x.0
unfolding dispatch_main
dispatch_main-IsCompleted js validate dumps id token timeout asked now later peer operation (err e)
      x h =
    cc
dispatch_main-IsCompleted js validate dumps id token timeout asked now later peer operation
      (ok params) x h =
    let reply =
      call js validate dumps id token (str operation) params timeout none asked now later peer in
    let (returned, zero') = exit_with-ok (delivered reply) x 0 h in
    let (consistent, honest) =
      delivered-IsSound js validate dumps (str operation) params peer reply x returned (
        call-IsSound js validate dumps (str operation) params peer id token timeout none asked now
          later) in
    let done' = consistent-IsCompleted x.0 consistent (exit_zero x.0 zero') in
    (refl, wrote_one peer x honest done'.execution, done')
