-- ===== src/Dispatcher/Replies.antt =====
-- Whatever the dispatcher does, a call that returns gives a consistent reply, and says `not_started`
-- of its own accord only where it wrote nothing.
use ai_protocol.Base.{
  ltb, if◌then◌else◌, Bool-cases, ℕ, String, ◌≡◌, refl, ◌⊎◌, inl, inr, Bool, true, false, not, ◌||◌,
  Option, some, List, [], ◌∷◌, ◌++◌, arith,
}
use ai_protocol.Base.Int.{ℤ, pos, ◌+ℤ◌, ltb_ℤ, leb_ℤ}
use ai_protocol.Base.Lists.{length}
use ai_protocol.Result.{Exception, Result, ok, err, Result-cases}
use ai_protocol.Json.{finite, Json, str, get}
use ai_protocol.Http.{Jsonschema}
use ai_protocol.Dispatcher.{
  max_frame, has_reply_fields, is_inconsistent, Line, Peer, unreachable, silent, line, read_reply,
  Exchange, is_lost, received, exchange, Moment, finite, not_finite, checked_name,
  is_operation_name, invalid, expired, is_refused, is_unencodable, refused, submit_text, message,
  submit, deadline_of, call_until, call,
}

-- What the checks on a reply establish.
abbrev pub IsConsistent : Json → Type 0
IsConsistent reply = (has_reply_fields reply ≡ true) × (is_inconsistent reply ≡ false)

-- Nothing was written, and the reply says that nothing was started; or one payload was written, and
-- the reply is the dispatcher's own, or says that the outcome is unknown.
abbrev pub IsHonest : Peer → Json × List (List ℕ) → Type 0
IsHonest peer (reply, written) =
    (written ≡ []) × (get reply "execution" ≡ some (str "not_started"))
    ⊎ ((length written ≡ 1)
        × ((get reply "execution" ≡ some (str "unknown"))
            ⊎ ((l : Line) × (peer ≡ line l) × (l.parsed ≡ ok reply))))

read_reply-ok :
    (l : Line) (reply : Json) → read_reply l ≡ ok reply → IsConsistent reply × (l.parsed ≡ ok reply)
unfolding read_reply
read_reply-ok l reply h = ground arith

-- What leaves `read_reply` and is not handled was raised by `json.loads`.
read_reply-err :
    (l : Line) (e : Exception) → read_reply l ≡ err e → is_lost e ≡ false → l.parsed ≡ err e
unfolding read_reply
read_reply-err l e h k = elim (Result-cases l.parsed) [
  | inr (raised, q) ↦ ground arith
  | inl (reply, q) ↦ let handled : ⊥ = ground arith in absurd handled
]

module _ (js : Jsonschema) (validate : Json → Json → Result (Unit {0}))
    (dumps : Json → Result (List ℕ)) (operation params : Json) (peer : Peer) where
  -- An exception that leaves the call: it was raised while the operation was checked or its message
  -- encoded, with nothing written, or by `json.loads` on the dispatcher's line, after one payload; and
  -- the `except` clause of that place does not name it.
  abbrev pub Escapes : Exception → List (List ℕ) → Type 0
  Escapes e written =
      ((written ≡ [])
        × (checked_name js validate operation params ≡ err e)
        × (is_refused e ≡ false))
      ⊎ (((written ≡ []) × ((v : Json) × (dumps v ≡ err e)) × (is_unencodable e ≡ false))
          ⊎ ((length written ≡ 1)
              × ((l : Line) × (peer ≡ line l) × (l.parsed ≡ err e))
              × (is_lost e ≡ false)))

  abbrev pub IsSound : Exchange → Type 0
  IsSound (ok reply, written) = IsConsistent reply × IsHonest peer (reply, written)
  IsSound (err e, written) = Escapes e written

  invalid-IsSound : IsSound invalid
  unfolding has_reply_fields is_inconsistent
  invalid-IsSound = ((refl, refl), inl (refl, refl))

  expired-IsSound : IsSound expired
  unfolding has_reply_fields is_inconsistent
  expired-IsSound = ((refl, refl), inl (refl, refl))

  if-IsSound : (b : Bool) (x y : Exchange) → IsSound x → IsSound y → IsSound (if b then x else y)
  if-IsSound true x y h k = h
  if-IsSound false x y h k = k

  refused-IsSound :
      (is_named : Exception → Bool) (e : Exception)
      → (is_named e ≡ false → Escapes e [])
      → IsSound (refused is_named e)
  refused-IsSound is_named e h = elim (Bool-cases (is_named e)) [
    | inl named ↦ rw named invalid-IsSound
    | inr other ↦ rw other (h other)
  ]

  received-IsSound :
      (payload : List ℕ) (l : Line) (r : Result Json)
      → peer ≡ line l
      → read_reply l ≡ r
      → IsSound (received payload r)
  received-IsSound payload l (ok reply) at h =
      let (consistent, same) = read_reply-ok l reply h in
      (consistent, inr (refl, inr (l, at, same)))
  received-IsSound payload l (err e) at h = elim (Bool-cases (is_lost e)) [
    | inl named ↦
        rw named (unfold has_reply_fields is_inconsistent in ((refl, refl), inr (refl, inl refl)))
    | inr other ↦ rw other (inr (inr (refl, (l, at, read_reply-err l e h other), other)))
  ]

  exchange-IsSound :
      (payload : List ℕ) (other : Peer) → peer ≡ other → IsSound (exchange payload other)
  unfolding exchange
  exchange-IsSound payload unreachable at =
      unfold has_reply_fields is_inconsistent in ((refl, refl), inl (refl, refl))
  exchange-IsSound payload silent at =
      unfold has_reply_fields is_inconsistent in ((refl, refl), inr (refl, inl refl))
  exchange-IsSound payload (line l) at = received-IsSound payload l (read_reply l) at refl

  submit_text-IsSound :
      (v : Json) (text : Result (List ℕ)) (deadline later : ℤ)
      → dumps v ≡ text
      → IsSound (submit_text text deadline later peer)
  submit_text-IsSound v (err e) deadline later h =
      refused-IsSound is_unencodable e (λ other. inr (inl (refl, (v, h), other)))
  submit_text-IsSound v (ok text) deadline later h =
      let payload = text ++ 10 ∷ [] in
      let in_time : Exchange = if leb_ℤ deadline later then expired else exchange payload peer in
      if-IsSound (ltb max_frame (length payload)) invalid in_time invalid-IsSound (
        if-IsSound (leb_ℤ deadline later) expired (exchange payload peer) expired-IsSound
          (exchange-IsSound payload peer refl))

  submit-IsSound :
      (message_of : Json → Json) (r : Result Json) (deadline now later : ℤ)
      → checked_name js validate operation params ≡ r
      → IsSound (submit dumps message_of r deadline now later peer)
  submit-IsSound message_of (err e) deadline now later h =
      refused-IsSound is_refused e (λ other. inl (refl, h, other))
  submit-IsSound message_of (ok name) deadline now later h =
      if-IsSound (ltb_ℤ (now +ℤ pos 3600000) deadline || not (is_operation_name name)) invalid
        (submit_text (dumps (message_of name)) deadline later peer) invalid-IsSound
        (submit_text-IsSound (message_of name) (dumps (message_of name)) deadline later refl)

  call_until-IsSound :
      (id token : String) (deadline : Moment) (now later : ℤ)
      → IsSound (call_until js validate dumps id token operation params deadline now later peer)
  unfolding call_until
  call_until-IsSound id token not_finite now later = invalid-IsSound
  call_until-IsSound id token (finite deadline) now later =
      let message_of : Json → Json = λ name. message id token name params deadline in
      let name = checked_name js validate operation params in
      if-IsSound (leb_ℤ deadline now) expired (submit dumps message_of name deadline now later peer)
        expired-IsSound (submit-IsSound message_of name deadline now later refl)

  pub call-IsSound :
      (id token : String) (timeout : Moment) (deadline : Option Moment) (asked now later : ℤ)
      → IsSound
          (call js validate dumps id token operation params timeout deadline asked now later peer)
  unfolding call
  call-IsSound id token timeout deadline asked now later =
      call_until-IsSound id token (deadline_of timeout deadline asked) now later
