-- ===== src/Demo/Transitions/Leaks.antt =====
-- What is printed comes from a line without a secret, or reports a change of the limit.
use Prim.Native.Nat.{max}
use ai_protocol.Base.{
  ltb, leb, Bool-cases, ℕ, suc, ◌+◌, ◌-◌, ◌≡◌, refl, sym, ap, ◌∙◌, ◌⊎◌, inl, inr, Bool, true, false,
  Option, none, some, List, [], ◌∷◌, arith,
}
use ai_protocol.Base.Lists.{All}
use ai_protocol.Base.Search.{contains, OccursIn, contains_iff}
use ai_protocol.Result.{Result, ok, err, Result-cases}
use ai_protocol.Json.{Json, str}
use ai_protocol.Release.Name.{Text, IsIn, here, there}
use ai_protocol.World.{Action, lift, resume, ◌>>=◌}
use ai_protocol.Demo.Transitions.{
  event_named, shows, forward, prepend, read_output, name_of, ends_demo, Reader, take_event,
  wait_from, wait_event, answered, admin_update,
}
use ai_protocol.Demo.Transitions.Script.{Others, change, script, stamp, reader}

module _ (loads : Text → Option Json) (secrets lines : List Text) (o : Others) where
  -- An event was read from a line of the client in which no secret occurs.
  abbrev pub IsClean : Json → Type 0
  IsClean e =
      (l : Text) × IsIn l lines
      × (loads l ≡ some e)
      × ((s : Text) → IsIn s secrets → ¬ OccursIn s l)

  -- An event reports the gateway's answer to a change of the limit.
  abbrev pub IsUpdate : Json → Type 0
  IsUpdate e =
      (maximum : ℕ) × (result : Json) × (answered (o.patched maximum) ≡ ok result)
      × (admin_update result ≡ ok e)

  -- What may be printed.
  abbrev pub IsReported : Json → Type 0
  IsReported e = IsClean e ⊎ IsUpdate e

  -- An event is clean, or it ends the demonstration.
  abbrev IsHarmless : Json → Type 0
  IsHarmless e = IsClean e ⊎ ((n : Json) × (name_of e ≡ ok n) × (ends_demo n ≡ true))

  hides : (l s : Text) (ss : List Text) → shows ss l ≡ false → IsIn s ss → ¬ OccursIn s l
  hides l s [] h i occurs = elim i [ ]
  hides l s (t ∷ ss) h (here e) occurs =
      let there_too : contains t l ≡ true =
        ap (λ x. contains x l) (sym e) ∙ (contains_iff s l).1 occurs in
      let both : false ≡ true = ground arith in cc
  hides l s (t ∷ ss) h (there i) occurs = hides l s ss (ground arith) i occurs

  prepend-All :
      (first' : Option Json) (es : List Json)
      → ((e : Json) → first' ≡ some e → IsHarmless e)
      → All IsHarmless es
      → All IsHarmless (prepend first' es)
  prepend-All none es k h = h
  prepend-All (some e) es k h = (k e refl, h)

  forward-IsHarmless :
      (l : Text) (e : Json) → IsIn l lines → forward loads secrets l ≡ some e → IsHarmless e
  forward-IsHarmless l e i h = elim (Bool-cases (shows secrets l)) [
    | inl leaks ↦
        let same : some (event_named "credential_leak") ≡ some e = rw leaks at h in
        let event : event_named "credential_leak" ≡ e = cc in
        inr (str "credential_leak", ap name_of (sym event), refl)
    | inr safe ↦ inl (l, i, rw safe at h, λ s k. hides l s secrets safe k)
  ]

  read_output-IsHarmless :
      (ls : List Text)
      → ((l : Text) → IsIn l ls → IsIn l lines)
      → All IsHarmless (read_output loads secrets ls)
  unfolding read_output
  read_output-IsHarmless [] k = (inr (str "exited", refl, refl), tt)
  read_output-IsHarmless (l ∷ ls) k =
      prepend-All (forward loads secrets l) (read_output loads secrets ls)
        (λ e h. forward-IsHarmless l e (k l (here refl)) h)
        (read_output-IsHarmless ls (λ m i. k m (there i)))

  stamp-All :
      (arrives : ℕ → ℕ) (es : List Json)
      → All IsHarmless es
      → All (λ e. IsHarmless e.1) (stamp arrives es)
  stamp-All arrives [] h = tt
  stamp-All arrives (e ∷ es) (one, h) = (one, stamp-All (λ n. arrives (suc n)) es h)

  -- What is queued is harmless, and what was printed may be.
  pub record IsSafe (r : Reader) : Type 0 where
    pub queued : All (λ e. IsHarmless e.1) r.queued
    pub printed : All IsReported r.printed

  event-IsClean : (e n : Json) → IsHarmless e → name_of e ≡ ok n → ends_demo n ≡ false → IsClean e
  event-IsClean e n (inl clean) h k = clean
  event-IsClean e n (inr (m, g, ends)) h k =
      let same : ok m ≡ ok n = sym g ∙ h in
      let equal : m ≡ n = cc in let both : true ≡ false = sym ends ∙ (ap ends_demo equal ∙ k) in cc

  take_event-IsSafe :
      (predicate : Json → Bool) (deadline : ℕ) (e : Json) (again : Result Json × Reader)
      (r : Reader) (n : Result Json)
      → name_of e ≡ n
      → IsHarmless e
      → IsSafe r
      → (IsClean e → IsSafe again.1)
      → IsSafe (take_event predicate deadline e again r n).1
  take_event-IsSafe predicate deadline e again r (err x) named one safe next = safe
  take_event-IsSafe predicate deadline e again r (ok n) named one safe next =
      elim (Bool-cases (ends_demo n)) [
        | inl ends ↦ rw ends safe
        | inr on ↦
            let clean = event-IsClean e n one named on in
            let printed : IsSafe (record r { printed = e ∷ r.printed }) = record {
              queued = safe.queued;
              printed = (inl clean, safe.printed);
            } in
            rw on (elim (Bool-cases (predicate e)) [
              | inl found ↦ rw found printed
              | inr other ↦ elim (Bool-cases (leb deadline r.now)) [
                | inl late ↦ rw other (rw late printed)
                | inr early ↦ rw other (rw early (next clean))
              ]
            ])
      ]

  wait_from-IsSafe :
      (predicate : Json → Bool) (deadline now : ℕ) (printed : List Json) (es : List (ℕ × Json))
      → All (λ e. IsHarmless e.1) es
      → All IsReported printed
      → IsSafe (wait_from predicate deadline now printed es).1
  unfolding wait_from
  wait_from-IsSafe predicate deadline now printed [] h k = record { queued = tt; printed = k }
  wait_from-IsSafe predicate deadline now printed ((t, e) ∷ es) (one, h) k =
      elim (Bool-cases (ltb (now + max 10 (deadline - now)) t)) [
        | inl none_comes ↦ rw none_comes (record { queued = (one, h); printed = k })
        | inr comes ↦ rw comes (
            take_event-IsSafe predicate deadline e
              (wait_from predicate deadline (max now t) (e ∷ printed) es)
              (record { now = max now t; queued = es; printed = printed }) (name_of e) refl one
              (record { queued = h; printed = k })
              (λ clean.
                wait_from-IsSafe predicate deadline (max now t) (e ∷ printed) es h (inl clean, k)))
      ]

  -- The actions that print only what may be printed.
  record Preserves {A : Type 0} (m : Action Reader A) : Type 0 where
    at : (r : Reader) → IsSafe r → IsSafe (m r).1

  wait_event-Preserves : (predicate : Json → Bool) → Preserves (wait_event predicate)
  unfolding wait_event
  wait_event-Preserves predicate = record {
    at = λ r safe.
        wait_from-IsSafe predicate (r.now + 20000) r.now r.printed r.queued safe.queued
          safe.printed;
  }

  lift-Preserves : {A : Type 0} (result : Result A) → Preserves (lift result)
  lift-Preserves result = record { at = λ r safe. safe }

  resume-IsSafe :
      {A B : Type 0} (f : A → Action Reader B) (x : Result A × Reader)
      → ((a : A) → Preserves (f a))
      → IsSafe x.1
      → IsSafe (resume f x).1
  resume-IsSafe f (ok a, r) k safe = (k a).at r safe
  resume-IsSafe f (err e, r) k safe = safe

  >>=-Preserves :
      {A B : Type 0} (m : Action Reader A) (f : A → Action Reader B)
      → Preserves m
      → ((a : A) → Preserves (f a))
      → Preserves (m >>= f)
  >>=-Preserves m f h k = record { at = λ r safe. resume-IsSafe f (m r) k (h.at r safe) }

  change-Preserves : (maximum : ℕ) → Preserves (change (o.patched maximum))
  unfolding change
  change-Preserves maximum = record {
    at = λ r safe. elim (Result-cases (answered (o.patched maximum))) [
      | inr (e, q) ↦ rw q safe
      | inl (result, q) ↦ elim (Result-cases (admin_update result)) [
        | inr (e, q') ↦ rw q (rw q' safe)
        | inl (update, q') ↦ rw q (
            rw q' (record {
              queued = safe.queued;
              printed = (inr (maximum, result, q, q'), safe.printed);
            }))
      ]
    ];
  }

  script-Preserves : Preserves (script o)
  unfolding script
  script-Preserves =
      search (>>=-Preserves, wait_event-Preserves, lift-Preserves, change-Preserves) depth 30

-- Whatever the load client writes and whenever, whatever the gateway answers, and however the
-- demonstration ends: every event that it prints was read from a line of the client in which none of
-- the secrets occurs, or it is the `admin_update` event made of the gateway's answer to a change of
-- the limit.
pub script-IsClean :
    (loads : Text → Option Json) (secrets lines : List Text) (arrives : ℕ → ℕ) (start : ℕ)
    (o : Others)
    → All
        (IsReported loads secrets lines o)
        (script o (reader loads secrets arrives start lines)).1.printed
script-IsClean loads secrets lines arrives start o =
    ((script-Preserves loads secrets lines o).at (reader loads secrets arrives start lines)
      (record {
        queued =
            stamp-All loads secrets lines o arrives (read_output loads secrets lines)
              (read_output-IsHarmless loads secrets lines o lines (λ l i. i));
        printed = tt;
      })).printed
