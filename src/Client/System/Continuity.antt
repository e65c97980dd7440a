-- ===== src/Client/System/Continuity.antt =====
-- The policies that a client holds one after another.
use mathlib.Core.Bool.{false≢true}
use native.Mathlib.Decide.{dec_lt}
use mathlib.Core.Path.{subst}
use ai_protocol.Base.{
  Bool-cases, ℕ, ◌≤◌, String, ◌≡◌, refl, sym, ap, ◌∙◌, ◌≢◌, ◌⊎◌, inl, inr, true, Option, none, some,
  arith,
}
use ai_protocol.Base.Int.{pos, ◌≤ℤ◌}
use ai_protocol.Result.{Result, ok, err}
use ai_protocol.Json.{Json}
use ai_protocol.Http.{Jsonschema}
use ai_protocol.Client.Policy.{validate_policy}
use ai_protocol.Client.Revision.{
  IsPolicy, Continues, ContinuesFrom, validate_policy-IsPolicy, Continues-refl, Continues-trans,
}
use ai_protocol.Client.Gate.{
  Gate, limit_of, release, Fetched, document, failed, interrupted, settle, end_refresh, aclose,
}
use ai_protocol.Client.System.{
  System, pass_gate, Step, arrive, pass, give_up, leave, refresh, close, Reach, start, next,
  holders,
}
use ai_protocol.Client.System.Invariant.{
  IsCounted, Step-IsCounted, Step-admits, Step-closed, Reach-IsCounted,
}

-- A gate keeps its policy, and is not ready where it was not; or it has taken an accepted policy
-- that continues the one before.
abbrev pub Updates : Jsonschema → Gate → Gate → Type 0
Updates js g g' =
    ((g'.policy ≡ g.policy) × (g'.ready ≡ true → g.ready ≡ true))
    ⊎ ((policy : Json) × (g'.policy ≡ some policy)
        × IsPolicy js policy
        × ContinuesFrom g.policy policy)

settle-Updates :
    (js : Jsonschema) (policy : Json) (g : Gate) (r : Result Json)
    → validate_policy js policy g.policy ≡ r
    → Updates js g (settle r g).1
settle-Updates js policy g (err e) q = inl (refl, λ h. cc)
settle-Updates js policy g (ok v) q = elim (Bool-cases g.closed) [
  | inl shut ↦ rw shut (inl (refl, λ h. h))
  | inr open' ↦
      let (same, valid, continued) = validate_policy-IsPolicy js policy g.policy v q in
      rw open' (inr (policy, ap some same, valid, continued))
]

-- What a refresh leaves in the gate.
end_refresh-Updates :
    (js : Jsonschema) (fetched : Fetched) (g : Gate) → Updates js g (end_refresh js fetched g).1
unfolding end_refresh
end_refresh-Updates js (document policy) g =
    settle-Updates js policy g (validate_policy js policy g.policy) refl
end_refresh-Updates js failed g = inl (refl, λ h. cc)
end_refresh-Updates js interrupted g = inl (refl, λ h. cc)

pass-Updates :
    (js : Jsonschema) (i : ℕ) (name : String) (s : System)
    → Updates js s.gate (pass_gate i name s).gate
unfolding pass_gate
pass-Updates js i name s = inl (ground arith, ground arith)

release-Updates : (js : Jsonschema) (g : Gate) → Updates js g (release g)
unfolding release
release-Updates js g = inl (ground arith, ground arith)

aclose-Updates : (js : Jsonschema) (g : Gate) → Updates js g (aclose g)
unfolding aclose
aclose-Updates js g = inl (refl, λ h. cc)

-- Every step keeps the policy or takes an accepted one that continues it.
pub Step-Updates : {js : Jsonschema} {s t : System} → Step js s t → Updates js s.gate t.gate
Step-Updates (arrive i name h) = inl (refl, λ h. h)
Step-Updates {js = js} {s = s} (pass i name h) = pass-Updates js i name s
Step-Updates (give_up i name h) = inl (refl, λ h. h)
Step-Updates {js = js} {s = s} (leave i operation h) = release-Updates js s.gate
Step-Updates {js = js} {s = s} (refresh fetched) = end_refresh-Updates js fetched s.gate
Step-Updates {js = js} {s = s} close = aclose-Updates js s.gate

-- What every reachable state of a client without a dispatcher keeps: the count, a policy that was
-- accepted whenever the gate is ready, and no more than 1000 attempts under way.
pub record IsSafe (js : Jsonschema) (s : System) : Type 0 where
  pub count : IsCounted s
  pub accepted : (policy : Json) → s.gate.policy ≡ some policy → IsPolicy js policy
  pub present : s.gate.ready ≡ true → s.gate.policy ≢ none
  pub bounded : holders s ≤ 1000

limit-le :
    (js : Jsonschema) (o : Option Json)
    → ((policy : Json) → o ≡ some policy → IsPolicy js policy)
    → limit_of o ≤ℤ pos 1000
limit-le js none h = omega arith
limit-le js (some policy) h = (h policy refl).highest

Updates-accepted :
    (js : Jsonschema) (g g' : Gate)
    → Updates js g g'
    → ((policy : Json) → g.policy ≡ some policy → IsPolicy js policy)
    → (policy : Json) → g'.policy ≡ some policy
    → IsPolicy js policy
Updates-accepted js g g' (inl (same, r)) h policy e = h policy (sym same ∙ e)
Updates-accepted js g g' (inr (p, q, valid, c)) h policy e =
    let same : p ≡ policy = cc in subst (IsPolicy js) same valid

Updates-present :
    (js : Jsonschema) (g g' : Gate)
    → Updates js g g'
    → (g.ready ≡ true → g.policy ≢ none)
    → g'.ready ≡ true
    → g'.policy ≢ none
Updates-present js g g' (inl (same, r)) h ready e = h (r ready) (sym same ∙ e)
Updates-present js g g' (inr (p, q, valid, c)) h ready e = cc

pub Step-IsSafe : {js : Jsonschema} {s t : System} → Step js s t → IsSafe js s → IsSafe js t
Step-IsSafe {js = js} {s = s} {t = t} step v = record {
  count = Step-IsCounted step v.count;
  accepted = Updates-accepted js s.gate t.gate (Step-Updates step) v.accepted;
  present = Updates-present js s.gate t.gate (Step-Updates step) v.present;
  bounded = elim (dec_lt (holders s) (holders t)) [
    | yes more ↦
        let (closed, ready, room) = Step-admits v.count step more in
        let top = limit-le js s.gate.policy v.accepted in omega arith
    | no same ↦ let before = v.bounded in omega arith
  ];
}

-- In every state that a safe one reaches, the gate counts the attempts under way, holds an accepted
-- policy whenever it is ready, is not ready once closed, and has let no more than 1000 in.
pub Reach-IsSafe : {js : Jsonschema} {s t : System} → IsSafe js s → Reach js s t → IsSafe js t
Reach-IsSafe v start = v
Reach-IsSafe v (next r step) = Step-IsSafe step (Reach-IsSafe v r)

-- The policy held later continues the one held before.
abbrev pub Extends : Option Json → Option Json → Type 0
Extends none later = Unit
Extends (some policy) none = ⊥
Extends (some policy) (some later) = Continues policy later

Extends-refl : (o : Option Json) → Extends o o
Extends-refl none = tt
Extends-refl (some policy) = Continues-refl policy

Extends-trans : (a b c : Option Json) → Extends a b → Extends b c → Extends a c
Extends-trans none b c h k = tt
Extends-trans (some p) none c h k = absurd h
Extends-trans (some p) (some q) none h k = absurd k
Extends-trans (some p) (some q) (some r) h k = Continues-trans p q r h k

Updates-Extends : (js : Jsonschema) (g g' : Gate) → Updates js g g' → Extends g.policy g'.policy
Updates-Extends js g g' (inl (same, r)) = rw same (Extends-refl g.policy)
Updates-Extends js g g' (inr (p, q, valid, continued)) =
    rw q (continues_extends g.policy p continued)
  where
    continues_extends : (o : Option Json) (p : Json) → ContinuesFrom o p → Extends o (some p)
    continues_extends none p h = tt
    continues_extends (some o) p h = h

-- Along any run a client that holds a policy goes on to hold one, of the same principal, class and
-- service; its revision never falls, and at one revision the limit never changes.
pub Reach-Extends :
    {js : Jsonschema} {s t : System} → Reach js s t → Extends s.gate.policy t.gate.policy
Reach-Extends {s = s} start = Extends-refl s.gate.policy
Reach-Extends {js = js} {s = s} (next {t = t} {u = u} r step) =
    Extends-trans s.gate.policy t.gate.policy u.gate.policy (Reach-Extends r)
      (Updates-Extends js t.gate u.gate (Step-Updates step))

-- Once closed, a client stays closed and starts no attempt.
pub closed_is_final :
    {js : Jsonschema} {s t : System}
    → IsCounted s
    → Reach js s t
    → s.gate.closed ≡ true
    → (t.gate.closed ≡ true) × (holders t ≤ holders s)
closed_is_final v start h = (h, omega arith)
closed_is_final {s = s} v (next {t = t} {u = u} r step) h =
    let (shut, few) = closed_is_final v r h in
    let counted = Reach-IsCounted v r in
    (
      Step-closed counted step shut,
      elim (dec_lt (holders t) (holders u)) [
        | yes more ↦
            let open' = (Step-admits counted step more).0 in absurd (false≢true (sym open' ∙ shut))
        | no same ↦ omega arith
      ],
    )
