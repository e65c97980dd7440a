-- ===== src/Client/System/Invariant.antt =====
-- The gate counts the attempts under way, and never lets more in than the policy allows.
use ai_protocol.Base.{
  Bool-cases, ℕ, ◌+◌, ◌-◌, ◌<◌, String, ◌≡◌, refl, sym, ◌∙◌, ◌⊎◌, inl, inr, true, false, some,
  arith,
}
use ai_protocol.Base.Int.{pos, ◌≤ℤ◌}
use ai_protocol.Base.Lists.{get_elem?, weight, count-set}
use ai_protocol.Http.{Jsonschema}
use ai_protocol.Client.Gate.{
  Gate, limit_of, acquire, release, Fetched, document, failed, interrupted, end_refresh, aclose,
}
use ai_protocol.Client.System.{
  outside, waiting, holding, is_holding, System, after_pass, pass_gate, Step, arrive, pass, give_up,
  leave, refresh, close, Reach, start, next, holders,
}

-- Without a dispatcher `active` is the number of attempts under way.
pub record IsCounted (s : System) : Type 0 where
  pub direct : s.gate.dispatcher ≡ false
  pub counted : s.gate.active ≡ holders s
  pub open_if_ready : s.gate.ready ≡ true → s.gate.closed ≡ false

acquire-holders :
    (g : Gate) (name : String)
    → g.dispatcher ≡ false
    → ((acquire g name).1.active
        ≡ g.active + weight is_holding (after_pass name (acquire g name).0))
      × ((acquire g name).1.dispatcher ≡ false)
      × ((acquire g name).1.ready ≡ g.ready)
      × ((acquire g name).1.closed ≡ g.closed)
unfolding acquire
acquire-holders g name h = ground arith

release-fields :
    (g : Gate)
    → g.dispatcher ≡ false
    → ((release g).active ≡ g.active - 1)
      × ((release g).dispatcher ≡ false)
      × ((release g).ready ≡ g.ready)
      × ((release g).closed ≡ g.closed)
unfolding release
release-fields g h = ground arith

end_refresh-fields :
    (js : Jsonschema) (fetched : Fetched) (g : Gate)
    → ((end_refresh js fetched g).1.active ≡ g.active)
      × ((end_refresh js fetched g).1.dispatcher ≡ g.dispatcher)
      × ((end_refresh js fetched g).1.closed ≡ g.closed)
      × ((end_refresh js fetched g).1.ready ≡ true → (g.closed ≡ false) ⊎ (g.ready ≡ true))
unfolding end_refresh
end_refresh-fields js (document policy) g = ground arith
end_refresh-fields js failed g = ground arith
end_refresh-fields js interrupted g = ground arith

pass-IsCounted :
    (i : ℕ) (name : String) (s : System)
    → get_elem? s.tasks i ≡ some (waiting name)
    → IsCounted s
    → IsCounted (pass_gate i name s)
unfolding pass_gate
pass-IsCounted i name s h v =
    let task = after_pass name (acquire s.gate name).0 in
    let moved = count-set is_holding s.tasks i (waiting name) task h in
    let (active, direct, ready, closed) = acquire-holders s.gate name v.direct in
    record {
      direct = direct;
      counted = omega (arith, v.counted);
      open_if_ready = λ r. closed ∙ v.open_if_ready (sym ready ∙ r);
    }

-- Every step keeps the count.
pub Step-IsCounted : {js : Jsonschema} {s t : System} → Step js s t → IsCounted s → IsCounted t
Step-IsCounted {s = s} (arrive i name h) v =
    let moved = count-set is_holding s.tasks i outside (waiting name) h in
    record {
      direct = v.direct;
      counted = omega (arith, v.counted);
      open_if_ready = v.open_if_ready;
    }
Step-IsCounted {s = s} (pass i name h) v = pass-IsCounted i name s h v
Step-IsCounted {s = s} (give_up i name h) v =
    let moved = count-set is_holding s.tasks i (waiting name) outside h in
    record {
      direct = v.direct;
      counted = omega (arith, v.counted);
      open_if_ready = v.open_if_ready;
    }
Step-IsCounted {s = s} (leave i operation h) v =
    let moved = count-set is_holding s.tasks i (holding operation) outside h in
    let (active, direct, ready, closed) = release-fields s.gate v.direct in
    record {
      direct = direct;
      counted = omega (arith, v.counted);
      open_if_ready = λ r. closed ∙ v.open_if_ready (sym ready ∙ r);
    }
Step-IsCounted {js = js} {s = s} (refresh fetched) v =
    let (active, direct, closed, ready) = end_refresh-fields js fetched s.gate in
    record {
      direct = direct ∙ v.direct;
      counted = active ∙ v.counted;
      open_if_ready = λ r. elim (ready r) [
        | inl open' ↦ closed ∙ open'
        | inr was ↦ closed ∙ v.open_if_ready was
      ];
    }
Step-IsCounted {s = s} close v = closing s v
  where
    closing : (s : System) → IsCounted s → IsCounted (record s { gate = aclose s.gate })
    closing s v =
        unfold aclose in record { direct = v.direct; counted = v.counted; open_if_ready = λ r. cc }

-- A pass that admits was made while the gate was ready and open, below the limit.
acquire-admits :
    (g : Gate) (name : String)
    → g.dispatcher ≡ false
    → is_holding (after_pass name (acquire g name).0) ≡ true
    → (g.closed ≡ false) × (g.ready ≡ true) × (pos (g.active + 1) ≤ℤ limit_of g.policy)
unfolding acquire
acquire-admits g name h k = ground arith

-- A pass that changes the number of attempts under way adds one.
pass-admits :
    (i : ℕ) (name : String) (s : System)
    → get_elem? s.tasks i ≡ some (waiting name)
    → holders s < holders (pass_gate i name s)
    → (is_holding (after_pass name (acquire s.gate name).0) ≡ true)
      × (holders (pass_gate i name s) ≡ holders s + 1)
unfolding pass_gate
pass-admits i name s h more =
    let task = after_pass name (acquire s.gate name).0 in
    let moved = count-set is_holding s.tasks i (waiting name) task h in
    elim (Bool-cases (is_holding task)) [
      | inl in' ↦ (in', let one : weight is_holding task ≡ 1 = rw in' in omega arith)
      | inr out ↦ let none' : weight is_holding task ≡ 0 = rw out in absurd (omega arith)
    ]

-- The number of attempts under way grows only by a step that is made while the gate is ready and
-- open, and only up to the limit of the policy in force.
pub Step-admits :
    {js : Jsonschema} {s t : System}
    → IsCounted s
    → Step js s t
    → holders s < holders t
    → (s.gate.closed ≡ false) × (s.gate.ready ≡ true) × (pos (holders t) ≤ℤ limit_of s.gate.policy)
Step-admits {s = s} v (arrive i name h) more =
    let moved = count-set is_holding s.tasks i outside (waiting name) h in absurd (omega arith)
Step-admits {s = s} v (pass i name h) more =
    let (held, one) = pass-admits i name s h more in
    let (closed, ready, room) = acquire-admits s.gate name v.direct held in
    (closed, ready, omega (arith, v.counted))
Step-admits {s = s} v (give_up i name h) more =
    let moved = count-set is_holding s.tasks i (waiting name) outside h in absurd (omega arith)
Step-admits {s = s} v (leave i operation h) more =
    let moved = count-set is_holding s.tasks i (holding operation) outside h in absurd (omega arith)
Step-admits v (refresh fetched) more = absurd (omega arith)
Step-admits v close more = absurd (omega arith)

pass-closed :
    (i : ℕ) (name : String) (s : System)
    → IsCounted s
    → (pass_gate i name s).gate.closed ≡ s.gate.closed
unfolding pass_gate
pass-closed i name s v = (acquire-holders s.gate name v.direct).3

-- No step opens a closed gate.
pub Step-closed :
    {js : Jsonschema} {s t : System}
    → IsCounted s
    → Step js s t
    → s.gate.closed ≡ true
    → t.gate.closed ≡ true
Step-closed v (arrive i name h) e = e
Step-closed {s = s} v (pass i name h) e = pass-closed i name s v ∙ e
Step-closed v (give_up i name h) e = e
Step-closed {s = s} v (leave i operation h) e = (release-fields s.gate v.direct).3 ∙ e
Step-closed {js = js} {s = s} v (refresh fetched) e = (end_refresh-fields js fetched s.gate).2 ∙ e
Step-closed v close e = unfold aclose in refl

pub Reach-IsCounted : {js : Jsonschema} {s t : System} → IsCounted s → Reach js s t → IsCounted t
Reach-IsCounted v start = v
Reach-IsCounted v (next r step) = Step-IsCounted step (Reach-IsCounted v r)
