-- ===== src/Demo/Until/Ends.antt =====
-- `until` ends, and says what it found.
use ai_protocol.Base.{
  ltb, leb, Bool-cases, ℕ, zero, suc, ◌+◌, ◌*◌, ◌≤◌, ◌<◌, String, ◌≡◌, refl, ◌⊎◌, inl, inr, Bool,
  true, false, ◌||◌, some, arith,
}
use ai_protocol.Result.{Exception, timeout_error, http_error, runtime_error, Result, ok, err}
use ai_protocol.Demo.Until.{
  Surroundings, is_transient, after_check, until_from, until, Gateway, is_up, await_gateway,
  await_ready,
}

-- What the end of the loop says: a check that was begun in time, while every process ran, succeeded;
-- or a process had exited; or the deadline has passed; or a check that was begun in time raised what
-- is not a matter of waiting. The loop ends when the check that decides it does.
pub data Says (env : Surroundings) (deadline : ℕ) : Result (Unit {0}) → ℕ → Type 0 where
  succeeded :
      {t : ℕ}
      → t < deadline
      → env.has_exited t ≡ false
      → env.check t ≡ ok true
      → Says env deadline (ok tt) (t + env.takes t)
  stopped :
      {t : ℕ} {m : String}
      → t < deadline
      → env.has_exited t ≡ true
      → Says env deadline (err (runtime_error m)) t
  expired : {t : ℕ} {m : String} → deadline ≤ t → Says env deadline (err (timeout_error m)) t
  failed :
      {t : ℕ} {e : Exception}
      → t < deadline
      → env.check t ≡ err e
      → is_transient e ≡ false
      → Says env deadline (err e) (t + env.takes t)

module _ (env : Surroundings) (deadline : ℕ) where
  abbrev Ends : ℕ → ℕ → Type 0
  Ends fuel now =
      (r : Result (Unit {0})) × (t : ℕ) × (until_from env fuel deadline now ≡ some (r, t))
      × Says env deadline r t

  -- One iteration, where the next one ends.
  iteration :
      (fuel now : ℕ) → (now < deadline → Ends fuel (now + env.takes now + 30)) → Ends (suc fuel) now
  unfolding until_from
  iteration fuel now next = elim (Bool-cases (ltb now deadline)) [
    | inr late ↦ (
      err (timeout_error "Demo startup or cleanup deadline exceeded"),
      now,
      rw late refl,
      expired (ground arith),
    )
    | inl early ↦ elim (Bool-cases (env.has_exited now)) [
      | inl gone ↦ (
        err (runtime_error "An owned demo process exited; inspect output logs"),
        now,
        rw early (rw gone refl),
        stopped (ground arith) gone,
      )
      | inr runs ↦ by_check (ground arith) early runs (env.check now) refl
    ]
  ]
    where
      by_check :
          now < deadline
          → ltb now deadline ≡ true
          → env.has_exited now ≡ false
          → (c : Result Bool) → env.check now ≡ c
          → Ends (suc fuel) now
      by_check in_time early runs (ok true) e =
          (ok tt, now + env.takes now, rw early (rw runs (rw e refl)), succeeded in_time runs e)
      by_check in_time early runs (ok false) e =
          let (r, t, q, s) = next in_time in (r, t, rw early (rw runs (rw e q)), s)
      by_check in_time early runs (err x) e = elim (Bool-cases (is_transient x)) [
        | inl again ↦
            let (r, t, q, s) = next in_time in (r, t, rw early (rw runs (rw e (rw again q))), s)
        | inr final ↦ (
          err x,
          now + env.takes now,
          rw early (rw runs (rw e (rw final refl))),
          failed in_time e final,
        )
      ]

  until_from-Ends : (fuel now : ℕ) → deadline ≤ now + 30 * fuel → Ends (suc fuel) now
  until_from-Ends zero now enough = iteration zero now (λ early. absurd (omega arith))
  until_from-Ends (suc fuel) now enough =
      iteration (suc fuel) now
        (λ early. until_from-Ends fuel (now + env.takes now + 30) (omega arith))

-- However long the checks take and whatever they end in, `until` ends, and what it ends in is true.
-- It returns at the end of a check that succeeded, and that was begun before the deadline of ten
-- seconds with every process running (the check itself may outlast the deadline); it raises
-- RuntimeError where a process has exited, TimeoutError where ten seconds have passed, and else only
-- what a check begun in time raised that is neither a transport error nor an OSError.
pub until_ends :
    (env : Surroundings) (start : ℕ)
    → (r : Result (Unit {0})) × (t : ℕ) × (until env start ≡ some (r, t))
      × Says env (start + 10000) r t
unfolding until
until_ends env start = until_from-Ends env (start + 10000) 334 start (omega arith)

-- A check that does not succeed yet: it finds no answer, or a transport error.
abbrev pub IsPending : Result Bool → Type 0
IsPending r = (r ≡ ok false) ⊎ (r ≡ err http_error)

-- Waiting for what becomes ready in time.
module _ (env : Surroundings) (deadline ready most : ℕ)
    (runs : (t : ℕ) → t < deadline → env.has_exited t ≡ false)
    (waits : (t : ℕ) → t < ready → IsPending (env.check t))
    (serves : (t : ℕ) → ready ≤ t → env.check t ≡ ok true) (brief : (t : ℕ) → env.takes t ≤ most)
    (in_time : ready + most + 30 ≤ deadline) where
  abbrev Returns : ℕ → ℕ → Type 0
  Returns fuel now =
      (t : ℕ) × (until_from env fuel deadline now ≡ some (ok tt, t + env.takes t))
      × (t < ready + most + 30)

  ends_now : (fuel now : ℕ) → now < ready + most + 30 → ready ≤ now → Returns (suc fuel) now
  unfolding until_from
  ends_now fuel now soon come =
      let early : ltb now deadline ≡ true = ground arith in
      (now, rw early (rw (runs now (omega arith)) (rw (serves now come) refl)), soon)

  ends_later :
      (fuel now : ℕ)
      → now < ready
      → Returns fuel (now + env.takes now + 30)
      → Returns (suc fuel) now
  unfolding until_from
  ends_later fuel now yet (t, q, soon) =
      let early : ltb now deadline ≡ true = ground arith in
      let again : after_check (env.check now) (now + env.takes now)
            (until_from env fuel deadline (now + env.takes now + 30))
          ≡ some (ok tt, t + env.takes t) =
        elim (waits now yet) [ inl e ↦ rw e q | inr e ↦ rw e q ] in
      (t, rw early (rw (runs now (omega arith)) again), soon)

  until_from-Returns :
      (fuel now : ℕ) → deadline ≤ now + 30 * fuel → now < ready + most + 30 → Returns (suc fuel) now
  until_from-Returns zero now enough soon = absurd (omega arith)
  until_from-Returns (suc fuel) now enough soon = elim (Bool-cases (ltb now ready)) [
    | inl yet ↦ ends_later (suc fuel) now (ground arith) (
        until_from-Returns fuel (now + env.takes now + 30) (omega arith)
          (ground (arith, brief now)))
    | inr come ↦ ends_now (suc fuel) now soon (ground arith)
  ]

-- Where every process keeps running, each check takes at most so long, and the checks begun before
-- some time find nothing (or a transport error) and those begun from then on succeed, `until`
-- returns, less than two checks and one wait of 30 ms after that time; the time has to leave room
-- for one check and one wait before the ten seconds are over.
pub until-returns :
    (env : Surroundings) (start ready most : ℕ)
    → ((t : ℕ) → t < start + 10000 → env.has_exited t ≡ false)
    → ((t : ℕ) → t < ready → IsPending (env.check t))
    → ((t : ℕ) → ready ≤ t → env.check t ≡ ok true)
    → ((t : ℕ) → env.takes t ≤ most)
    → start ≤ ready
    → ready + most + 30 ≤ start + 10000
    → (t : ℕ) × (until env start ≡ some (ok tt, t)) × (t < ready + 2 * most + 30)
unfolding until
until-returns env start ready most runs waits serves brief later in_time =
    let (t, e, soon) =
      until_from-Returns env (start + 10000) ready most runs waits serves brief in_time 334 start
        (omega arith) (omega arith) in
    let last = brief t in (t + env.takes t, e, omega arith)

-- How the wait for a gateway ends, for a number of rounds.
abbrev Awaited : Gateway → ℕ → ℕ → ℕ → Type 0
Awaited g fuel deadline now =
    (r : Result (Unit {0})) × (t : ℕ) × (await_gateway g fuel deadline now ≡ some (r, t))

await_round :
    (g : Gateway) (fuel deadline now : ℕ)
    → (now < deadline → Awaited g fuel deadline (now + g.takes now + 50))
    → Awaited g (suc fuel) deadline now
unfolding await_gateway
await_round g fuel deadline now next = elim (Bool-cases (g.has_exited now || leb deadline now)) [
  | inl late ↦ (
    err (runtime_error "Gateway did not become ready; build the binaries first"),
    now,
    rw late refl,
  )
  | inr early ↦ elim (Bool-cases (is_up (g.answer now))) [
    | inl up ↦ (ok tt, now + g.takes now, rw early (rw up refl))
    | inr down ↦ let (r, t, e) = next (ground arith) in (r, t, rw early (rw down e))
  ]
]

await_gateway-Awaited :
    (g : Gateway) (fuel deadline now : ℕ)
    → deadline ≤ now + 50 * fuel
    → Awaited g (suc fuel) deadline now
await_gateway-Awaited g zero deadline now enough =
    await_round g zero deadline now (λ early. absurd (omega arith))
await_gateway-Awaited g (suc fuel) deadline now enough =
    await_round g (suc fuel) deadline now
      (λ early. await_gateway-Awaited g fuel deadline (now + g.takes now + 50) (omega arith))

-- The wait of dynamic_demo.py ends, whatever the gateway does.
await_ready_total :
    (g : Gateway) (start : ℕ)
    → (r : Result (Unit {0})) × (t : ℕ) × (await_ready g start ≡ some (r, t))
unfolding await_ready
await_ready_total g start = await_gateway-Awaited g 200 (start + 10000) start (omega arith)
