-- ===== src/Demo/Streams/Counted.antt =====
-- Every order of the requests gives the same counts.
use ai_protocol.Base.{
  if◌then◌else◌, Option-cases, ℕ, zero, suc, ◌+◌, ◌-◌, ◌≡◌, refl, inl, inr, Bool, true, false, some,
  List, [], ◌∷◌, arith,
}
use ai_protocol.Base.Lists.{get_elem?, All, set}
use ai_protocol.Result.{ok, >>=-ok}
use ai_protocol.Demo.Streams.{Worker, Streams, complete, gather, streams}

-- The requests of a class that a call has still to make.
abbrev pub due : Bool → Worker → ℕ
due true w = if w.is_interactive then w.left else 0
due false w = if w.is_interactive then 0 else w.left

-- `sum(f(x) for x in xs)`
abbrev pub total : (Worker → ℕ) → List Worker → ℕ
total f [] = 0
total f (w ∷ ws) = f w + total f ws

total-set :
    (f : Worker → ℕ) (ws : List Worker) (i : ℕ) (w v : Worker)
    → get_elem? ws i ≡ some w
    → total f (set ws i v) + f w ≡ total f ws + f v
total-set f [] i w v h = cc
total-set f (x ∷ ws) zero w v h = let same : x ≡ w = cc in rw same (omega arith)
total-set f (x ∷ ws) (suc i) w v h = let ih = total-set f ws i w v h in omega arith

-- What was completed and what is due come to the same in each class.
pub record IsOf (interactive agent : ℕ) (s : Streams) : Type 0 where
  pub of_interactive : s.interactive + total (due true) s.workers ≡ interactive
  pub of_agent : s.agent + total (due false) s.workers ≡ agent

complete-IsOf :
    (m n i status : ℕ) (s s' : Streams) → complete i status s ≡ ok s' → IsOf m n s → IsOf m n s'
unfolding complete
complete-IsOf m n i status s s' h inv = elim (Option-cases (get_elem? s.workers i)) [
  | inl no_worker ↦ let same : s ≡ s' = ground arith in rw (← same) inv
  | inr (w, found) ↦
      let one = total-set (due true) s.workers i w (record w { left = w.left - 1 }) found in
      let two = total-set (due false) s.workers i w (record w { left = w.left - 1 }) found in
      record { of_interactive = ground arith; of_agent = ground arith }
]

gather-IsOf :
    (m n : ℕ) (ends : List (ℕ × ℕ)) (s s' : Streams)
    → gather ends s ≡ ok s'
    → IsOf m n s
    → IsOf m n s'
unfolding gather
gather-IsOf m n [] s s' h inv = let same : s ≡ s' = cc in rw (← same) inv
gather-IsOf m n ((i, status) ∷ ends) s s' h inv =
    let (next, e, rest) = >>=-ok (complete i status s) (gather ends) h in
    gather-IsOf m n ends next s' rest (complete-IsOf m n i status s next e inv)

abbrev pub IsFinished : Streams → Type 0
IsFinished s = All (λ w. w.left ≡ 0) s.workers

finished_total :
    (kind : Bool) (ws : List Worker) → All (λ w. w.left ≡ 0) ws → total (due kind) ws ≡ 0
finished_total kind [] h = refl
finished_total true (w ∷ ws) (e, h) = ground (arith, finished_total true ws h)
finished_total false (w ∷ ws) (e, h) = ground (arith, finished_total false ws h)

-- In whatever order the requests of the twenty streams end: if no assertion fails and every stream
-- has made its ten requests, exactly 80 interactive requests and 120 of the agents are counted.
pub gather-counts :
    (ends : List (ℕ × ℕ)) (s : Streams)
    → gather ends streams ≡ ok s
    → IsFinished s
    → (s.interactive ≡ 80) × (s.agent ≡ 120)
gather-counts ends s h finished =
    let inv =
      gather-IsOf 80 120 ends streams s h (record { of_interactive = refl; of_agent = refl }) in
    (
      omega (arith, inv.of_interactive, finished_total true s.workers finished),
      omega (arith, inv.of_agent, finished_total false s.workers finished),
    )
