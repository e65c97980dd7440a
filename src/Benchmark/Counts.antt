-- ===== src/Benchmark/Counts.antt =====
-- The counts of a summary fit together.
use ai_protocol.Base.{
  ltb, ◌==◌, str_eq, Bool-cases, Option-cases, ℕ, ◌+◌, ◌≤◌, ◌<◌, String, ◌≡◌, refl, ap, ◌∙◌, ◌⊎◌,
  inl, inr, Bool, true, false, ◌&&◌, none, List, [], ◌∷◌, arith, eq_iff,
}
use ai_protocol.Base.Lists.{length, keep, count}
use ai_protocol.Benchmark.Tasks.{is_kind}
use ai_protocol.Benchmark.Records.{Row}
use ai_protocol.Benchmark.Summary.{
  has_outcome, all_attempts, has_status, is_queue_timeout, is_upstream_error, batch_ms, summarize,
}

-- Tests of which no two hold at once.
Excludes : {A : Type 0} → (A → Bool) → (A → Bool) → Type 0
Excludes {A} p q = (x : A) → p x ≡ true → q x ≡ false

count-three :
    {A : Type 0} (p q s : A → Bool) (xs : List A)
    → Excludes p q
    → Excludes p s
    → Excludes q s
    → count p xs + count q xs + count s xs ≤ length xs
unfolding Excludes
count-three p q s [] a b c = omega arith
count-three p q s (x ∷ xs) a b c = ground (arith, a x, b x, c x, count-three p q s xs a b c)

different_outcomes : (a b : String) → str_eq a b ≡ false → Excludes (has_outcome a) (has_outcome b)
unfolding Excludes
different_outcomes a b d r h = ap (λ (s : String). str_eq s b) ((eq_iff r.outcome a).0 h) ∙ d

too_many_or_late : Excludes (has_status 429) is_queue_timeout
unfolding Excludes
too_many_or_late a h = elim (Option-cases a.status) [
  | inl nothing ↦ ground arith
  | inr (status, e) ↦ ground arith
]

too_many_or_broken : Excludes (has_status 429) is_upstream_error
unfolding Excludes
too_many_or_broken a h = elim (Option-cases a.status) [
  | inl nothing ↦ ground arith
  | inr (status, e) ↦ ground arith
]

late_or_broken : Excludes is_queue_timeout is_upstream_error
unfolding Excludes
late_or_broken a h = elim (Option-cases a.status) [
  | inl nothing ↦ ground arith
  | inr (status, e) ↦ ground arith
]

-- No task is counted under two outcomes, and no attempt under two of the refusals and errors; a
-- batch time is given only if there are tasks and every one succeeded.
pub summarize_counts :
    (rank : ℕ → ℕ → ℕ) (kind : String) (rows : List Row)
    → let f = summarize rank kind rows in
      (f.success + f.failed + f.unfinished ≤ f.tasks)
      × (f.http_429 + f.queue_timeout + f.upstream_errors ≤ f.attempts)
      × ((f.all_success_batch_ms ≡ none) ⊎ ((0 < f.tasks) × (f.success ≡ f.tasks)))
unfolding summarize
summarize_counts rank kind rows =
    let own = keep (λ r. is_kind kind r.task) rows in
    (
      count-three (has_outcome "success") (has_outcome "failed") (has_outcome "unfinished") own
          (different_outcomes "success" "failed" refl)
          (different_outcomes "success" "unfinished" refl)
          (different_outcomes "failed" "unfinished" refl),
      count-three (has_status 429) is_queue_timeout is_upstream_error (all_attempts own)
          too_many_or_late too_many_or_broken late_or_broken,
      batch own,
    )
  where
    batch :
        (own : List Row)
        → (batch_ms own ≡ none)
          ⊎ ((0 < length own) × (count (has_outcome "success") own ≡ length own))
    batch own =
        elim (Bool-cases (ltb 0 (length own) && count (has_outcome "success") own == length own)) [
          | inl every_one ↦ inr (ground arith)
          | inr not_all ↦ inl (rw not_all refl)
        ]
