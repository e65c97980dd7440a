-- ===== src/Benchmark/Trace.antt =====
-- `read_trace` and the assertions of `analyze_run` (benchmarks/stage4/analyze.py).
use ai_protocol.Base.{
  ◌==◌, Option-cases, ℕ, suc, ◌+◌, ◌≤◌, ◌≡◌, inl, inr, Bool, true, false, not, ◌&&◌, ◌||◌, Option,
  none, some, List, [], ◌∷◌, arith,
}
use ai_protocol.Base.Int.{ℤ, pos, ltb_ℤ, leb_ℤ, eq_ℤ}
use ai_protocol.Base.Text.{codes, starts_with}
use ai_protocol.Base.Lists.{length, all, any, keep}
use ai_protocol.Result.{
  value_error, assertion_error, Result, ok, ◌>>=◌, ◌>>◌, raise_if, require, >>=-ok,
}

-- A line of server.jsonl, as the analysis reads it.
pub data Entry : Type 0 where
  -- What is outstanding, and the limit.
  admission : ℤ → ℤ → Entry
  -- What is active, the two queues, and of each budget what is outstanding and its limit.
  sample : ℤ → ℤ → ℤ → List (ℤ × ℤ) → Entry
  other : Entry

-- A line with its end, and what `json.loads` makes of it.
pub record RawLine : Type 0 where
  pub text : List ℕ
  pub parsed : Option Entry

-- `line.endswith('\n')`
abbrev pub is_terminated : List ℕ → Bool
is_terminated [] = false
is_terminated (c ∷ []) = c == 10
is_terminated (c ∷ d ∷ s) = is_terminated (d ∷ s)

abbrev pub is_last : List RawLine → Bool
is_last [] = true
is_last (l ∷ lines) = false

-- Only an unfinished sample at the very end may be left out.
abbrev pub skip_line : RawLine → Bool → Result (List Entry × ℕ)
skip_line l last = do
  raise_if (not last || is_terminated l.text || not (starts_with l.text (codes "{\"active\":")))
      (value_error "Invalid JSON")
  ok ([], 1)

unfoldable pub read_trace : List RawLine → Result (List Entry × ℕ)
read_trace [] = ok ([], 0)
read_trace (l ∷ lines) =
    let rest = read_trace lines in
    elim l.parsed [ some e ↦ rest >>= λ r. ok (e ∷ r.0, r.1) | none ↦ skip_line l (is_last lines) ]

-- `not 0 < e['outstanding'] <= e['limit']`
abbrev pub is_invalid : Entry → Bool
is_invalid (admission outstanding limit) =
    not (ltb_ℤ (pos 0) outstanding && leb_ℤ outstanding limit)
is_invalid e = false

abbrev pub is_sample : Entry → Bool
is_sample (sample active interactive agent budgets) = true
is_sample e = false

abbrev pub is_bounded : Entry → Bool
is_bounded (sample active interactive agent budgets) =
    leb_ℤ active (pos 10) && leb_ℤ interactive (pos 32) && leb_ℤ agent (pos 32)
is_bounded e = true

-- The last sample: nothing is active, queued or outstanding.
abbrev pub is_drained : Entry → Bool
is_drained (sample active interactive agent budgets) =
    eq_ℤ active (pos 0)
    && eq_ℤ agent (pos 0)
    && eq_ℤ interactive (pos 0)
    && all (λ b. eq_ℤ b.0 (pos 0)) budgets
is_drained e = false

abbrev pub last_drained : List Entry → Bool
last_drained [] = false
last_drained (e ∷ []) = is_drained e
last_drained (e ∷ d ∷ es) = last_drained (d ∷ es)

-- The assertions, given what is outstanding at the end and how many requests the upstream started
-- and completed. `max` of no samples raises.
unfoldable pub check_trace : List Entry → ℤ → ℕ → ℕ → Result (Unit {0})
check_trace trace outstanding started completed = do
  require (any is_sample trace) (value_error "max() arg is an empty sequence")
  raise_if (any is_invalid trace) (assertion_error "A new admission exceeded its atomic limit")
  require (all is_bounded trace) (assertion_error "")
  require (eq_ℤ outstanding (pos 0)) (assertion_error "")
  require (last_drained (keep is_sample trace)) (assertion_error "")
  require (started == completed) (assertion_error "Upstream did not drain")

skipped_last :
    (l : RawLine) (lines : List RawLine) (events : List Entry) (incomplete : ℕ)
    → skip_line l (is_last lines) ≡ ok (events, incomplete)
    → (length events + incomplete ≡ suc (length lines)) × (incomplete ≤ 1)
skipped_last l [] events incomplete h = ground arith
skipped_last l (d ∷ lines) events incomplete h = cc

-- Every line is read as an event, but for one at most, which is counted as incomplete.
pub read_trace-length :
    (lines : List RawLine) (events : List Entry) (incomplete : ℕ)
    → read_trace lines ≡ ok (events, incomplete)
    → (length events + incomplete ≡ length lines) × (incomplete ≤ 1)
unfolding read_trace
read_trace-length [] events incomplete h = ground arith
read_trace-length (l ∷ lines) events incomplete h = elim (Option-cases l.parsed) [
  | inl unread ↦ skipped_last l lines events incomplete (rw unread at h)
  | inr (e, read) ↦
      let ((others, left), found, same) = >>=-ok (read_trace lines) _ (rw read at h) in
      let ih = read_trace-length lines others left found in ground arith
]
