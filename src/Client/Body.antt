-- ===== src/Client/Body.antt =====
-- `_request` (python/ai_protocol/client.py): the body of a response, chunk by chunk, under a limit.
use ai_protocol.Base.{
  ltb, if◌then◌else◌, Bool-cases, ℕ, ◌+◌, ◌≤◌, ◌≡◌, sym, ap, ◌∙◌, ◌↔◌, inl, inr, true, false, List,
  [], ◌∷◌, ◌++◌, arith,
}
use ai_protocol.Base.Lists.{length, length-append}
use ai_protocol.Result.{protocol_error, Result, ok, err}
use mathlib.Core.List.{append-nil, append_assoc}
use mathlib.Core.Path.{subst}

-- The loop over `response.aiter_bytes()`, with the body so far.
unfoldable pub read_body : ℕ → List ℕ → List (List ℕ) → Result (List ℕ)
read_body maximum body [] = ok body
read_body maximum body (chunk ∷ chunks) =
    let rest = read_body maximum (body ++ chunk) chunks in
    if ltb maximum (length body + length chunk)
    then err (protocol_error "Response exceeds the configured size limit")
    else rest

-- All chunks in a row.
abbrev pub joined : List (List ℕ) → List ℕ
joined [] = []
joined (chunk ∷ chunks) = chunk ++ joined chunks

-- A body that is returned is the whole of what was sent, within the limit.
read_body-ok :
    (maximum : ℕ) (body : List ℕ) (chunks : List (List ℕ)) (whole : List ℕ)
    → length body ≤ maximum
    → read_body maximum body chunks ≡ ok whole
    → (whole ≡ body ++ joined chunks) × (length whole ≤ maximum)
unfolding read_body
read_body-ok maximum body [] whole fits h =
    let same : body ≡ whole = cc in
    (sym same ∙ sym (append-nil body), subst (λ (w : List ℕ). length w ≤ maximum) same fits)
read_body-ok maximum body (chunk ∷ chunks) whole fits h =
    let long = length-append body chunk in
    elim (Bool-cases (ltb maximum (length body + length chunk))) [
      | inl over ↦ absurd (refused over)
      | inr under ↦
          let fits' : length (body ++ chunk) ≤ maximum = ground arith in
          let (same, bound) =
            read_body-ok maximum (body ++ chunk) chunks whole fits' (rw under at h) in
          (same ∙ append_assoc body chunk (joined chunks), bound)
    ]
  where
    refused : ltb maximum (length body + length chunk) ≡ true → ⊥
    refused over = ground arith

-- A body within the limit is returned.
read_body-total :
    (maximum : ℕ) (body : List ℕ) (chunks : List (List ℕ))
    → length (body ++ joined chunks) ≤ maximum
    → read_body maximum body chunks ≡ ok (body ++ joined chunks)
unfolding read_body
read_body-total maximum body [] h = ap ok (sym (append-nil body))
read_body-total maximum body (chunk ∷ chunks) h =
    let long = length-append body (chunk ++ joined chunks) in
    let part = length-append chunk (joined chunks) in
    let regroup = append_assoc body chunk (joined chunks) in
    let ih =
      read_body-total maximum (body ++ chunk) chunks
        (subst (λ (w : List ℕ). length w ≤ maximum) (sym regroup) h) in
    let under : ltb maximum (length body + length chunk) ≡ false = ground arith in
    rw under (ih ∙ ap ok regroup)

-- What `_request` returns, if anything, is the whole body, chunk by chunk in order; and it returns
-- exactly if the body is within the limit.
pub read_body_iff :
    (maximum : ℕ) (chunks : List (List ℕ)) (whole : List ℕ)
    → (read_body maximum [] chunks ≡ ok whole)
      ↔ ((whole ≡ joined chunks) × (length whole ≤ maximum))
read_body_iff maximum chunks whole = (
  λ h. read_body-ok maximum [] chunks whole (omega arith) h,
  λ (same, fits).
      read_body-total maximum [] chunks (subst (λ (w : List ℕ). length w ≤ maximum) same fits)
      ∙ ap ok (sym same),
)
