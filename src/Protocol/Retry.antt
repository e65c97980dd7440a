-- ===== src/Protocol/Retry.antt =====
-- `safe_to_retry` and the reading of `Retry-After` (python/ai_protocol/protocol.py, and the same
-- lines in python/ai_protocol/client.py).
use ai_protocol.Base.{
  ltb, ◌==◌, if◌then◌else◌, ℕ, ◌+◌, ◌-◌, ◌*◌, String, Bool, true, false, not, ◌&&◌, Option, none,
  some, List, [], ◌∷◌,
}
use ai_protocol.Base.Text.{codes, strip, is_digit}
use ai_protocol.Base.Lists.{length, all}
use ai_protocol.Result.{value_error, Result, ok, ◌>>◌, raise_if}
use ai_protocol.Json.{Json, get, eq_str, value_of}
use ai_protocol.Http.{Response}

-- `body.get("error") if isinstance(body, dict) else None`, tested for one code and `not_started`.
abbrev pub refused_with : String → Option Json → Bool
refused_with code body =
    let error = value_of (get (value_of body) "error") in
    eq_str (get error "code") code && eq_str (get error "execution") "not_started"

unfoldable pub safe_to_retry : Response → Bool
safe_to_retry r =
    if r.status == 429
    then true
    else if not (r.status == 503)
    then false
    else refused_with "queue_timeout" r.body

-- `int(raw)` of decimal digits.
abbrev pub decimal : ℕ → List ℕ → ℕ
decimal n [] = n
decimal n (c ∷ s) = decimal (n * 10 + (c - 48)) s

-- `raw.isascii() and raw.isdigit()`
abbrev pub is_decimal : List ℕ → Bool
is_decimal [] = false
is_decimal (c ∷ s) = is_digit c && all is_digit s

-- `sys.get_int_max_str_digits()`: `int` refuses a longer text.
abbrev pub max_str_digits : ℕ
max_str_digits = 4300

-- `seconds = int(raw) if raw.isascii() and raw.isdigit() else 1`
unfoldable pub retry_delay : Response → Result ℕ
retry_delay r =
    let raw = strip (elim r.retry_after [ none ↦ codes "1" | some h ↦ h ]) in
    if is_decimal raw
    then (do
      raise_if (ltb max_str_digits (length raw)) (value_error "Exceeds the limit for conversion")
      ok (decimal 0 raw))
    else ok 1
