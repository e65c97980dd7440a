-- ===== src/Result.antt =====
-- Exceptions as values: what the Python code raises, and a computation that may raise.
use ai_protocol.Base.{String, ◌≡◌, refl, ◌⊎◌, inl, inr, Bool, true, false}
use ai_protocol.Json.{Json}

-- The attributes of `OperationError` (python/ai_protocol/client.py): a text, one of the three words
-- for what is known of the execution, a status and a number of attempts, or `None`.
pub record Failure : Type 0 where
  pub code : String
  pub execution : String
  pub status : Json
  pub attempts : Json

-- The exceptions that the code raises or handles. `protocol_error` is a `ValueError`, and
-- `deadline_exceeded` an `OperationError`; `cancelled` is the cancellation by which
-- `asyncio.timeout` interrupts its block; `system_exit` carries the argument of `sys.exit`, and
-- `no_value` is the `queue.Empty` of a `get` that ran out of time; `other_error` is an exception of
-- another class, by its name, which the code handles nowhere.
pub data Exception : Type 0 where
  value_error : String → Exception
  protocol_error : String → Exception
  operation_error : Failure → Exception
  deadline_exceeded : Failure → Exception
  timeout_error : String → Exception
  http_error : Exception
  schema_error : Exception
  validation_error : Exception
  type_error : Exception
  key_error : Exception
  os_error : Exception
  stop_iteration : Exception
  cancelled : Exception
  assertion_error : String → Exception
  runtime_error : String → Exception
  system_exit : Json → Exception
  no_value : Exception
  other_error : String → Exception

pub data Result {ℓ} (A : Type ℓ) : Type ℓ where
  ok : A → Result A
  err : Exception → Result A

abbrev pub is_ok {ℓ} : {A : Type ℓ} → Result A → Bool
is_ok (ok a) = true
is_ok (err e) = false

infixl 5 ◌>>=◌ ◌>>◌
-- What follows is done with the value, and not at all after a raise.
abbrev pub ◌>>=◌ {ℓ κ} : {A : Type ℓ} {C : Type κ} (m : Result A) → (A → Result C) → Result C
err raised >>= rest = err raised
ok value >>= rest = rest value

abbrev pub ◌>>◌ {ℓ} : {B : Type ℓ} → Result (Unit {0}) → Result B → Result B
m >> k = m >>= λ _. k

-- `if test: raise e`
abbrev pub raise_if : Bool → Exception → Result (Unit {0})
raise_if true e = err e
raise_if false e = ok tt

-- `if not test: raise e`, and `assert test`
abbrev pub require : Bool → Exception → Result (Unit {0})
require true e = ok tt
require false e = err e

abbrev pub IsOk {ℓ} : {A : Type ℓ} → Result A → Type 0
IsOk r = is_ok r ≡ true

pub Result-cases {ℓ} :
    {A : Type ℓ} (r : Result A) → ((a : A) × (r ≡ ok a)) ⊎ ((e : Exception) × (r ≡ err e))
Result-cases (ok a) = inl (a, refl)
Result-cases (err e) = inr (e, refl)

-- Inversion of a guard that let the code go on.
pub require-ok : (b : Bool) (e : Exception) → require b e ≡ ok tt → b ≡ true
require-ok true e h = refl
require-ok false e h = cc

pub raise_if-ok : (b : Bool) (e : Exception) → raise_if b e ≡ ok tt → b ≡ false
raise_if-ok false e h = refl
raise_if-ok true e h = cc

pub >>=-ok :
    {X Y : Type 0} {y : Y} (start : Result X) (rest : X → Result Y)
    → (start >>= rest) ≡ ok y
    → (x : X) × (start ≡ ok x) × (rest x ≡ ok y)
>>=-ok (err raised) rest returned = cc
>>=-ok (ok x) rest returned = (x, refl, returned)
