-- ===== src/Http.antt =====
-- What the code reads of the third-party libraries that it calls: `jsonschema`, a parameter, and
-- the responses of `httpx`.
use ai_protocol.Base.{leb, ℕ, String, Bool, ◌&&◌, Option, none, some, List}
use ai_protocol.Result.{value_error, http_error, validation_error, Result, ok, err, require}
use ai_protocol.Json.{Json}

-- `Draft202012Validator`: whether a document is a schema (`check_schema`), and whether an instance
-- satisfies a schema (`validate`).
pub record Jsonschema : Type 0 where
  pub check_schema : Json → Bool
  pub validates : Json → Json → Bool

-- `Draft202012Validator(schema).validate(instance)`
abbrev pub validate_instance : Jsonschema → Json → Json → Result (Unit {0})
validate_instance js schema instance' = require (js.validates schema instance') validation_error

-- A response: its status, the headers that the code reads, and the parsed body (`none` where
-- `response.json()` raises `ValueError`).
pub record Response : Type 0 where
  pub status : ℕ
  pub retry_after : Option (List ℕ)
  pub cache_control : Option String
  pub body : Option Json

-- `response.is_success`
abbrev pub is_success : Response → Bool
is_success r = leb 200 r.status && leb r.status 299

-- `response.raise_for_status()`
abbrev pub raise_for_status : Response → Result (Unit {0})
raise_for_status r = require (is_success r) http_error

-- `response.json()`
abbrev pub json : Response → Result Json
json r = elim r.body [ none ↦ err (value_error "Invalid JSON") | some v ↦ ok v ]

-- What a request ends in: a response, or a transport error (`httpx.HTTPError`).
pub data Answer : Type 0 where
  response : Response → Answer
  lost : Answer
