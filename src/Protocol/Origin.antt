-- ===== src/Protocol/Origin.antt =====
-- `validate_origin` and the checks of `service_client` (python/ai_protocol/protocol.py). What
-- `urllib.parse.urlsplit` finds in the text is an argument.
use ai_protocol.Base.{
  ◌==◌, str_eq, if◌then◌else◌, ℕ, String, Bool, true, false, not, ◌||◌, Option, none, some, List,
}
use ai_protocol.Base.Text.{codes, rstrip}
use ai_protocol.Result.{value_error, Result, ok, err, ◌>>◌, raise_if, require}
use ai_protocol.Regex.{fullmatch, token_pattern}

-- The components of a URL, as `urlsplit` gives them.
pub record Split : Type 0 where
  pub scheme : String
  pub hostname : Option String
  pub username : Option String
  pub password : Option String
  pub path : String
  pub query : String
  pub fragment : String

abbrev pub is_slash : ℕ → Bool
is_slash c = c == b'/'

abbrev pub is_none : Option String → Bool
is_none none = true
is_none (some s) = false

-- `bool(host)`
abbrev pub is_given : Option String → Bool
is_given none = false
is_given (some s) = not (str_eq s "")

unfoldable pub validate_origin : (List ℕ → Split) → List ℕ → Result (List ℕ)
validate_origin urlsplit origin = do
  let url = urlsplit origin
  raise_if
      (not (str_eq url.scheme "http" || str_eq url.scheme "https")
        || not (is_given url.hostname)
        || not (is_none url.username)
        || not (is_none url.password)
        || not (str_eq url.path "" || str_eq url.path "/")
        || not (str_eq url.query "")
        || not (str_eq url.fragment ""))
      (value_error "Service URL must be an HTTP(S) origin without credentials or a path")
  ok (rstrip is_slash origin)

-- `token or os.environ.get("AGENT_TOKEN_1")`, the first of the two that is not empty, and the two
-- tests on it; the result is the bearer credential that the client sends.
abbrev pub or_else : Option String → Option String → Option String
or_else none other = other
or_else (some s) other = if str_eq s "" then other else some s

unfoldable pub service_client : Option String → Option String → Result String
service_client token environment_token = elim (or_else token environment_token) [
  | none ↦ err (value_error "Set AGENT_TOKEN_1 before running the client")
  | some t ↦ do
    raise_if (str_eq t "") (value_error "Set AGENT_TOKEN_1 before running the client")
    require (fullmatch token_pattern (codes t))
        (value_error "AGENT_TOKEN_1 is not a valid bearer token")
    ok t
]
