-- ===== src/Protocol/Discover.antt =====
-- `discover` (python/ai_protocol/protocol.py): the checks on the document that the gateway returns
-- from `GET /agent-policy`.
use ai_protocol.Base.{Bool, ◌&&◌, ◌||◌, Option, some, []}
use ai_protocol.Base.Int.{pos}
use ai_protocol.Result.{value_error, http_error, Result, ok, err, ◌>>=◌, ◌>>◌, require}
use ai_protocol.Json.{
  Json, Items, elements, get, is_obj, is_arr, is_name, eq_str, int_within, int_at_least, items_of,
  value_of,
}
use ai_protocol.Http.{Jsonschema, raise_for_status, json, Answer, response, lost}
use ai_protocol.Protocol.Operation.{validate_operation, check_operations}

-- `policy.get("client_class") in ("agent", "interactive")`
abbrev pub is_client_class : Option Json → Bool
is_client_class o = eq_str o "agent" || eq_str o "interactive"

unfoldable pub discover_policy : Jsonschema → Json → Result Items
discover_policy js policy = do
  require (is_obj (some policy) && int_within (pos 3) (pos 3) (get policy "version"))
      (value_error "Unsupported protocol version; this client requires v3")
  require (is_name (get policy "principal_id")) (value_error "Invalid principal ID")
  require (is_client_class (get policy "client_class")) (value_error "Invalid client class")
  let limits = value_of (get policy "limits")
  require (is_obj (some limits) && eq_str (get limits "scope") "principal")
      (value_error "Unsupported budget scope")
  require (int_at_least (pos 1) (get limits "max_outstanding"))
      (value_error "Invalid outstanding limit")
  require (is_arr (get policy "operations")) (value_error "Invalid operation list")
  let operations = items_of (get policy "operations")
  check_operations (validate_operation js) (value_error "Duplicate operation name") []
      (elements operations)
  ok operations

-- `discover`, given what the request for the policy ended in.
unfoldable pub discover : Jsonschema → Answer → Result Items
unfolding discover_policy
discover js lost = err http_error
discover js (response r) = do raise_for_status r; policy ← json r; discover_policy js policy
