-- ===== src/Client/Policy.antt =====
-- `validate_policy` (python/ai_protocol/client.py): the adaptive v3 contract, and the continuity of
-- one gateway's identity from one policy to the next.
use ai_protocol.Base.{Bool, true, not, ◌&&◌, ◌||◌, Option, none, some, List, []}
use ai_protocol.Base.Int.{ℤ, pos, leb_ℤ, eq_ℤ}
use ai_protocol.Result.{value_error, protocol_error, schema_error, Result, ok, err, ◌>>◌, require}
use ai_protocol.Json.{
  Json, obj, end, elements, get, is_obj, is_arr, is_name, eq_str, int_within, int_at_least, int_of,
  items_of, same_entry,
}
use ai_protocol.Http.{Jsonschema}
use ai_protocol.Protocol.Operation.{validate_operation, check_operations}
use ai_protocol.Protocol.Discover.{is_client_class}

-- `policy.get("limits", {})`
abbrev pub limits_of : Json → Json
limits_of policy = elim (get policy "limits") [ some v ↦ v | none ↦ obj end ]

abbrev pub max_outstanding_of : Json → ℤ
max_outstanding_of policy = int_of (get (limits_of policy) "max_outstanding")

abbrev pub revision_of : Json → ℤ
revision_of policy = int_of (get policy "policy_revision")

abbrev pub operations_of : Json → List Json
operations_of policy = elements (items_of (get policy "operations"))

-- `"service_id" not in policy`, or its value is a text that is not empty.
abbrev pub is_service_id : Option Json → Bool
is_service_id none = true
is_service_id (some v) = is_name (some v)

-- The tests on the entries of the policy.
unfoldable pub has_contract : Json → Bool
has_contract policy =
    int_within (pos 3) (pos 3) (get policy "version")
    && is_name (get policy "principal_id")
    && is_client_class (get policy "client_class")
    && is_obj (some (limits_of policy))
    && eq_str (get (limits_of policy) "scope") "principal"
    && int_within (pos 1) (pos 1000) (get (limits_of policy) "max_outstanding")
    && int_at_least (pos 1) (get policy "policy_revision")
    && int_within (pos 100) (pos 60000) (get policy "refresh_after_ms")
    && int_at_least (pos 0) (get policy "outstanding")
    && is_arr (get policy "operations")
    && is_service_id (get policy "service_id")

-- `except (ValueError, jsonschema.SchemaError): raise ProtocolError(…)`
abbrev pub as_protocol_error : Result (Unit {0}) → Result (Unit {0})
as_protocol_error (ok x) = ok x
as_protocol_error (err (value_error m)) = err (protocol_error "Invalid operation descriptor")
as_protocol_error (err (protocol_error m)) = err (protocol_error "Invalid operation descriptor")
as_protocol_error (err schema_error) = err (protocol_error "Invalid operation descriptor")
as_protocol_error (err e) = err e

abbrev pub check_operation : Jsonschema → Json → Result (Unit {0})
check_operation js operation = as_protocol_error (validate_operation js operation)

-- What may change from the policy before.
abbrev pub continues : Json → Json → Bool
continues previous policy =
    same_entry (get policy "principal_id") (get previous "principal_id")
    && same_entry (get policy "client_class") (get previous "client_class")
    && same_entry (get policy "service_id") (get previous "service_id")
    && leb_ℤ (revision_of previous) (revision_of policy)
    && (not (eq_ℤ (revision_of policy) (revision_of previous))
        || eq_ℤ (max_outstanding_of policy) (max_outstanding_of previous))

-- `previous and (…)`: a policy that was validated is not empty.
unfoldable pub continues_from : Option Json → Json → Bool
continues_from none policy = true
continues_from (some previous) policy = continues previous policy

unfoldable pub validate_policy : Jsonschema → Json → Option Json → Result Json
unfolding has_contract continues_from
validate_policy js policy previous = do
  require (is_obj (some policy)) (protocol_error "Invalid policy object")
  require (has_contract policy) (protocol_error "Invalid or unsupported adaptive policy")
  check_operations (check_operation js) (protocol_error "Duplicate operation name") []
      (operations_of policy)
  require (continues_from previous policy)
      (protocol_error "Policy identity or revision changed inconsistently")
  ok policy
