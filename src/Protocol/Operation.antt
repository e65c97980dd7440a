-- ===== src/Protocol/Operation.antt =====
-- `validate_operation` (python/ai_protocol/protocol.py): the checks on a discovered operation.
pub mod References
pub mod Descriptor
use ai_protocol.Base.{str_eq, String, Bool, false, not, ◌&&◌, ◌||◌, Option, some, List, [], ◌∷◌}
use ai_protocol.Base.Text.{codes, starts_with}
use ai_protocol.Base.Lists.{any}
use ai_protocol.Result.{Exception, value_error, schema_error, Result, ok, ◌>>◌, raise_if, require}
use ai_protocol.Json.{
  Json, null, bool, int, float, str, arr, obj, Items, nil, cons, Fields, end, field, get, is_obj,
  is_str, is_name, eq_str, str_of, value_of,
}
use ai_protocol.Regex.{fullmatch, path_pattern}
use ai_protocol.Http.{Jsonschema}

-- `key in ("$ref", "$dynamicRef")`
abbrev pub is_reference_key : String → Bool
is_reference_key k = str_eq k "$ref" || str_eq k "$dynamicRef"

-- `isinstance(item, str) and item.startswith("#")`
abbrev pub is_local : Json → Bool
is_local (str s) = starts_with (codes s) (codes "#")
is_local v = false

-- The recursion over the dicts and lists of a schema.
unfoldable mutual
  pub check_references : Json → Result (Unit {0})
  check_references (obj fs) = check_fields fs
  check_references (arr vs) = check_items vs
  check_references null = ok tt
  check_references (bool b) = ok tt
  check_references (int n) = ok tt
  check_references (float x) = ok tt
  check_references (str s) = ok tt

  pub check_fields : Fields → Result (Unit {0})
  check_fields end = ok tt
  check_fields (field k v fs) =
      raise_if (is_reference_key k && not (is_local v))
        (value_error "External schema references are not supported")
      >> check_references v
      >> check_fields fs

  pub check_items : Items → Result (Unit {0})
  check_items nil = ok tt
  check_items (cons v vs) = check_references v >> check_items vs

-- `isinstance(path, str) and re.fullmatch(…, path)`
abbrev pub is_path : Option Json → Bool
is_path (some (str s)) = fullmatch path_pattern (codes s)
is_path o = false

unfoldable pub validate_operation : Jsonschema → Json → Result (Unit {0})
validate_operation js operation = do
  require (is_obj (some operation)) (value_error "Invalid operation descriptor")
  require (is_name (get operation "name")) (value_error "Invalid operation name")
  require (is_str (get operation "description")) (value_error "Invalid operation description")
  require (eq_str (get operation "method") "POST")
      (value_error "This client currently supports only POST")
  require (is_path (get operation "path")) (value_error "Unsupported operation path")
  require (is_obj (get operation "input_schema")) (value_error "Invalid operation schema")
  check_references (value_of (get operation "input_schema"))
  require (js.check_schema (value_of (get operation "input_schema"))) schema_error

-- `operation["name"]`
abbrev pub name_of : Json → String
name_of operation = str_of (get operation "name")

-- `name in names`
abbrev pub member : String → List String → Bool
member s names = any (str_eq s) names

-- The loop `for operation in operations` over the names seen so far, given the check of one
-- operation and the exception for a repeated name.
unfoldable pub check_operations :
    (Json → Result (Unit {0})) → Exception → List String → List Json → Result (Unit {0})
check_operations check duplicate names [] = ok tt
check_operations check duplicate names (operation ∷ rest) =
    check operation
    >> raise_if (member (name_of operation) names) duplicate
    >> check_operations check duplicate (name_of operation ∷ names) rest
