-- ===== src/Protocol/Operation/Descriptor.antt =====
-- What a validated operation descriptor, and a validated list of them, promises.
use ai_protocol.Base.{
  String, ◌≡◌, refl, ◌↔◌, true, false, Option, none, some, List, [], ◌∷◌, arith, eq_iff,
}
use ai_protocol.Base.Text.{codes}
use ai_protocol.Base.Lists.{All}
use ai_protocol.Result.{Exception, Result, ok}
use ai_protocol.Json.{
  Json, null, bool, int, float, str, arr, obj, get, is_obj, is_str, is_name, eq_str, str_of,
  value_of,
}
use ai_protocol.Regex.{path_pattern}
use ai_protocol.Regex.Language.{Matches, fullmatch_iff}
use ai_protocol.Http.{Jsonschema}
use ai_protocol.Protocol.Operation.{
  check_references, is_path, validate_operation, name_of, member, check_operations,
}
use ai_protocol.Protocol.Operation.References.{HasLocalReferences, check_references_iff}

-- A descriptor, by its entries. The path is read as a word of the language of `path_pattern`.
pub record IsOperation (js : Jsonschema) (operation : Json) : Type 0 where
  pub is_dict : is_obj (some operation) ≡ true
  pub named : is_name (get operation "name") ≡ true
  pub described : is_str (get operation "description") ≡ true
  pub posts : get operation "method" ≡ some (str "POST")
  pub path : is_str (get operation "path") ≡ true
  pub path_matches : Matches path_pattern (codes (str_of (get operation "path")))
  pub has_schema : is_obj (get operation "input_schema") ≡ true
  pub references : HasLocalReferences (value_of (get operation "input_schema"))
  pub schema : js.check_schema (value_of (get operation "input_schema")) ≡ true

-- The tests of `validate_operation` in a row.
abbrev Checks : Jsonschema → Json → Type 0
Checks js operation =
    (is_obj (some operation) ≡ true)
    × (is_name (get operation "name") ≡ true)
    × (is_str (get operation "description") ≡ true)
    × (eq_str (get operation "method") "POST" ≡ true)
    × (is_path (get operation "path") ≡ true)
    × (is_obj (get operation "input_schema") ≡ true)
    × (check_references (value_of (get operation "input_schema")) ≡ ok tt)
    × (js.check_schema (value_of (get operation "input_schema")) ≡ true)

validate_operation-Checks :
    (js : Jsonschema) (operation : Json)
    → validate_operation js operation ≡ ok tt
    → Checks js operation
unfolding validate_operation
validate_operation-Checks js operation h = ground arith

Checks-validate_operation :
    (js : Jsonschema) (operation : Json)
    → Checks js operation
    → validate_operation js operation ≡ ok tt
unfolding validate_operation
Checks-validate_operation js operation h = ground arith

pub eq_str_iff : (o : Option Json) (s : String) → (eq_str o s ≡ true) ↔ (o ≡ some (str s))
eq_str_iff none s = (λ h. cc, λ h. cc)
eq_str_iff (some (str t)) s = (λ h. ground (arith, eq_iff t s), λ h. ground (arith, eq_iff t s))
eq_str_iff (some null) s = (λ h. cc, λ h. cc)
eq_str_iff (some (bool b)) s = (λ h. cc, λ h. cc)
eq_str_iff (some (int n)) s = (λ h. cc, λ h. cc)
eq_str_iff (some (float x)) s = (λ h. cc, λ h. cc)
eq_str_iff (some (arr vs)) s = (λ h. cc, λ h. cc)
eq_str_iff (some (obj fs)) s = (λ h. cc, λ h. cc)

is_path_iff :
    (o : Option Json)
    → (is_path o ≡ true) ↔ ((is_str o ≡ true) × Matches path_pattern (codes (str_of o)))
is_path_iff none = (λ h. cc, λ h. cc)
is_path_iff (some (str t)) =
    let decides = fullmatch_iff path_pattern (codes t) in
    (λ h. (refl, decides.0 h), λ h. decides.1 h.1)
is_path_iff (some null) = (λ h. cc, λ h. cc)
is_path_iff (some (bool b)) = (λ h. cc, λ h. cc)
is_path_iff (some (int n)) = (λ h. cc, λ h. cc)
is_path_iff (some (float x)) = (λ h. cc, λ h. cc)
is_path_iff (some (arr vs)) = (λ h. cc, λ h. cc)
is_path_iff (some (obj fs)) = (λ h. cc, λ h. cc)

-- `validate_operation` accepts exactly the descriptors that `IsOperation` describes.
pub validate_operation_iff :
    (js : Jsonschema) (operation : Json)
    → (validate_operation js operation ≡ ok tt) ↔ IsOperation js operation
validate_operation_iff js operation = (accepted, accepts)
  where
    method :
        (eq_str (get operation "method") "POST" ≡ true)
        ↔ (get operation "method" ≡ some (str "POST"))
    method = eq_str_iff (get operation "method") "POST"

    path' : (is_path (get operation "path") ≡ true) ↔ (
        (is_str (get operation "path") ≡ true)
        × Matches path_pattern (codes (str_of (get operation "path"))))
    path' = is_path_iff (get operation "path")

    references' :
        (check_references (value_of (get operation "input_schema")) ≡ ok tt)
        ↔ HasLocalReferences (value_of (get operation "input_schema"))
    references' = check_references_iff (value_of (get operation "input_schema"))

    accepted : validate_operation js operation ≡ ok tt → IsOperation js operation
    accepted h =
        let (dict, name, description, post, at, has, local, schema) =
          validate_operation-Checks js operation h in
        record {
          is_dict = dict;
          named = name;
          described = description;
          posts = method.0 post;
          path = (path'.0 at).0;
          path_matches = (path'.0 at).1;
          has_schema = has;
          references = references'.0 local;
          schema = schema;
        }

    accepts : IsOperation js operation → validate_operation js operation ≡ ok tt
    accepts v = Checks-validate_operation js operation (
      v.is_dict,
      v.named,
      v.described,
      method.1 v.posts,
      path'.1 (v.path, v.path_matches),
      v.has_schema,
      references'.1 v.references,
      v.schema,
    )

-- The names that a list of operations adds to those seen before are new, and differ.
abbrev pub AreFresh : List String → List Json → Type 0
AreFresh names [] = Unit
AreFresh names (operation ∷ rest) =
    (member (name_of operation) names ≡ false) × AreFresh (name_of operation ∷ names) rest

-- The loop passes exactly when every operation passes its check and no name comes twice.
pub check_operations_iff :
    (check : Json → Result (Unit {0})) (duplicate : Exception) (names : List String)
    (operations : List Json)
    → (check_operations check duplicate names operations ≡ ok tt)
      ↔ (All (λ operation. check operation ≡ ok tt) operations × AreFresh names operations)
unfolding check_operations
check_operations_iff check duplicate names [] = (λ h. (tt, tt), λ h. refl)
check_operations_iff check duplicate names (operation ∷ rest) =
    let ih = check_operations_iff check duplicate (name_of operation ∷ names) rest in
    (λ h. ground (arith, ih), λ h. ground (arith, ih))
