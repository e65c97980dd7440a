-- ===== src/Examples/Data.antt =====
-- The documents and answers of the examples.
use ai_protocol.Base.{ℕ, Option, none, some, List}
use ai_protocol.Base.Int.{pos}
use ai_protocol.Base.Text.{codes}
use ai_protocol.Result.{Result, ok}
use ai_protocol.Json.{Json, null, int, str, arr, obj, nil, cons, end, field, is_obj}
use ai_protocol.Http.{Jsonschema, Answer, response}
use ai_protocol.Protocol.Origin.{Split}

-- A validator for schemas that only ask for a dict.
abbrev pub dicts_only : Jsonschema
dicts_only = record {
  check_schema = λ schema. is_obj (some schema);
  validates = λ schema instance'. is_obj (some instance');
}

abbrev pub echo : Json
echo = obj (
    field "name" (str "echo") (
      field "description" (str "Echoes") (
        field "method" (str "POST")
          (field "path" (str "/echo") (field "input_schema" (obj end) end)))))

abbrev pub no_params : Json
no_params = obj end

abbrev pub policy_with : ℕ → ℕ → Json
policy_with revision limit = obj (
    field "version" (int (pos 3)) (
      field "principal_id" (str "p") (
        field "client_class" (str "agent") (
          field "limits"
            (obj (field "scope" (str "principal") (field "max_outstanding" (int (pos limit)) end)))
            (field "policy_revision" (int (pos revision)) (
              field "refresh_after_ms" (int (pos 1000)) (
                field "outstanding" (int (pos 0))
                  (field "operations" (arr (cons echo nil)) end))))))))

abbrev pub with_body : ℕ → Json → Answer
with_body status body =
    response
      (record { status = status; retry_after = none; cache_control = none; body = some body })

abbrev pub too_many : Answer
too_many = with_body 429 null

abbrev pub done : Answer
done = with_body 200 (int (pos 7))

abbrev pub origin_of : List ℕ → Split
origin_of text = record {
  scheme = "http";
  hostname = some "host";
  username = none;
  password = none;
  path = "";
  query = "";
  fragment = "";
}

abbrev pub plain_text : Json → Option (List ℕ)
plain_text v = some (codes "{}")

-- `json.dumps`, encoded, and a validation that passes.
abbrev pub plain_bytes : Json → Result (List ℕ)
plain_bytes v = ok (codes "{}")

abbrev pub any_instance : Json → Json → Result (Unit {0})
any_instance schema instance' = ok tt
