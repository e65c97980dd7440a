-- ===== src/Demo/Agent/Choice.antt =====
-- From the operations to the one that the model selected: the first parts of `main` of
-- examples/llm_client.py.
use ai_protocol.Base.{
  str_eq, if◌then◌else◌, String, Bool, true, false, none, some, List, [], ◌∷◌, map,
}
use ai_protocol.Base.Int.{pos}
use ai_protocol.Base.Lists.{first}
use ai_protocol.Result.{system_exit, Result, ok, err, ◌>>=◌, ◌>>◌, raise_if}
use ai_protocol.Json.{Json, int, str, obj, Fields, end, field, get, eq_str, value_of}

-- `schema.pop(key, None)`
abbrev pub without : String → Fields → Fields
without k end = end
without k (field j v fs) = let rest = without k fs in if str_eq j k then rest else field j v rest

abbrev pub tool_schema : Json → Json
tool_schema (obj fs) = obj (without "$schema" fs)
tool_schema v = v

-- What the model is told of an operation.
pub record Tool : Type 0 where
  pub name : Json
  pub description : Json
  pub parameters : Json

unfoldable pub tool_of : Json → Tool
tool_of item = record {
  name = value_of (get item "name");
  description = value_of (get item "description");
  parameters = tool_schema (value_of (get item "input_schema"));
}

-- An item of the model's output: a call with a name and arguments, or something else.
pub data Output : Type 0 where
  function_call : String → String → Output
  other_output : Output

-- `[item for item in decision.output if item.type == "function_call"]`
unfoldable pub calls_of : List Output → List (String × String)
calls_of [] = []
calls_of (function_call n arguments ∷ outputs) = (n, arguments) ∷ calls_of outputs
calls_of (other_output ∷ outputs) = calls_of outputs

abbrev pub single_call : List (String × String) → Result (String × String)
single_call [] = err (system_exit (int (pos 0)))
single_call (call ∷ []) = ok call
single_call (call ∷ next ∷ calls) = err (system_exit (str "Expected a single operation call"))

abbrev pub has_name : String → Json → Bool
has_name n item = eq_str (get item "name") n

-- `next((item for item in operations if item["name"] == call.name), None)`, and its test.
unfoldable pub published : List Json → String → Result Json
published operations n = elim (first (has_name n) operations) [
  | none ↦ err (system_exit (str "The model selected an unknown operation"))
  | some operation ↦ ok operation
]

-- `if not operations`
abbrev pub is_empty : List Json → Bool
is_empty [] = true
is_empty (v ∷ vs) = false

-- What is to be executed, from the operations, the model and the parser of its arguments.
unfoldable pub choose :
    (List Tool → Result (List Output)) → (String → Result Json) → List Json → Result (Json × Json)
choose decide loads operations = do
  raise_if (is_empty operations) (system_exit (str "No operations are permitted for this token"))
  output ← decide (map tool_of operations)
  call ← single_call (calls_of output)
  operation ← published operations call.0
  params ← loads call.1
  ok (operation, params)
