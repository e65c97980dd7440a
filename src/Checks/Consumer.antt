-- ===== src/Checks/Consumer.antt =====
-- scripts/check_rust_library.py: the manifest of the separate application, its start and the answers
-- that it is expected to give. `json.dumps` and what the application prints are arguments.
use ai_protocol.Base.{
  str_eq, if◌then◌else◌, Bool, false, not, ◌&&◌, Option, none, some, List, [], ◌∷◌, ◌++◌, map,
}
use ai_protocol.Base.Int.{pos}
use ai_protocol.Base.Lists.{length, drop}
use ai_protocol.Base.Text.{codes, strip, starts_with}
use ai_protocol.Result.{assertion_error, runtime_error, Result, ok, err, ◌>>=◌, ◌>>◌, require}
use ai_protocol.Json.{Json, str, arr, obj, nil, cons, end, field, get, eq_str, int_within, items_of}
use ai_protocol.Release.Name.{Text, item}

-- An entry of `[dependencies]`: a version, or a table.
pub data Spec : Type 0 where
  version : Text → Spec
  table : List (Text × Json) → Spec

-- `separator.join(parts)`
abbrev pub join : Text → List Text → Text
join separator [] = []
join separator (p ∷ []) = p
join separator (p ∷ q ∷ ps) = p ++ (separator ++ join separator (q ∷ ps))

module _ (dumps_text : Text → Text) (dumps : Json → Text) where
  abbrev pub entry_line : Text × Json → Text
  entry_line (key, value) = key ++ (codes " = " ++ dumps value)

  -- `value`
  abbrev pub spec_text : Spec → Text
  spec_text (version v) = dumps_text v
  spec_text (table entries) =
      codes "{ " ++ (join (codes ", ") (map entry_line entries) ++ codes " }")

  -- `for name in (…)`: `dependencies[name]`
  unfoldable pub dependency_lines : List (Text × Spec) → List Text → Result (List Text)
  dependency_lines dependencies [] = ok []
  dependency_lines dependencies (n ∷ ns) = do
    spec ← item n dependencies
    others ← dependency_lines dependencies ns
    ok ((n ++ (codes " = " ++ spec_text spec)) ∷ others)

  abbrev pub used : List Text
  used = codes "axum" ∷ codes "serde" ∷ codes "serde_json" ∷ codes "tokio" ∷ []

  -- `manifest`
  unfoldable pub manifest : Text → List (Text × Spec) → Result (List Text)
  manifest crate_root dependencies = do
    lines ← dependency_lines dependencies used
    ok (
        codes "[package]"
        ∷ codes "name = \"ai-protocol-library-consumer\""
        ∷ codes "version = \"0.0.0\""
        ∷ codes "edition = \"2024\""
        ∷ codes "[dependencies]"
        ∷ (codes "ai-protocol = { path = " ++ (dumps_text crate_root ++ codes " }"))
        ∷ lines)

abbrev pub prefix : Text
prefix = codes "Native document service listening on "

-- From the first line that the application prints, `none` where 30 seconds pass before one comes.
unfoldable pub origin_of : Option Text → Result Text
origin_of none = err (runtime_error "The external Rust application did not become ready")
origin_of (some line) =
    let stripped = strip line in
    if not (starts_with stripped prefix)
    then err (runtime_error "The external Rust application failed during startup")
    else ok (codes "http://" ++ drop (length prefix) stripped)

-- `policy["operations"][0]["name"]`
abbrev pub first_name : Json → Option Json
first_name policy = elim (items_of (get policy "operations")) [
  | nil ↦ none
  | cons op ops ↦ get op "name"
]

-- `== {"documents": ["Rust introduction"]}`
abbrev pub is_found : Json → Bool
is_found (obj (field k (arr (cons (str s) nil)) end)) =
    str_eq k "documents" && str_eq s "Rust introduction"
is_found v = false

-- The assertions on the answers to `/agent-policy`, to the search, and to `/agent-policy` again.
unfoldable pub check_answers : Json → Json → Json → Result (Unit {0})
check_answers policy found policy_after = do
  require (eq_str (get policy "service_id") "documents") (assertion_error "service_id")
  require (int_within (pos 3) (pos 3) (get policy "version")) (assertion_error "version")
  require (eq_str (first_name policy) "find_documents") (assertion_error "name")
  require (is_found found) (assertion_error "documents")
  require (int_within (pos 0) (pos 0) (get policy_after "outstanding"))
      (assertion_error "outstanding")
