-- ===== src/Demo/Integration.antt =====
-- examples/service_integration_demo.py: the traces that it reads and the assertions that it makes.
pub mod Rows
use ai_protocol.Base.{
  ltb, ◌==◌, if◌then◌else◌, ℕ, String, Bool, not, ◌&&◌, Option, none, some, List, [], ◌∷◌, ◌++◌,
}
use ai_protocol.Base.Int.{ℤ, pos, leb_ℤ}
use ai_protocol.Base.Lists.{length, all, any, keep, first}
use ai_protocol.Result.{stop_iteration, assertion_error, Result, ok, err, ◌>>=◌, ◌>>◌, require}
use ai_protocol.Json.{Json, get, eq_str, int_within, int_of, value_of, same_entry}
use ai_protocol.Demo.Support.{Row}

-- `text.split(b'\n')`
abbrev pub split_from : List ℕ → List ℕ → List (List ℕ)
split_from part [] = part ∷ []
split_from part (c ∷ s) =
    let rest = split_from (if c == 10 then [] else part ++ c ∷ []) s in
    if c == 10 then part ∷ rest else rest

-- `xs[:-1]`
abbrev pub but_last {ℓ} : {A : Type ℓ} → List A → List A
but_last [] = []
but_last (x ∷ []) = []
but_last (x ∷ y ∷ ys) = x ∷ but_last (y ∷ ys)

-- `[json.loads(line) for line in lines]`
abbrev pub load_all : (List ℕ → Result Json) → List (List ℕ) → Result (List Json)
load_all loads [] = ok []
load_all loads (l ∷ ls) = do row ← loads l; others ← load_all loads ls; ok (row ∷ others)

-- `rows`: the file, if it exists.
unfoldable pub rows : (List ℕ → Result Json) → Option (List ℕ) → Result (List Json)
rows loads none = ok []
rows loads (some text) = load_all loads (but_last (split_from [] text))

-- `op['input_schema']['properties'].get('query', {}).get('type') == 'string'`
abbrev pub takes_query : Json → Bool
takes_query op =
    eq_str
      (get (value_of (get (value_of (get (value_of (get op "input_schema")) "properties")) "query"))
        "type")
      "string"

-- `next(op for op in ops if …)`
unfoldable pub select : List Json → Result Json
select ops = elim (first takes_query ops) [ none ↦ err stop_iteration | some op ↦ ok op ]

-- The assertions on the two policies.
abbrev pub is_version_3 : Json → Bool
is_version_3 p =
    int_within (pos 3) (pos 3) (get p "version")
    && eq_str (get (value_of (get p "limits")) "scope") "principal"

unfoldable pub check_policies : Json → Json → Result (Unit {0})
check_policies catalog support = do
  require
      (eq_str (get catalog "principal_id") "demo-owner"
        && eq_str (get support "principal_id") "demo-owner")
      (assertion_error "principal_id")
  require (is_version_3 catalog && is_version_3 support) (assertion_error "version and scope")
  require (not (same_entry (get catalog "service_id") (get support "service_id")))
      (assertion_error "service_id")

-- `row[key]`, where the rows that are looked at have it.
abbrev pub number : String → Json → ℤ
number k r = int_of (get r k)

abbrev pub is_event : String → Json → Bool
is_event n r = eq_str (get r "event") n

-- The assertions on the traces of a gateway and a dispatcher.
unfoldable pub check_traces : List Json → List Json → Result (Unit {0})
check_traces gateway dispatcher = do
  let admissions = keep (is_event "admission") gateway
  require
      (ltb 0 (length admissions)
        && all (λ r. leb_ℤ (number "outstanding" r) (number "limit" r)) admissions)
      (assertion_error "admissions")
  let attempts = keep (is_event "attempt_start") dispatcher
  require (all (λ r. leb_ℤ (number "local_active" r) (number "local_limit" r)) attempts)
      (assertion_error "attempts")

-- `all(not r['authorization_present'] for r in …)`, on the rows that the support service writes.
unfoldable pub check_upstream : List Row → Result (Unit {0})
check_upstream upstream =
    require (all (λ r. not r.authorization_present) upstream)
      (assertion_error "authorization_present")

-- `any(r['event'] == 'gate_final' and r['active'] == 0 for r in trace)`
unfoldable pub check_final : List Json → Result (Unit {0})
check_final trace =
    require
      (any (λ r. is_event "gate_final" r && int_within (pos 0) (pos 0) (get r "active")) trace)
      (assertion_error "gate_final")
