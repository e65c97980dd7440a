-- ===== src/Conformance.antt =====
-- python/ai_protocol/conformance.py: the checks on a running service.
use mathlib.Core.Bool.{xor}
use ai_protocol.Base.{
  ◌==◌, str_eq, if◌then◌else◌, Option-cases, ℕ, String, ◌≡◌, refl, inl, inr, Bool, true, false, not,
  ◌&&◌, Option, none, some, List, arith,
}
use ai_protocol.Base.Int.{pos}
use ai_protocol.Base.Lists.{length, first}
use ai_protocol.Result.{
  Exception, value_error, http_error, validation_error, Result, ok, err, is_ok, ◌>>=◌, ◌>>◌,
  require, Result-cases,
}
use ai_protocol.Json.{Json, int, str, obj, end, field, get, eq_str, str_of, value_of}
use ai_protocol.Regex.{fullmatch, token_pattern}
use ai_protocol.Http.{
  Jsonschema, validate_instance, Response, is_success, raise_for_status, json, Answer, response,
  lost,
}
use ai_protocol.Protocol.Origin.{Split, validate_origin}
use ai_protocol.Protocol.Operation.{name_of}
use ai_protocol.Protocol.Operation.Descriptor.{eq_str_iff}
use ai_protocol.Client.Policy.{operations_of, validate_policy}
use ai_protocol.Client.Revision.{IsPolicy, validate_policy-IsPolicy}

-- The schemas of the project, looked up by name, under `jsonschema`.
pub data Contract : Type 0 where
  operation policy error manifest : Contract

-- `validate_contract`; the first argument says whether a document satisfies a schema.
unfoldable pub validate_contract :
    Jsonschema → (Contract → Json → Bool) → Contract → Json → Result (Unit {0})
validate_contract js satisfies policy document = do
  require (satisfies policy document) validation_error
  accepted ← validate_policy js document none
  ok tt
validate_contract js satisfies name document = require (satisfies name document) validation_error

-- The three requests that are made, and what each ends in.
pub record Service : Type 0 where
  pub unauthenticated : Answer
  pub discovery : Answer
  -- The answer to a post to a path.
  pub posted : String → Answer

abbrev pub heard : Answer → Result Response
heard lost = err http_error
heard (response r) = ok r

abbrev pub is_no_store : Response → Bool
is_no_store r = elim r.cache_control [ none ↦ false | some s ↦ str_eq s "no-store" ]

-- What `check_service` returns: the service, the version and the number of operations.
abbrev pub report : Json → Json
report document = obj (
    field "service_id" (value_of (get document "service_id")) (
      field "version" (value_of (get document "version"))
        (field "operations" (int (pos (length (operations_of document)))) end)))

module _ (js : Jsonschema) (satisfies : Contract → Json → Bool) where
  -- The request without a token must be refused.
  unfoldable pub check_unauthenticated : Answer → Result (Unit {0})
  check_unauthenticated lost = err http_error
  check_unauthenticated (response r) = do
    require (r.status == 401)
        (value_error "Discovery must reject unauthenticated requests with 401")
    body ← json r
    validate_contract js satisfies error body
    require (eq_str (get (value_of (get body "error")) "execution") "not_started")
        (value_error "Authentication failure cannot start an operation")

  unfoldable pub check_discovery : Answer → Result Json
  check_discovery lost = err http_error
  check_discovery (response r) = do
    raise_for_status r
    require (is_no_store r) (value_error "Discovery must be uncacheable")
    document ← json r
    validate_contract js satisfies policy document
    ok document

  -- The opted-in call of one operation.
  unfoldable pub check_call : (String → Answer) → Json → Option (String × Json) → Result (Unit {0})
  check_call posted document none = ok tt
  check_call posted document (some (name, params)) =
      elim (first (λ op. str_eq (name_of op) name) (operations_of document)) [
        | none ↦ err (value_error "Requested operation is absent from discovery")
        | some descriptor ↦ do
          validate_instance js (value_of (get descriptor "input_schema")) params
          r ← heard (posted (str_of (get descriptor "path")))
          raise_for_status r
          body ← json r
          ok tt
      ]

  unfoldable pub check_service :
      (List ℕ → Split) → List ℕ → List ℕ → Service → Option (String × Json) → Result Json
  check_service urlsplit origin token service call = do
    base ← validate_origin urlsplit origin
    require (fullmatch token_pattern token) (value_error "Invalid bearer credential")
    check_unauthenticated service.unauthenticated
    document ← check_discovery service.discovery
    check_call service.posted document call
    ok (report document)

  validate_contract-policy :
      (document : Json)
      → validate_contract js satisfies policy document ≡ ok tt
      → (satisfies policy document ≡ true) × IsPolicy js document
  unfolding validate_contract
  validate_contract-policy document h = elim (Result-cases (validate_policy js document none)) [
    | inl (accepted, e) ↦ (ground arith, (validate_policy-IsPolicy js document none accepted e).1)
    | inr (e, q) ↦ let raised : ⊥ = ground arith in absurd raised
  ]

  -- What each request must have ended in.
  abbrev pub Refuses : Answer → Type 0
  Refuses lost = ⊥
  Refuses (response r) =
      (r.status ≡ 401)
      × ((body : Json) × (r.body ≡ some body)
          × (satisfies error body ≡ true)
          × (get (value_of (get body "error")) "execution" ≡ some (str "not_started")))

  abbrev pub Publishes : Answer → Json → Type 0
  Publishes lost document = ⊥
  Publishes (response r) document =
      (is_success r ≡ true)
      × (is_no_store r ≡ true)
      × (r.body ≡ some document)
      × (satisfies policy document ≡ true)
      × IsPolicy js document

  check_unauthenticated-Refuses : (a : Answer) → check_unauthenticated a ≡ ok tt → Refuses a
  unfolding check_unauthenticated validate_contract
  check_unauthenticated-Refuses lost h = cc
  check_unauthenticated-Refuses (response r) h = elim (Option-cases r.body) [
    | inl absent ↦ let raised : ⊥ = ground arith in absurd raised
    | inr (body, e) ↦ (
      ground arith,
      (
        body,
        e,
        ground arith,
        (eq_str_iff (get (value_of (get body "error")) "execution") "not_started").0 (ground arith),
      ),
    )
  ]

  check_discovery-Publishes :
      (a : Answer) (document : Json) → check_discovery a ≡ ok document → Publishes a document
  unfolding check_discovery
  check_discovery-Publishes lost document h = cc
  check_discovery-Publishes (response r) document h =
      let contract : validate_contract js satisfies policy document ≡ ok tt = ground arith in
      let (schema, kept) = validate_contract-policy document contract in
      (ground arith, ground arith, ground arith, schema, kept)

  five_steps :
      {X D : Type 0} (o : Result X) (b : Bool) (e : Exception) (u : Result (Unit {0}))
      (d : Result D) (c : D → Result (Unit {0})) (f : D → Json) (r : Json)
      → (o >>= λ x. (require b e >> (u >> (d >>= λ y. (c y >> ok (f y)))))) ≡ ok r
      → (y : D) × (u ≡ ok tt) × (d ≡ ok y) × (c y ≡ ok tt) × (r ≡ f y)
  five_steps (err q) b e u d c f r h = cc
  five_steps (ok x) b e u (err q) c f r h = let raised : ⊥ = ground arith in absurd raised
  five_steps (ok x) b e u (ok y) c f r h = (y, ground arith, refl, ground arith, ground arith)

  -- A service that passes refuses discovery without a token by 401, with a body that satisfies the
  -- error schema and says `not_started`; its policy is a success that may not be cached, satisfies
  -- the policy schema, and meets the adaptive contract in every entry; and the report is made from
  -- that policy.
  pub check_service_sound :
      (urlsplit : List ℕ → Split) (origin token : List ℕ) (service : Service)
      (call : Option (String × Json)) (result : Json)
      → check_service urlsplit origin token service call ≡ ok result
      → (document : Json) × Refuses service.unauthenticated
        × Publishes service.discovery document
        × (result ≡ report document)
  unfolding check_service
  check_service_sound urlsplit origin token service call result h =
      let (document, refused, found, called, same) =
        five_steps (validate_origin urlsplit origin) (fullmatch token_pattern token) _
          (check_unauthenticated service.unauthenticated) (check_discovery service.discovery)
          (λ y. check_call service.posted y call) report result h in
      (
        document,
        check_unauthenticated-Refuses service.unauthenticated refused,
        check_discovery-Publishes service.discovery document found,
        same,
      )

-- `main`: its modes, and its exit status. `files` says whether the manifest file is valid, and
-- `checked` how `check_service` ended.
pub record Options : Type 0 where
  pub manifest : Bool
  pub origin : Bool
  pub operation : Bool
  pub params : Bool

-- The two usage errors exit with 2, a failed check with 1.
unfoldable pub main : Options → Result (Unit {0}) → Result Json → ℕ
main o file checked =
    if xor o.operation o.params
    then 2
    else if o.manifest && not (is_ok file)
    then 1
    else if o.origin && not (is_ok checked)
    then 1
    else if not o.manifest && not o.origin
    then 2
    else 0
