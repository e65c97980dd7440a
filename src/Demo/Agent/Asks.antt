-- ===== src/Demo/Agent/Asks.antt =====
-- What the agent asks of the service.
use ai_protocol.Base.{
  Bool-cases, ℕ, suc, ◌<◌, String, ◌≡◌, refl, sym, ap, ◌∙◌, inl, inr, Bool, true, some, List, [],
  ◌∷◌, map, arith,
}
use ai_protocol.Base.Lists.{get_elem?, first}
use ai_protocol.Result.{Exception, Result, ok, err, raise_if, Result-cases, >>=-ok}
use ai_protocol.Json.{Json, Items, elements, get, eq_str, value_of}
use ai_protocol.Http.{Jsonschema, Answer}
use ai_protocol.Protocol.Operation.{validate_operation}
use ai_protocol.Protocol.Discover.{discover}
use ai_protocol.Protocol.Execute.{Surroundings, execute}
use ai_protocol.Protocol.Trace.{requests}
use ai_protocol.Protocol.Bounds.{began, execute_validates}
use ai_protocol.Demo.Agent.Choice.{
  Tool, tool_of, Output, calls_of, single_call, has_name, published, is_empty, choose,
}
use ai_protocol.Demo.Agent.{main}

-- The model made one call, which names an operation of the list, and whose arguments are
-- the parameters.
pub record IsChoice (decide : List Tool → Result (List Output)) (loads : String → Result Json)
    (operations : List Json) (operation params : Json) : Type 0 where
  pub output : List Output
  pub name : String
  pub arguments : String
  pub position : ℕ
  pub decided : decide (map tool_of operations) ≡ ok output
  pub single : calls_of output ≡ (name, arguments) ∷ []
  pub in_list : get_elem? operations position ≡ some operation
  pub named : eq_str (get operation "name") name ≡ true
  pub read : loads arguments ≡ ok params

first-position :
    (p : Json → Bool) (xs : List Json) (x : Json)
    → first p xs ≡ some x
    → (i : ℕ) × (get_elem? xs i ≡ some x) × (p x ≡ true)
first-position p [] x h = cc
first-position p (y ∷ ys) x h = elim (Bool-cases (p y)) [
  | inl has ↦ let same : y ≡ x = ground arith in (0, ap some same, ap p (sym same) ∙ has)
  | inr lacks ↦ let (i, e, t) = first-position p ys x (rw lacks at h) in (suc i, e, t)
]

single_call-ok :
    (calls : List (String × String)) (call : String × String)
    → single_call calls ≡ ok call
    → calls ≡ call ∷ []
single_call-ok [] call h = cc
single_call-ok (c ∷ []) call h = cc
single_call-ok (c ∷ d ∷ calls) call h = cc

published-ok :
    (operations : List Json) (n : String) (operation : Json)
    → published operations n ≡ ok operation
    → first (has_name n) operations ≡ some operation
unfolding published
published-ok operations n operation h = ground arith

choose-IsChoice :
    (decide : List Tool → Result (List Output)) (loads : String → Result Json)
    (operations : List Json) (operation params : Json)
    → choose decide loads operations ≡ ok (operation, params)
    → IsChoice decide loads operations operation params
unfolding choose
choose-IsChoice decide loads operations operation params h =
    let (u, nonempty, h1) = >>=-ok (raise_if (is_empty operations) _) _ h in
    let (output, decided, h2) = >>=-ok (decide (map tool_of operations)) _ h1 in
    let (call, single, h3) = >>=-ok (single_call (calls_of output)) _ h2 in
    let (op, found, h4) = >>=-ok (published operations call.0) _ h3 in
    let (ps, read, h5) = >>=-ok (loads call.1) _ h4 in
    let same : op ≡ operation = cc in
    let same_params : ps ≡ params = cc in
    let (i, e, t) =
      first-position (has_name call.0) operations op (published-ok operations call.0 op found) in
    record {
      output = output;
      name = call.0;
      arguments = call.1;
      position = i;
      decided = decided;
      single = single_call-ok (calls_of output) call single;
      in_list = e ∙ ap some same;
      named = ap (λ x. eq_str (get x "name") call.0) (sym same) ∙ t;
      read = read ∙ ap ok same_params;
    }

module _ (env : Surroundings) (js : Jsonschema) (decide : List Tool → Result (List Output))
    (loads : String → Result Json) (policy : Answer) (n : ℕ) where
  abbrev asked : ℕ
  asked = requests (main env js decide loads policy (began env n)).1.trace

  -- What is known where the agent sends a request.
  pub record IsPermitted : Type 0 where
    pub operations : Items
    pub operation : Json
    pub params : Json
    pub discovered : discover js policy ≡ ok operations
    pub choice : IsChoice decide loads (elements operations) operation params
    pub descriptor : validate_operation js operation ≡ ok tt
    pub valid : js.validates (value_of (get operation "input_schema")) params ≡ true

  undiscovered : (e : Exception) → discover js policy ≡ err e → asked ≡ 0
  unfolding main
  undiscovered e h = rw h refl

  unchosen :
      (e : Exception) (operations : Items)
      → discover js policy ≡ ok operations
      → choose decide loads (elements operations) ≡ err e
      → asked ≡ 0
  unfolding main
  unchosen e operations h k = rw h (rw k refl)

  executed :
      (operations : Items) (operation params : Json)
      → discover js policy ≡ ok operations
      → choose decide loads (elements operations) ≡ ok (operation, params)
      → asked ≡ requests (execute env js operation params 120000 (began env n)).1.trace
  unfolding main
  executed operations operation params h k = rw h (rw k refl)

  -- The agent sends a request only if the policy passed the checks, the model's output holds exactly
  -- one call, that call names a published operation and its arguments can be read, the operation
  -- passes validation and the arguments satisfy its schema.
  pub main-IsPermitted :
      0 < requests (main env js decide loads policy (began env n)).1.trace → IsPermitted
  main-IsPermitted some_asked = elim (Result-cases (discover js policy)) [
    | inr (e, h) ↦ absurd (omega (arith, undiscovered e h))
    | inl (operations, h) ↦ elim (Result-cases (choose decide loads (elements operations))) [
      | inr (e, k) ↦ absurd (omega (arith, unchosen e operations h k))
      | inl (c, k) ↦
          let valid =
            execute_validates env js c.0 c.1 120000 n
              (omega (arith, executed operations c.0 c.1 h k)) in
          record {
            operations = operations;
            operation = c.0;
            params = c.1;
            discovered = h;
            choice = choose-IsChoice decide loads (elements operations) c.0 c.1 k;
            descriptor = valid.0;
            valid = valid.1;
          }
    ]
  ]
