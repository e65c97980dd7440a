-- ===== src/Client/Revision.antt =====
-- What an accepted policy promises, alone and after the one before it.
use mathlib.Core.Path.{subst}
use ai_protocol.Base.{
  Bool-cases, String, ◌≡◌, refl, sym, ◌∙◌, ◌≢◌, ◌↔◌, ◌⊎◌, inl, inr, Bool, true, ◌&&◌, Option, none,
  some, List, [], ◌∷◌, arith, eq_iff,
}
use ai_protocol.Base.Int.{ℤ, pos, ◌≤ℤ◌, eq_of_parts, eq_ℤ}
use ai_protocol.Base.Lists.{All}
use ai_protocol.Result.{Exception, value_error, protocol_error, Result, ok, err, ◌>>◌, require}
use ai_protocol.Json.{
  Json, null, bool, int, float, str, arr, obj, Items, Fields, get, is_obj, is_arr, is_name, eq_str,
  int_within, int_at_least, int_of, same_entry,
}
use ai_protocol.Http.{Jsonschema}
use ai_protocol.Protocol.Operation.{validate_operation, check_operations}
use ai_protocol.Protocol.Operation.Descriptor.{
  IsOperation, eq_str_iff, validate_operation_iff, AreFresh, check_operations_iff,
}
use ai_protocol.Protocol.Discover.{is_client_class}
use ai_protocol.Client.Policy.{
  limits_of, max_outstanding_of, revision_of, operations_of, is_service_id, has_contract,
  as_protocol_error, check_operation, continues, continues_from, validate_policy,
}

-- An entry that is a text other than the empty one, and one that is an integer from `low` on.
abbrev pub HoldsName : Json → String → Type 0
HoldsName policy key = (s : String) × (get policy key ≡ some (str s)) × (s ≢ "")

abbrev pub HoldsFrom : ℤ → Json → String → Type 0
HoldsFrom low policy key = (n : ℤ) × (get policy key ≡ some (int n)) × (low ≤ℤ n)

-- The adaptive contract, entry by entry.
pub record IsPolicy (js : Jsonschema) (policy : Json) : Type 0 where
  pub dict : (fs : Fields) × (policy ≡ obj fs)
  pub version : get policy "version" ≡ some (int (pos 3))
  pub principal : HoldsName policy "principal_id"
  pub class :
      (get policy "client_class" ≡ some (str "agent"))
      ⊎ (get policy "client_class" ≡ some (str "interactive"))
  pub limits : (fs : Fields) × (limits_of policy ≡ obj fs)
  pub scope : get (limits_of policy) "scope" ≡ some (str "principal")
  pub refresh :
      (n : ℤ) × (get policy "refresh_after_ms" ≡ some (int n)) × (pos 100 ≤ℤ n) × (n ≤ℤ pos 60000)
  pub outstanding : HoldsFrom (pos 0) policy "outstanding"
  pub listed : (vs : Items) × (get policy "operations" ≡ some (arr vs))
  pub service : (get policy "service_id" ≡ none) ⊎ HoldsName policy "service_id"
  pub lowest : pos 1 ≤ℤ max_outstanding_of policy
  pub highest : max_outstanding_of policy ≤ℤ pos 1000
  pub revision : pos 1 ≤ℤ revision_of policy
  pub operations : All (IsOperation js) (operations_of policy)
  pub distinct : AreFresh [] (operations_of policy)

-- What stays, and what may only grow, from one policy to the next.
pub record Continues (previous policy : Json) : Type 0 where
  pub principal : get policy "principal_id" ≡ get previous "principal_id"
  pub class : get policy "client_class" ≡ get previous "client_class"
  pub service : get policy "service_id" ≡ get previous "service_id"
  pub grows : revision_of previous ≤ℤ revision_of policy
  pub fixed :
      revision_of policy ≡ revision_of previous
      → max_outstanding_of policy ≡ max_outstanding_of previous

abbrev pub ContinuesFrom : Option Json → Json → Type 0
ContinuesFrom none policy = Unit
ContinuesFrom (some previous) policy = Continues previous policy

int_within-≤ℤ :
    (low high : ℤ) (o : Option Json)
    → int_within low high o ≡ true
    → (low ≤ℤ int_of o) × (int_of o ≤ℤ high)
int_within-≤ℤ low high (some (int n)) h = ground arith
int_within-≤ℤ low high none h = cc
int_within-≤ℤ low high (some _) h = cc

int_at_least-≤ℤ : (low : ℤ) (o : Option Json) → int_at_least low o ≡ true → low ≤ℤ int_of o
int_at_least-≤ℤ low (some (int n)) h = ground arith
int_at_least-≤ℤ low none h = cc
int_at_least-≤ℤ low (some _) h = cc

eq_ℤ_iff : (a b : ℤ) → (eq_ℤ a b ≡ true) ↔ (a ≡ b)
eq_ℤ_iff a b = ground arith

version_three : (o : Option Json) → int_within (pos 3) (pos 3) o ≡ true → o ≡ some (int (pos 3))
version_three (some (int n)) h = ground arith
version_three none h = cc
version_three (some _) h = cc

same_entry-eq : (a b : Option Json) → same_entry a b ≡ true → a ≡ b
same_entry-eq none none h = refl
same_entry-eq (some (str a)) (some (str b)) h = ground (arith, eq_iff a b)
same_entry-eq none (some b) h = cc
same_entry-eq (some null) b h = cc
same_entry-eq (some (bool x)) b h = cc
same_entry-eq (some (int n)) b h = cc
same_entry-eq (some (float x)) b h = cc
same_entry-eq (some (arr vs)) b h = cc
same_entry-eq (some (obj fs)) b h = cc
same_entry-eq (some (str a)) none h = cc
same_entry-eq (some (str a)) (some _) h = cc

continues-Continues :
    (previous policy : Json) → continues previous policy ≡ true → Continues previous policy
continues-Continues previous policy h = record {
  principal =
      same_entry-eq (get policy "principal_id") (get previous "principal_id") (ground arith);
  class = same_entry-eq (get policy "client_class") (get previous "client_class") (ground arith);
  service = same_entry-eq (get policy "service_id") (get previous "service_id") (ground arith);
  grows = ground arith;
  fixed = ground (
    arith,
    eq_ℤ_iff (revision_of policy) (revision_of previous),
    eq_ℤ_iff (max_outstanding_of policy) (max_outstanding_of previous),
  );
}

continues_from-ContinuesFrom :
    (previous : Option Json) (policy : Json)
    → continues_from previous policy ≡ true
    → ContinuesFrom previous policy
unfolding continues_from
continues_from-ContinuesFrom none policy h = tt
continues_from-ContinuesFrom (some previous) policy h = continues-Continues previous policy h

as_protocol_error-ok : (r : Result (Unit {0})) → as_protocol_error r ≡ ok tt → r ≡ ok tt
as_protocol_error-ok (ok x) h = h
as_protocol_error-ok (err (value_error m)) h = cc
as_protocol_error-ok (err _) h = cc

checked_operations :
    (js : Jsonschema) (operations : List Json)
    → All (λ operation. check_operation js operation ≡ ok tt) operations
    → All (IsOperation js) operations
checked_operations js [] h = tt
checked_operations js (operation ∷ rest) (h, hs) = (
  (validate_operation_iff js operation).0
      (as_protocol_error-ok (validate_operation js operation) h),
  checked_operations js rest hs,
)

-- Three guards and what stands between them.
staged :
    {A : Type 0} (a b d : Bool) (m : Result (Unit {0})) (e e' f : Exception) (v w : A)
    → (require a e >> (require b e' >> (m >> (require d f >> ok v)))) ≡ ok w
    → (w ≡ v) × (a ≡ true) × (b ≡ true) × (m ≡ ok tt) × (d ≡ true)
staged a b d m e e' f v w h = ground arith

-- The stages of `validate_policy`.
validate_policy-stages :
    (js : Jsonschema) (policy : Json) (previous : Option Json) (accepted : Json)
    → validate_policy js policy previous ≡ ok accepted
    → (accepted ≡ policy)
      × (is_obj (some policy) ≡ true)
      × (has_contract policy ≡ true)
      × (check_operations
            (check_operation js)
            (protocol_error "Duplicate operation name")
            []
            (operations_of policy)
          ≡ ok tt)
      × (continues_from previous policy ≡ true)
unfolding validate_policy
validate_policy-stages js policy previous accepted h =
    staged (is_obj (some policy)) (has_contract policy) (continues_from previous policy)
      (check_operations (check_operation js) (protocol_error "Duplicate operation name") []
        (operations_of policy))
      _ _ _ policy accepted h

holds_dict : (v : Json) → is_obj (some v) ≡ true → (fs : Fields) × (v ≡ obj fs)
holds_dict (obj fs) h = (fs, refl)
holds_dict null h = cc
holds_dict (bool b) h = cc
holds_dict (int n) h = cc
holds_dict (float x) h = cc
holds_dict (str s) h = cc
holds_dict (arr vs) h = cc

holds_list : (o : Option Json) → is_arr o ≡ true → (vs : Items) × (o ≡ some (arr vs))
holds_list (some (arr vs)) h = (vs, refl)
holds_list none h = cc
holds_list (some _) h = cc

holds_name : (o : Option Json) → is_name o ≡ true → (s : String) × (o ≡ some (str s)) × (s ≢ "")
holds_name (some (str s)) h = (s, refl, λ e. ground (arith, eq_iff s ""))
holds_name none h = cc
holds_name (some _) h = cc

holds_service :
    (o : Option Json)
    → is_service_id o ≡ true
    → (o ≡ none) ⊎ ((s : String) × (o ≡ some (str s)) × (s ≢ ""))
holds_service none h = inl refl
holds_service (some v) h = inr (holds_name (some v) h)

holds_class :
    (o : Option Json)
    → is_client_class o ≡ true
    → (o ≡ some (str "agent")) ⊎ (o ≡ some (str "interactive"))
holds_class o h = elim (Bool-cases (eq_str o "agent")) [
  | inl agent ↦ inl ((eq_str_iff o "agent").0 agent)
  | inr other ↦ inr ((eq_str_iff o "interactive").0 (ground arith))
]

holds_within :
    (low high : ℤ) (o : Option Json)
    → int_within low high o ≡ true
    → (n : ℤ) × (o ≡ some (int n)) × (low ≤ℤ n) × (n ≤ℤ high)
holds_within low high (some (int n)) h = (n, refl, ground arith, ground arith)
holds_within low high none h = cc
holds_within low high (some _) h = cc

holds_from :
    (low : ℤ) (o : Option Json)
    → int_at_least low o ≡ true
    → (n : ℤ) × (o ≡ some (int n)) × (low ≤ℤ n)
holds_from low (some (int n)) h = (n, refl, ground arith)
holds_from low none h = cc
holds_from low (some _) h = cc

-- Each of the eleven tests.
contract_tests :
    (a b c d e f g h i j k : Bool)
    → a && b && c && d && e && f && g && h && i && j && k ≡ true
    → (a ≡ true)
      × (b ≡ true)
      × (c ≡ true)
      × (d ≡ true)
      × (e ≡ true)
      × (f ≡ true)
      × (g ≡ true)
      × (h ≡ true)
      × (i ≡ true)
      × (j ≡ true)
      × (k ≡ true)
contract_tests a b c d e f g h i j k t = ground arith

-- The contract holds where every test passes, and the operations were checked.
has_contract-IsPolicy :
    (js : Jsonschema) (policy : Json)
    → is_obj (some policy) ≡ true
    → has_contract policy ≡ true
    → All (IsOperation js) (operations_of policy)
    → AreFresh [] (operations_of policy)
    → IsPolicy js policy
unfolding has_contract
has_contract-IsPolicy js policy is_dict h checked fresh =
    let (three, named, classed, nested, scoped, capacity, rev, often, load, many, identified) =
      contract_tests _ _ _ _ _ _ _ _ _ _ _ h in
    let (low, high) =
      int_within-≤ℤ (pos 1) (pos 1000) (get (limits_of policy) "max_outstanding") capacity in
    record {
      dict = holds_dict policy is_dict;
      version = version_three (get policy "version") three;
      principal = holds_name (get policy "principal_id") named;
      class = holds_class (get policy "client_class") classed;
      limits = holds_dict (limits_of policy) nested;
      scope = (eq_str_iff (get (limits_of policy) "scope") "principal").0 scoped;
      refresh = holds_within (pos 100) (pos 60000) (get policy "refresh_after_ms") often;
      outstanding = holds_from (pos 0) (get policy "outstanding") load;
      listed = holds_list (get policy "operations") many;
      service = holds_service (get policy "service_id") identified;
      lowest = low;
      highest = high;
      revision = int_at_least-≤ℤ (pos 1) (get policy "policy_revision") rev;
      operations = checked;
      distinct = fresh;
    }

-- An accepted policy is the document itself; it meets the adaptive contract in every entry, and
-- continues the one before: the identity stays, the revision does not fall, and the limit changes
-- only where the revision does.
pub validate_policy-IsPolicy :
    (js : Jsonschema) (policy : Json) (previous : Option Json) (accepted : Json)
    → validate_policy js policy previous ≡ ok accepted
    → (accepted ≡ policy) × IsPolicy js policy × ContinuesFrom previous policy
validate_policy-IsPolicy js policy previous accepted h =
    let (same, is_dict, contract, listed, continued) =
      validate_policy-stages js policy previous accepted h in
    let (checked, fresh) =
      (check_operations_iff (check_operation js) (protocol_error "Duplicate operation name") []
          (operations_of policy)).0
        listed in
    (
      same,
      has_contract-IsPolicy js policy is_dict contract
          (checked_operations js (operations_of policy) checked) fresh,
      continues_from-ContinuesFrom previous policy continued,
    )

pub Continues-refl : (policy : Json) → Continues policy policy
Continues-refl policy = record {
  principal = refl;
  class = refl;
  service = refl;
  grows = omega arith;
  fixed = λ e. refl;
}

≤ℤ_antisymm : (a b : ℤ) → a ≤ℤ b → b ≤ℤ a → a ≡ b
≤ℤ_antisymm a b h k = eq_of_parts a b (omega arith)

pub Continues-trans : (a b c : Json) → Continues a b → Continues b c → Continues a c
Continues-trans a b c h k = record {
  principal = k.principal ∙ h.principal;
  class = k.class ∙ h.class;
  service = k.service ∙ h.service;
  grows = let below = h.grows in let above = k.grows in omega arith;
  fixed = λ e. together e;
}
  where
    together : revision_of c ≡ revision_of a → max_outstanding_of c ≡ max_outstanding_of a
    together e =
        let up = h.grows in
        let down : revision_of b ≤ℤ revision_of a =
          subst (λ (r : ℤ). revision_of b ≤ℤ r) e k.grows in
        let middle = ≤ℤ_antisymm (revision_of b) (revision_of a) down up in
        k.fixed (e ∙ sym middle) ∙ h.fixed middle
