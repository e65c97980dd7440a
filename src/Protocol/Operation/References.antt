-- ===== src/Protocol/Operation/References.antt =====
-- `check_references` looks at every entry of a schema, at any depth.
use mathlib.Core.Path.{subst}
use ai_protocol.Base.{
  str_eq, Bool-cases, String, ◌≡◌, refl, ◌↔◌, ◌⊎◌, inl, inr, true, false, not, ◌&&◌, arith, eq_iff,
}
use ai_protocol.Result.{ok}
use ai_protocol.Json.{
  Json, null, bool, int, float, str, arr, obj, Items, nil, cons, Fields, end, field,
}
use ai_protocol.Protocol.Operation.{
  is_reference_key, is_local, check_references, check_fields, check_items,
}

-- The entry `k: v` stands somewhere in a value.
mutual
  pub data Occurs (k : String) (v : Json) : Json → Type 0 where
    in_obj : {fs : Fields} → OccursInFields k v fs → Occurs k v (obj fs)
    in_arr : {vs : Items} → OccursInItems k v vs → Occurs k v (arr vs)

  pub data OccursInFields (k : String) (v : Json) : Fields → Type 0 where
    here : {j : String} {u : Json} {fs : Fields} → j ≡ k → u ≡ v → OccursInFields k v (field j u fs)
    below : {j : String} {u : Json} {fs : Fields} → Occurs k v u → OccursInFields k v (field j u fs)
    later :
        {j : String} {u : Json} {fs : Fields}
        → OccursInFields k v fs
        → OccursInFields k v (field j u fs)

  pub data OccursInItems (k : String) (v : Json) : Items → Type 0 where
    inside : {u : Json} {vs : Items} → Occurs k v u → OccursInItems k v (cons u vs)
    after : {u : Json} {vs : Items} → OccursInItems k v vs → OccursInItems k v (cons u vs)

-- Every entry under `$ref` or `$dynamicRef`, anywhere in the value, is a text that begins with `#`.
abbrev pub HasLocalReferences : Json → Type 0
HasLocalReferences s = (v : Json) → Occurs "$ref" v s ⊎ Occurs "$dynamicRef" v s → is_local v ≡ true

-- The first entry of a dict that passes, and what follows it.
check_fields-split :
    (k : String) (v : Json) (fs : Fields)
    → check_fields (field k v fs) ≡ ok tt
    → (is_reference_key k && not (is_local v) ≡ false)
      × (check_references v ≡ ok tt)
      × (check_fields fs ≡ ok tt)
unfolding check_fields
check_fields-split k v fs h = ground arith

check_items-split :
    (v : Json) (vs : Items)
    → check_items (cons v vs) ≡ ok tt
    → (check_references v ≡ ok tt) × (check_items vs ≡ ok tt)
unfolding check_items
check_items-split v vs h = ground arith

mutual
  unfolding check_references

  references_sound :
      (k : String) (v : Json) {s : Json}
      → Occurs k v s
      → check_references s ≡ ok tt
      → is_reference_key k ≡ true
      → is_local v ≡ true
  references_sound k v (in_obj {fs = fs} o) h e = fields_sound k v o h e
  references_sound k v (in_arr {vs = vs} o) h e = items_sound k v o h e

  fields_sound :
      (k : String) (v : Json) {fs : Fields}
      → OccursInFields k v fs
      → check_fields fs ≡ ok tt
      → is_reference_key k ≡ true
      → is_local v ≡ true
  fields_sound k v (here {j = j} {u = u} {fs = fs} p q) h e =
      let s = (check_fields-split j u fs h).0 in
      let t : is_reference_key k && not (is_local v) ≡ false = rw p at (rw q at s) in ground arith
  fields_sound k v (below {j = j} {u = u} {fs = fs} o) h e =
      references_sound k v o (check_fields-split j u fs h).1 e
  fields_sound k v (later {j = j} {u = u} {fs = fs} o) h e =
      fields_sound k v o (check_fields-split j u fs h).2 e

  items_sound :
      (k : String) (v : Json) {vs : Items}
      → OccursInItems k v vs
      → check_items vs ≡ ok tt
      → is_reference_key k ≡ true
      → is_local v ≡ true
  items_sound k v (inside {u = u} {vs = vs} o) h e =
      references_sound k v o (check_items-split u vs h).0 e
  items_sound k v (after {u = u} {vs = vs} o) h e = items_sound k v o (check_items-split u vs h).1 e

mutual
  unfolding check_references

  references_complete :
      (s : Json)
      → ((k : String) (v : Json) → Occurs k v s → is_reference_key k ≡ true → is_local v ≡ true)
      → check_references s ≡ ok tt
  references_complete (obj fs) h = fields_complete fs (λ k v o. h k v (in_obj o))
  references_complete (arr vs) h = items_complete vs (λ k v o. h k v (in_arr o))
  references_complete null h = refl
  references_complete (bool b) h = refl
  references_complete (int n) h = refl
  references_complete (float x) h = refl
  references_complete (str s) h = refl

  fields_complete :
      (fs : Fields)
      → ((k : String) (v : Json)
          → OccursInFields k v fs
          → is_reference_key k ≡ true
          → is_local v ≡ true)
      → check_fields fs ≡ ok tt
  fields_complete end h = refl
  fields_complete (field k v fs) h =
      let first = h k v (here refl refl) in
      let under = references_complete v (λ j u o. h j u (below o)) in
      let rest = fields_complete fs (λ j u o. h j u (later o)) in ground arith

  items_complete :
      (vs : Items)
      → ((k : String) (v : Json)
          → OccursInItems k v vs
          → is_reference_key k ≡ true
          → is_local v ≡ true)
      → check_items vs ≡ ok tt
  items_complete nil h = refl
  items_complete (cons v vs) h =
      let under = references_complete v (λ j u o. h j u (inside o)) in
      let rest = items_complete vs (λ j u o. h j u (after o)) in ground arith

-- The two keys of a reference.
is_reference_key_iff :
    (k : String) → (is_reference_key k ≡ true) ↔ ((k ≡ "$ref") ⊎ (k ≡ "$dynamicRef"))
is_reference_key_iff k = (
  λ h. elim (Bool-cases (str_eq k "$ref")) [
    | inl plain ↦ inl ((eq_iff k "$ref").0 plain)
    | inr other ↦ inr ((eq_iff k "$dynamicRef").0 (ground arith))
  ],
  λ e. elim e [
    | inl plain ↦ ground (arith, eq_iff k "$ref")
    | inr dynamic ↦ ground (arith, eq_iff k "$dynamicRef")
  ],
)

-- The check passes exactly when every value under the keys `$ref` and `$dynamicRef`, at any depth of
-- dicts and lists, is a text that begins with `#`.
pub check_references_iff : (s : Json) → (check_references s ≡ ok tt) ↔ HasLocalReferences s
check_references_iff s = (
  λ h v o. elim o [
    | inl plain ↦ references_sound "$ref" v plain h refl
    | inr dynamic ↦ references_sound "$dynamicRef" v dynamic h refl
  ],
  λ h. references_complete s (λ k v o e. elim ((is_reference_key_iff k).0 e) [
    | inl plain ↦ h v (inl (subst (λ (j : String). Occurs j v s) plain o))
    | inr dynamic ↦ h v (inr (subst (λ (j : String). Occurs j v s) dynamic o))
  ]),
)
