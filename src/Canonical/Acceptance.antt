-- ===== src/Canonical/Acceptance.antt =====
-- Which values `canonical_json` accepts, and the text that it then returns.
use provable_agent_reference.Base.{
  ◌≡◌, refl, sym, ◌∙◌, Bool, true, ◌&&◌, List, [], ℕ, &&-eq-true, &&-intro, &&_swap, Bool-cases,
  inl, inr,
}
use provable_agent_reference.Errors.{ok, >>-eq-ok}
use provable_agent_reference.Json.{
  Key, text_key, other_key, non_finite, unsupported, oversized, too_deep, Value, Items, Fields,
  null, bool, int, str, arr, obj, other, nil, cons, end, field, is_text_key, is_json, all_json,
  fields_json,
}
use provable_agent_reference.Json.Order.{insert, sort_keys, sort_items, sort_fields, key_le}
use provable_agent_reference.Json.Print.{print}
use provable_agent_reference.Canonical.{
  require_string_keys, require_items, require_fields, serializable, serializable_items,
  serializable_fields, canonical_json,
}

-- Sorting changes neither the keys nor the values.
fields_json-insert :
    (k : Key) (v : Value) (fs : Fields)
    → fields_json (insert k v fs) ≡ (is_text_key k && (is_json v && fields_json fs))
unfolding insert fields_json
fields_json-insert k v end = refl
fields_json-insert k v (field j w fs) = elim (Bool-cases (key_le k j)) [
  | inl le ↦ rw le
  | inr gt ↦
      rw (gt, fields_json-insert k v fs)
        (&&_swap (is_text_key j) (is_json w) (is_text_key k) (is_json v) (fields_json fs))
]

mutual
  unfolding sort_keys sort_items sort_fields is_json all_json fields_json

  is_json_sort : (v : Value) → is_json (sort_keys v) ≡ is_json v
  is_json_sort null = refl
  is_json_sort (bool b) = refl
  is_json_sort (int n) = refl
  is_json_sort (str s) = refl
  is_json_sort (arr vs) = all_json_sort vs
  is_json_sort (obj fs) = fields_json_sort fs
  is_json_sort (other u) = refl

  all_json_sort : (vs : Items) → all_json (sort_items vs) ≡ all_json vs
  all_json_sort nil = refl
  all_json_sort (cons v vs) = λ i. is_json_sort v i && all_json_sort vs i

  fields_json_sort : (fs : Fields) → fields_json (sort_fields fs) ≡ fields_json fs
  fields_json_sort end = refl
  fields_json_sort (field k v fs) = fields_json-insert k (sort_keys v) (sort_fields fs) ∙ λ i.
      is_text_key k && (is_json_sort v i && fields_json_sort fs i)

pub is_json-sort_keys : (v : Value) → is_json (sort_keys v) ≡ is_json v
is_json-sort_keys v = is_json_sort v

-- Text keys at every depth.
mutual
  pub text_keys : Value → Bool
  text_keys (arr vs) = items_text_keys vs
  text_keys (obj fs) = fields_text_keys fs
  text_keys _ = true

  pub items_text_keys : Items → Bool
  items_text_keys nil = true
  items_text_keys (cons v vs) = text_keys v && items_text_keys vs

  pub fields_text_keys : Fields → Bool
  fields_text_keys end = true
  fields_text_keys (field k v fs) = is_text_key k && (text_keys v && fields_text_keys fs)

fields_text_keys-insert :
    (k : Key) (v : Value) (fs : Fields)
    → fields_text_keys (insert k v fs) ≡ (is_text_key k && (text_keys v && fields_text_keys fs))
unfolding insert fields_text_keys
fields_text_keys-insert k v end = refl
fields_text_keys-insert k v (field j w fs) = elim (Bool-cases (key_le k j)) [
  | inl le ↦ rw le
  | inr gt ↦
      rw (gt, fields_text_keys-insert k v fs)
        (&&_swap (is_text_key j) (text_keys w) (is_text_key k) (text_keys v) (fields_text_keys fs))
]

mutual
  unfolding sort_keys sort_items sort_fields text_keys items_text_keys fields_text_keys

  text_keys_sort : (v : Value) → text_keys (sort_keys v) ≡ text_keys v
  text_keys_sort (arr vs) = items_text_keys_sort vs
  text_keys_sort (obj fs) = fields_text_keys_sort fs
  text_keys_sort _ = refl

  items_text_keys_sort : (vs : Items) → items_text_keys (sort_items vs) ≡ items_text_keys vs
  items_text_keys_sort nil = refl
  items_text_keys_sort (cons v vs) = λ i. text_keys_sort v i && items_text_keys_sort vs i

  fields_text_keys_sort : (fs : Fields) → fields_text_keys (sort_fields fs) ≡ fields_text_keys fs
  fields_text_keys_sort end = refl
  fields_text_keys_sort (field k v fs) =
      fields_text_keys-insert k (sort_keys v) (sort_fields fs) ∙ λ i.
      is_text_key k && (text_keys_sort v i && fields_text_keys_sort fs i)

mutual
  unfolding require_string_keys require_items require_fields text_keys items_text_keys
      fields_text_keys

  text_keys_required : (v : Value) → require_string_keys v ≡ ok tt → text_keys v ≡ true
  text_keys_required (arr vs) h = items_required vs h
  text_keys_required (obj fs) h = fields_required fs h
  text_keys_required _ h = refl

  items_required : (vs : Items) → require_items vs ≡ ok tt → items_text_keys vs ≡ true
  items_required nil h = refl
  items_required (cons v vs) h =
      let (a, b) = >>-eq-ok (require_string_keys v) _ h in
      &&-intro (text_keys_required v a) (items_required vs b)

  fields_required : (fs : Fields) → require_fields fs ≡ ok tt → fields_text_keys fs ≡ true
  fields_required end h = refl
  fields_required (field (other_key t) v fs) h = cc
  fields_required (field (text_key k) v fs) h =
      let (a, b) = >>-eq-ok (require_string_keys v) _ h in
      &&-intro (text_keys_required v a) (fields_required fs b)

mutual
  unfolding serializable serializable_items serializable_fields text_keys items_text_keys
      fields_text_keys is_json all_json fields_json

  is_json_serializable :
      (v : Value) → text_keys v ≡ true → serializable v ≡ ok tt → is_json v ≡ true
  is_json_serializable (arr vs) k h = all_json_serializable vs k h
  is_json_serializable (obj fs) k h = fields_json_serializable fs k h
  is_json_serializable (other non_finite) k h = cc
  is_json_serializable (other (unsupported t)) k h = cc
  is_json_serializable (other oversized) k h = cc
  is_json_serializable (other too_deep) k h = cc
  is_json_serializable _ k h = refl

  all_json_serializable :
      (vs : Items) → items_text_keys vs ≡ true → serializable_items vs ≡ ok tt → all_json vs ≡ true
  all_json_serializable nil k h = refl
  all_json_serializable (cons v vs) k h =
      let (a, b) = >>-eq-ok (serializable v) _ h in
      let (i, j) = &&-eq-true k in
      &&-intro (is_json_serializable v i a) (all_json_serializable vs j b)

  fields_json_serializable :
      (fs : Fields)
      → fields_text_keys fs ≡ true
      → serializable_fields fs ≡ ok tt
      → fields_json fs ≡ true
  fields_json_serializable end k h = refl
  fields_json_serializable (field j v fs) k h =
      let (a, b) = >>-eq-ok (serializable v) _ h in
      let (t, k') = &&-eq-true k in
      let (i, l) = &&-eq-true k' in
      &&-intro t (&&-intro (is_json_serializable v i a) (fields_json_serializable fs l b))

mutual
  unfolding require_string_keys require_items require_fields is_json all_json fields_json

  require_json : (v : Value) → is_json v ≡ true → require_string_keys v ≡ ok tt
  require_json (arr vs) h = require_all_json vs h
  require_json (obj fs) h = require_fields_json fs h
  require_json _ h = refl

  require_all_json : (vs : Items) → all_json vs ≡ true → require_items vs ≡ ok tt
  require_all_json nil h = refl
  require_all_json (cons v vs) h =
      let (a, b) = &&-eq-true h in rw (require_json v a) (require_all_json vs b)

  require_fields_json : (fs : Fields) → fields_json fs ≡ true → require_fields fs ≡ ok tt
  require_fields_json end h = refl
  require_fields_json (field (other_key t) v fs) h = cc
  require_fields_json (field (text_key k) v fs) h =
      let (a, b) = &&-eq-true h in rw (require_json v a) (require_fields_json fs b)

mutual
  unfolding serializable serializable_items serializable_fields is_json all_json fields_json

  serializable_json : (v : Value) → is_json v ≡ true → serializable v ≡ ok tt
  serializable_json (arr vs) h = serializable_all_json vs h
  serializable_json (obj fs) h = serializable_fields_json fs h
  serializable_json (other u) h = cc
  serializable_json _ h = refl

  serializable_all_json : (vs : Items) → all_json vs ≡ true → serializable_items vs ≡ ok tt
  serializable_all_json nil h = refl
  serializable_all_json (cons v vs) h =
      let (a, b) = &&-eq-true h in rw (serializable_json v a) (serializable_all_json vs b)

  serializable_fields_json : (fs : Fields) → fields_json fs ≡ true → serializable_fields fs ≡ ok tt
  serializable_fields_json end h = refl
  serializable_fields_json (field k v fs) h =
      let (t, h') = &&-eq-true h in
      let (a, b) = &&-eq-true h' in rw (serializable_json v a) (serializable_fields_json fs b)

-- The text of a value that is accepted.
pub canonical_json-ok :
    (v : Value) → is_json v ≡ true → canonical_json v ≡ ok (print (sort_keys v) [])
unfolding canonical_json
canonical_json-ok v h =
    rw (require_json v h) (rw (serializable_json (sort_keys v) (is_json-sort_keys v ∙ h)))

-- Nothing else is accepted.
pub canonical_json-accepts :
    (v : Value) {t : List ℕ}
    → canonical_json v ≡ ok t
    → (is_json v ≡ true) × (t ≡ print (sort_keys v) [])
unfolding canonical_json
canonical_json-accepts v {t} h =
    let (a, b) = >>-eq-ok (require_string_keys v) _ h in
    let (c, d) = >>-eq-ok (serializable (sort_keys v)) _ b in
    let k = text_keys_sort v ∙ text_keys_required v a in
    (sym (is_json-sort_keys v) ∙ is_json_serializable (sort_keys v) k c, cc)
