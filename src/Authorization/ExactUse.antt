-- ===== src/Authorization/ExactUse.antt =====
-- Outputs that Python's `==` identifies with the approved one, and their canonical form.
use text.Mathlib.TextPositions.{eq_refl}
use provable_agent_reference.Base.{
  suc, ◌≡◌, refl, sym, ap, ◌⊎◌, inl, inr, String, Bool, true, false, ◌&&◌, ◌==◌, eq_iff, nat_eq,
  nat_eq_iff, none, some, List, [], ◌∷◌, Bool-cases, arith, &&-eq-true,
}
use provable_agent_reference.Json.{
  Key, text_key, other_key, Value, Items, Fields, str, arr, obj, nil, cons, end, field, texts,
}
use provable_agent_reference.Json.Order.{sort_keys}
use provable_agent_reference.Json.Equality.{py_eq, items_eq, fields_in, lookup, size}
use provable_agent_reference.Contracts.CanonicalCandidate.{CanonicalCandidate}
use provable_agent_reference.Authorization.{expected_output}

-- No key of the dict occurs twice, as in every dict.
abbrev pub distinct_keys : Fields → Bool
distinct_keys end = true
distinct_keys (field k v fs) =
    elim (lookup k fs) [ none ↦ true | some w ↦ false ] && distinct_keys fs

abbrev pub IsDict : Value → Type 0
IsDict (obj fs) = distinct_keys fs ≡ true
IsDict _ = Unit

eq_str : (v : Value) (s : String) → py_eq v (str s) ≡ true → v ≡ str s
unfolding py_eq
eq_str (str t) s h = ap str ((eq_iff t s).0 h)
eq_str _ s h = cc

items_eq-texts : (vs : Items) (xs : List String) → items_eq vs (texts xs) ≡ true → vs ≡ texts xs
unfolding items_eq
items_eq-texts nil [] h = refl
items_eq-texts nil (x ∷ xs) h = cc
items_eq-texts (cons v vs) [] h = cc
items_eq-texts (cons v vs) (x ∷ xs) h =
    let (here, there) = &&-eq-true {a = py_eq v (str x)} h in
    λ i. cons (eq_str v x here i) (items_eq-texts vs xs there i)

eq_arr : (v : Value) (xs : List String) → py_eq v (arr (texts xs)) ≡ true → v ≡ arr (texts xs)
unfolding py_eq
eq_arr (arr vs) xs h = ap arr (items_eq-texts vs xs h)
eq_arr _ xs h = cc

-- An entry of the output that stands in the expected one.
abbrev expected_fields : String → List String → Fields
expected_fields s ls =
    field (text_key "assurance_statement") (str s)
      (field (text_key "limitations") (arr (texts ls)) end)

abbrev stands_in : Key → Value → Fields → Bool
stands_in k v gs = elim (lookup k gs) [ none ↦ false | some w ↦ py_eq v w ]

entry-cases :
    (k : Key) (v : Value) (s : String) (ls : List String)
    → stands_in k v (expected_fields s ls) ≡ true
    → ((k ≡ text_key "assurance_statement") × (v ≡ str s))
      ⊎ ((k ≡ text_key "limitations") × (v ≡ arr (texts ls)))
unfolding lookup
entry-cases (other_key t) v s ls h = cc
entry-cases (text_key k) v s ls h = elim (Bool-cases ("assurance_statement" == k)) [
  | inl first ↦ inl (
    ap text_key (sym ((eq_iff "assurance_statement" k).0 first)),
    eq_str v s (rw (first, stands_in) at h),
  )
  | inr other_name ↦ elim (Bool-cases ("limitations" == k)) [
    | inl second ↦ inr (
      ap text_key (sym ((eq_iff "limitations" k).0 second)),
      eq_arr v ls (rw (other_name, second, stands_in) at h),
    )
    | inr neither ↦ cc (rw (other_name, neither, stands_in) at h)
  ]
]

-- The two entries, in either order.
pair-sorted :
    (j k : Key) (v w : Value) (s : String) (ls : List String)
    → distinct_keys (field j v (field k w end)) ≡ true
    → stands_in j v (expected_fields s ls) ≡ true
    → stands_in k w (expected_fields s ls) ≡ true
    → sort_keys (obj (field j v (field k w end))) ≡ sort_keys (obj (expected_fields s ls))
unfolding lookup sort_keys
pair-sorted j k v w s ls d hv hw = elim (entry-cases j v s ls hv) [
  | inl (ej, ev) ↦ elim (entry-cases k w s ls hw) [
    | inl (ek, ew) ↦ cc (rw (ej, ek) at d)
    | inr (ek, ew) ↦ rw (ej, ev, ek, ew)
  ]
  | inr (ej, ev) ↦ elim (entry-cases k w s ls hw) [
    | inl (ek, ew) ↦ rw (ej, ev, ek, ew)
    | inr (ek, ew) ↦ cc (rw (ej, ek) at d)
  ]
]

-- A dict that `==` identifies with the approved output has its canonical form.
pub exact_output-sorted :
    (c : CanonicalCandidate) (output : Value)
    → IsDict output
    → py_eq output (expected_output c) ≡ true
    → sort_keys output ≡ sort_keys (expected_output c)
unfolding py_eq fields_in size
exact_output-sorted c (obj (field j v (field k w end))) d h =
    let gs = expected_fields c.assurance_statement c.limitations in
    let (first, rest) = &&-eq-true {a = stands_in j v gs} h in
    let (second, _) = &&-eq-true {a = stands_in k w gs} rest in
    pair-sorted j k v w c.assurance_statement c.limitations d first second
exact_output-sorted c (obj (field j v end)) d h = cc
exact_output-sorted c (obj end) d h = cc
exact_output-sorted c (obj (field j v (field k w (field l u fs)))) d h =
    let same_size = (&&-eq-true {a = nat_eq (suc (suc (suc (size fs)))) 2} h).0 in
    absurd (omega (arith, (nat_eq_iff (suc (suc (suc (size fs)))) 2).0 same_size))
exact_output-sorted c _ d h = cc

items_eq-texts_refl : (xs : List String) → items_eq (texts xs) (texts xs) ≡ true
unfolding items_eq
items_eq-texts_refl [] = refl
items_eq-texts_refl (x ∷ xs) = rw (eq_refl x) (items_eq-texts_refl xs)

-- The approved output is equal to itself.
pub py_eq-expected_output :
    (c : CanonicalCandidate) → py_eq (expected_output c) (expected_output c) ≡ true
unfolding py_eq fields_in lookup size
py_eq-expected_output c =
    rw (eq_refl c.assurance_statement) (rw (items_eq-texts_refl c.limitations))

pub expected_output-IsDict : (c : CanonicalCandidate) → IsDict (expected_output c)
unfolding lookup
expected_output-IsDict c = refl
