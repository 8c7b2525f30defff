-- ===== src/Json/Injective.antt =====
-- What the printed text of Json/Print determines of a value.
use provable_agent_reference.Base.{
  ℕ, ◌≡◌, refl, sym, ap, ◌∙◌, ◌<◌, Bool, true, false, List, [], ◌∷◌, arith, &&-eq-true,
}
use provable_agent_reference.Json.{
  Key, text_key, other_key, Value, Items, Fields, null, bool, int, str, arr, obj, other, nil, cons,
  end, field, is_text_key, is_json, all_json, fields_json,
}
use provable_agent_reference.Json.Print.{
  print, print_items, print_more, print_fields, print_more_fields, print_bool, print_key, quote,
}
use provable_agent_reference.Json.Reading.{
  Stops, head_kind, print_int-kind, print_int-injective, quote-injective,
}

abbrev value_kind : Value → ℕ
value_kind null = 1
value_kind (bool b) = 2
value_kind (int n) = 3
value_kind (str s) = 4
value_kind (arr vs) = 5
value_kind (obj fs) = 6
value_kind (other u) = 0

value_kind-pos : (v : Value) → is_json v ≡ true → 0 < value_kind v
unfolding is_json
value_kind-pos (other u) h = cc
value_kind-pos null h = omega arith
value_kind-pos _ h = omega arith

print-kind :
    (v : Value) (rest : List ℕ) → is_json v ≡ true → head_kind (print v rest) ≡ value_kind v
unfolding print is_json quote print_bool
print-kind null rest h = refl
print-kind (bool true) rest h = refl
print-kind (bool false) rest h = refl
print-kind (int n) rest h = print_int-kind n rest
print-kind (str s) rest h = refl
print-kind (arr vs) rest h = refl
print-kind (obj fs) rest h = refl
print-kind (other u) rest h = cc

-- A text that no value begins.
print-ne : (v : Value) (rest s : List ℕ) → is_json v ≡ true → head_kind s ≡ 0 → print v rest ≡ s → ⊥
print-ne v rest s j k h =
    let e = sym (print-kind v rest j) ∙ ap head_kind h in omega (arith, value_kind-pos v j)

print_more-Stops : (vs : Items) (r : List ℕ) → Stops (print_more vs (b']' ∷ r))
unfolding print_more
print_more-Stops nil r = refl
print_more-Stops (cons v vs) r = refl

print_more_fields-Stops : (fs : Fields) (r : List ℕ) → Stops (print_more_fields fs (b'}' ∷ r))
unfolding print_more_fields
print_more_fields-Stops end r = refl
print_more_fields-Stops (field k v fs) r = refl

print_bool-injective :
    (a b : Bool) (r s : List ℕ) → print_bool a r ≡ print_bool b s → (a ≡ b) × (r ≡ s)
unfolding print_bool
print_bool-injective true true r s h = (refl, cc)
print_bool-injective true false r s h = ground arith
print_bool-injective false true r s h = ground arith
print_bool-injective false false r s h = (refl, cc)

print_key-injective :
    (j k : Key) (r s : List ℕ)
    → is_text_key j ≡ true
    → is_text_key k ≡ true
    → print_key j r ≡ print_key k s
    → (j ≡ k) × (r ≡ s)
unfolding print_key
print_key-injective (other_key t) k r s jt kt h = cc
print_key-injective (text_key j) (other_key t) r s jt kt h = cc
print_key-injective (text_key j) (text_key k) r s jt kt h =
    let (e, f) = quote-injective j k r s h in (ap text_key e, f)

print_key-ne : (k : Key) (r s : List ℕ) → is_text_key k ≡ true → print_key k r ≡ b'}' ∷ s → ⊥
unfolding print_key
print_key-ne (text_key k) r s t h = ground arith
print_key-ne (other_key k) r s t h = cc

tail_eq : {a b : ℕ} {r s : List ℕ} → a ∷ r ≡ b ∷ s → r ≡ s
tail_eq h = cc

mutual
  unfolding print print_items print_more print_fields print_more_fields is_json all_json fields_json

  print_inj :
      (v w : Value) (r s : List ℕ)
      → is_json v ≡ true
      → is_json w ≡ true
      → Stops r
      → Stops s
      → print v r ≡ print w s
      → (v ≡ w) × (r ≡ s)
  print_inj (other u) w r s jv jw hr hs h = cc
  print_inj v (other u) r s jv jw hr hs h = cc
  print_inj null null r s jv jw hr hs h = (refl, cc)
  print_inj (bool a) (bool b) r s jv jw hr hs h =
      let (e, f) = print_bool-injective a b r s h in (ap bool e, f)
  print_inj (int n) (int m) r s jv jw hr hs h =
      let (e, f) = print_int-injective n m r s hr hs h in (ap int e, f)
  print_inj (str x) (str y) r s jv jw hr hs h =
      let (e, f) = quote-injective x y r s h in (ap str e, f)
  print_inj (arr vs) (arr ws) r s jv jw hr hs h =
      let (e, f) = print_items_inj vs ws r s jv jw cc in (ap arr e, f)
  print_inj (obj fs) (obj gs) r s jv jw hr hs h =
      let (e, f) = print_fields_inj fs gs r s jv jw cc in (ap obj e, f)
  print_inj v w r s jv jw hr hs h =
      let e = sym (print-kind v r jv) ∙ ap head_kind h ∙ print-kind w s jw in absurd (omega arith)

  print_items_inj :
      (vs ws : Items) (r s : List ℕ)
      → all_json vs ≡ true
      → all_json ws ≡ true
      → print_items vs (b']' ∷ r) ≡ print_items ws (b']' ∷ s)
      → (vs ≡ ws) × (r ≡ s)
  print_items_inj nil nil r s jv jw h = (refl, cc)
  print_items_inj nil (cons w ws) r s jv jw h =
      absurd (print-ne w _ _ (&&-eq-true jw).0 refl (sym h))
  print_items_inj (cons v vs) nil r s jv jw h = absurd (print-ne v _ _ (&&-eq-true jv).0 refl h)
  print_items_inj (cons v vs) (cons w ws) r s jv jw h =
      let (jv₀, jv₁) = &&-eq-true jv in
      let (jw₀, jw₁) = &&-eq-true jw in
      let (e, f) = print_inj v w _ _ jv₀ jw₀ (print_more-Stops vs r) (print_more-Stops ws s) h in
      let (es, g) = print_more_inj vs ws r s jv₁ jw₁ f in (λ i. cons (e i) (es i), g)

  print_more_inj :
      (vs ws : Items) (r s : List ℕ)
      → all_json vs ≡ true
      → all_json ws ≡ true
      → print_more vs (b']' ∷ r) ≡ print_more ws (b']' ∷ s)
      → (vs ≡ ws) × (r ≡ s)
  print_more_inj nil nil r s jv jw h = (refl, cc)
  print_more_inj nil (cons w ws) r s jv jw h = ground arith
  print_more_inj (cons v vs) nil r s jv jw h = ground arith
  print_more_inj (cons v vs) (cons w ws) r s jv jw h =
      let (jv₀, jv₁) = &&-eq-true jv in
      let (jw₀, jw₁) = &&-eq-true jw in
      let (e, f) = print_inj v w _ _ jv₀ jw₀ (print_more-Stops vs r) (print_more-Stops ws s) cc in
      let (es, g) = print_more_inj vs ws r s jv₁ jw₁ f in (λ i. cons (e i) (es i), g)

  print_fields_inj :
      (fs gs : Fields) (r s : List ℕ)
      → fields_json fs ≡ true
      → fields_json gs ≡ true
      → print_fields fs (b'}' ∷ r) ≡ print_fields gs (b'}' ∷ s)
      → (fs ≡ gs) × (r ≡ s)
  print_fields_inj end end r s jf jg h = (refl, cc)
  print_fields_inj end (field k v gs) r s jf jg h =
      absurd (print_key-ne k _ _ (&&-eq-true jg).0 (sym h))
  print_fields_inj (field k v fs) end r s jf jg h = absurd (print_key-ne k _ _ (&&-eq-true jf).0 h)
  print_fields_inj (field j v fs) (field k w gs) r s jf jg h =
      let (jk, jf') = &&-eq-true jf in
      let (jv, jfs) = &&-eq-true jf' in
      let (kk, jg') = &&-eq-true jg in
      let (jw, jgs) = &&-eq-true jg' in
      let (e, f) = print_key-injective j k _ _ jk kk h in
      let (e', f') =
        print_inj v w _ _ jv jw (print_more_fields-Stops fs r) (print_more_fields-Stops gs s)
          (tail_eq f) in
      let (es, g) = print_more_fields_inj fs gs r s jfs jgs f' in
      (λ i. field (e i) (e' i) (es i), g)

  print_more_fields_inj :
      (fs gs : Fields) (r s : List ℕ)
      → fields_json fs ≡ true
      → fields_json gs ≡ true
      → print_more_fields fs (b'}' ∷ r) ≡ print_more_fields gs (b'}' ∷ s)
      → (fs ≡ gs) × (r ≡ s)
  print_more_fields_inj end end r s jf jg h = (refl, cc)
  print_more_fields_inj end (field k v gs) r s jf jg h = ground arith
  print_more_fields_inj (field k v fs) end r s jf jg h = ground arith
  print_more_fields_inj (field j v fs) (field k w gs) r s jf jg h =
      let (jk, jf') = &&-eq-true jf in
      let (jv, jfs) = &&-eq-true jf' in
      let (kk, jg') = &&-eq-true jg in
      let (jw, jgs) = &&-eq-true jg' in
      let (e, f) = print_key-injective j k _ _ jk kk (tail_eq h) in
      let (e', f') =
        print_inj v w _ _ jv jw (print_more_fields-Stops fs r) (print_more_fields-Stops gs s)
          (tail_eq f) in
      let (es, g) = print_more_fields_inj fs gs r s jfs jgs f' in
      (λ i. field (e i) (e' i) (es i), g)

pub print-injective :
    (v w : Value) → is_json v ≡ true → is_json w ≡ true → print v [] ≡ print w [] → v ≡ w
print-injective v w jv jw h = (print_inj v w [] [] jv jw tt tt h).0
