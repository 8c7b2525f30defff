-- ===== src/Base/Dict.antt =====
-- Python's `dict` as its entries in insertion order, with the keys' equality test.
use mathlib.Core.Path.{◌≡◌, refl, sym, ap, ◌∙◌}
use mathlib.Core.Logic.{inl, inr}
use mathlib.Core.Bool.{Bool, true, false}
use mathlib.Core.Option.{Option, none, some}
use mathlib.Core.List.{List, [], ◌∷◌}
use provable_agent_reference.Base.Tests.{if◌then◌else◌, Bool-cases}

module _ {K V : Type 0} (same : K → K → Bool) where
  -- `d.get(key)`
  abbrev pub get : K → List (K × V) → Option V
  get key [] = none
  get key ((k, v) ∷ d) = let rest = get key d in if same key k then some v else rest

  -- `d[key] = value`: in the key's place, or at the end
  abbrev pub put : K → V → List (K × V) → List (K × V)
  put key value [] = (key, value) ∷ []
  put key value ((k, v) ∷ d) =
      let rest = put key value d in if same key k then (k, value) ∷ d else (k, v) ∷ rest

  pub get-put_same :
      (same_refl : (k : K) → same k k ≡ true) (key : K) (value : V) (d : List (K × V))
      → get key (put key value d) ≡ some value
  get-put_same same_refl key value [] = rw (same_refl key) refl
  get-put_same same_refl key value ((k, v) ∷ d) = elim (Bool-cases (same key k)) [
    | inl e ↦ rw (e, e) refl
    | inr e ↦ rw (e, e) (get-put_same same_refl key value d)
  ]

  pub get-put_other :
      (same_trans : (i j k : K) → same i j ≡ true → same k j ≡ true → same i k ≡ true)
      (other key : K) (value : V) (d : List (K × V))
      → same other key ≡ false
      → get other (put key value d) ≡ get other d
  get-put_other same_trans other key value [] h = rw h refl
  get-put_other same_trans other key value ((k, v) ∷ d) h = elim (Bool-cases (same key k)) [
    | inl e ↦ elim (Bool-cases (same other k)) [
      | inl f ↦ let clash = sym (same_trans other k key f e) ∙ h in cc
      | inr f ↦ rw (e, f) refl
    ]
    | inr e ↦ rw e (
        ap (λ r. if same other k then some v else r) (get-put_other same_trans other key value d h))
  ]
