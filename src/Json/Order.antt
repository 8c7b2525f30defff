-- ===== src/Json/Order.antt =====
-- `sort_keys=True`: the entries of every dict by their keys' code points.
use Prim.Native.String.{compare}
use text.Mathlib.Text.{is_le}
use provable_agent_reference.Base.{◌≡◌, refl, String, Bool, true, List, [], ◌∷◌, if◌then◌else◌}
use provable_agent_reference.Json.{
  Key, text_key, Value, Items, Fields, null, bool, int, str, arr, obj, other, nil, cons, end, field,
  texts,
}

abbrev pub key_le : Key → Key → Bool
key_le (text_key j) (text_key k) = is_le (compare j k)
key_le _ _ = true

unfoldable pub insert : Key → Value → Fields → Fields
insert k v end = field k v end
insert k v (field j w fs) =
    let rest = insert k v fs in if key_le k j then field k v (field j w fs) else field j w rest

unfoldable mutual
  unfolding insert

  pub sort_keys : Value → Value
  sort_keys null = null
  sort_keys (bool b) = bool b
  sort_keys (int n) = int n
  sort_keys (str s) = str s
  sort_keys (arr vs) = arr (sort_items vs)
  sort_keys (obj fs) = obj (sort_fields fs)
  sort_keys (other u) = other u

  pub sort_items : Items → Items
  sort_items nil = nil
  sort_items (cons v vs) = cons (sort_keys v) (sort_items vs)

  pub sort_fields : Fields → Fields
  sort_fields end = end
  sort_fields (field k v fs) = insert k (sort_keys v) (sort_fields fs)

pub sort_items-texts : (xs : List String) → sort_items (texts xs) ≡ texts xs
unfolding sort_keys sort_items
sort_items-texts [] = refl
sort_items-texts (x ∷ xs) = λ i. cons (str x) (sort_items-texts xs i)

test_sort :
    (v w : Value)
    → sort_fields (field (text_key "b") null (field (text_key "a") null end))
      ≡ field (text_key "a") null (field (text_key "b") null end)
unfolding sort_fields sort_keys
test_sort v w = refl
