-- ===== src/Json/Equality.antt =====
-- Python's `==` on these values: dicts are equal whatever their entries' order, and `True == 1`. A value
-- that the serializer refuses equals none that it accepts, and the source compares no two such values.
use text.Mathlib.TextEquality.{eq_iff}
use provable_agent_reference.Base.{
  String, ◌≡◌, ap, ℕ, suc, Bool, true, false, ◌&&◌, ◌==◌, nat_eq, Option, none, some, if◌then◌else◌,
}
use provable_agent_reference.Json.{
  other, ℤ, pos, negsuc, Key, text_key, Value, Items, Fields, null, bool, int, str, arr, obj, nil,
  cons, end, field,
}

unfoldable pub int_eq : ℤ → ℤ → Bool
int_eq (pos n) (pos m) = nat_eq n m
int_eq (negsuc n) (negsuc m) = nat_eq n m
int_eq _ _ = false

unfoldable pub key_eq : Key → Key → Bool
key_eq (text_key j) (text_key k) = j == k
key_eq _ _ = false

abbrev int_of_bool : Bool → ℤ
int_of_bool true = pos 1
int_of_bool false = pos 0

pub bool_eq : Bool → Bool → Bool
bool_eq true b = b
bool_eq false true = false
bool_eq false false = true

unfoldable pub size : Fields → ℕ
size end = 0
size (field k v fs) = suc (size fs)

unfoldable pub lookup : Key → Fields → Option Value
unfolding key_eq
lookup k end = none
lookup k (field j v fs) = if key_eq j k then some v else lookup k fs

unfoldable mutual
  unfolding int_eq bool_eq size lookup

  pub py_eq : Value → Value → Bool
  py_eq null null = true
  py_eq (bool a) (bool b) = bool_eq a b
  py_eq (bool a) (int n) = int_eq (int_of_bool a) n
  py_eq (int n) (bool b) = int_eq n (int_of_bool b)
  py_eq (int n) (int m) = int_eq n m
  py_eq (str s) (str t) = s == t
  py_eq (arr vs) (arr ws) = items_eq vs ws
  py_eq (obj fs) (obj gs) = nat_eq (size fs) (size gs) && fields_in fs gs
  py_eq _ _ = false

  pub items_eq : Items → Items → Bool
  items_eq nil nil = true
  items_eq (cons v vs) (cons w ws) = py_eq v w && items_eq vs ws
  items_eq _ _ = false

  -- Every entry of the first dict stands in the second.
  pub fields_in : Fields → Fields → Bool
  fields_in end gs = true
  fields_in (field k v fs) gs =
      elim (lookup k gs) [ none ↦ false | some w ↦ py_eq v w ] && fields_in fs gs

-- What equals a text is that text.
pub py_eq-str : (v : Value) (s : String) → py_eq v (str s) ≡ true → v ≡ str s
unfolding py_eq
py_eq-str (str t) s h = ap str ((eq_iff t s).0 h)
py_eq-str null s h = cc
py_eq-str (bool b) s h = cc
py_eq-str (int n) s h = cc
py_eq-str (arr vs) s h = cc
py_eq-str (obj fs) s h = cc
py_eq-str (other u) s h = cc
