-- ===== src/Json.antt =====
-- The Python values that are handed to `canonical_json` in src/provable_agent_reference/canonical.py.
-- A list or a dict is a tree: a value that is shared or circular has no model here, nor has a finite
-- float. `other` is a value that `json.dumps` refuses, with the class of the refusal. So `int` is for
-- the integers of at most 4300 digits, and `arr` and `obj` are for the containers that the
-- interpreter's recursion limit lets json.dumps reach: larger integers and deeper containers are
-- `other` values.
pub mod Print
pub mod Order
pub mod Equality
pub mod Entries
pub mod Reading
pub mod Injective
use provable_agent_reference.Base.{ℕ, ◌≡◌, refl, String, Bool, true, false, ◌&&◌, List, [], ◌∷◌}

-- A Python `int`; `negsuc n` is -(n + 1).
pub data ℤ : Type 0 where
  pos : ℕ → ℤ
  negsuc : ℕ → ℤ

-- A dict's key: a `str`, or a value of another type, with the name of that type.
pub data Key : Type 0 where
  text_key : String → Key
  other_key : String → Key

-- NaN and the infinities raise ValueError, an unsupported type raises TypeError. `oversized` is an
-- integer of more digits than Python writes (4300), which raises ValueError, and `too_deep` a container
-- at which json.dumps meets the interpreter's recursion limit, which raises RecursionError; the keys inside it are taken to be texts.
pub data Unserializable : Type 0 where
  non_finite : Unserializable
  unsupported : String → Unserializable
  oversized too_deep : Unserializable

mutual
  pub data Value : Type 0 where
    null : Value
    bool : Bool → Value
    int : ℤ → Value
    str : String → Value
    arr : Items → Value
    obj : Fields → Value
    other : Unserializable → Value

  pub data Items : Type 0 where
    nil : Items
    cons : Value → Items → Items

  -- The entries in insertion order.
  pub data Fields : Type 0 where
    end : Fields
    field : Key → Value → Fields → Fields

-- `{"name": v, ...}` of the source, one entry at a time.
infixr 67 ◌⇒◌⨾◌
abbrev pub ◌⇒◌⨾◌ : String → Value → Fields → Fields
name ⇒ v ⨾ fs = field (text_key name) v fs

-- A list of texts, `list(xs)`.
abbrev pub texts : List String → Items
texts [] = nil
texts (x ∷ xs) = cons (str x) (texts xs)

-- Text keys at every depth, and nothing that the serializer refuses.
abbrev pub is_text_key : Key → Bool
is_text_key (text_key k) = true
is_text_key (other_key t) = false

unfoldable mutual
  pub is_json : Value → Bool
  is_json null = true
  is_json (bool b) = true
  is_json (int n) = true
  is_json (str s) = true
  is_json (arr vs) = all_json vs
  is_json (obj fs) = fields_json fs
  is_json (other u) = false

  pub all_json : Items → Bool
  all_json nil = true
  all_json (cons v vs) = is_json v && all_json vs

  pub fields_json : Fields → Bool
  fields_json end = true
  fields_json (field k v fs) = is_text_key k && (is_json v && fields_json fs)

pub texts-json : (xs : List String) → all_json (texts xs) ≡ true
unfolding is_json all_json
texts-json [] = refl
texts-json (x ∷ xs) = texts-json xs
