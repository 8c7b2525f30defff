-- ===== src/Canonical.antt =====
-- src/provable_agent_reference/canonical.py: canonical JSON and content hashes. SHA-256 itself is
-- the parameter `Sha256`; the values are those of Json, trees with no sharing, over which the
-- iterative walk of `_require_string_keys` is the recursion below.
pub mod Utf8
pub mod Acceptance
pub mod Binding
use provable_agent_reference.Base.{
  ℕ, ◌≡◌, Bool, true, false, ◌&&◌, ◌||◌, String, Option, none, some, List, [], ◌∷◌, ◌<>◌, count,
  all_chars, after_first, prefix_of, nat_eq, leb,
}
use provable_agent_reference.Errors.{
  Result, ok, err, type_error, value_error, index_error, recursion_error, ◌>>=◌, ◌>>◌,
}
use provable_agent_reference.Json.{
  Key, text_key, other_key, Unserializable, non_finite, unsupported, oversized, too_deep, Value,
  Items, Fields, null, bool, int, str, arr, obj, other, nil, cons, end, field,
}
use provable_agent_reference.Json.Order.{sort_keys}
use provable_agent_reference.Json.Print.{print}
use provable_agent_reference.Canonical.Utf8.{encode}

abbrev pub is_hex_char : ℕ → Bool
is_hex_char c = (leb b'0' c && leb c b'9') || (leb b'a' c && leb c b'f')

abbrev pub is_hex64 : String → Bool
is_hex64 s = nat_eq (count s) 64 && all_chars is_hex_char s

-- `hashlib.sha256(data).hexdigest()`: a function of the bytes into 64 lower-case hexadecimal digits.
pub record Sha256 : Type 0 where
  pub hexdigest : List ℕ → String
  pub hex : (data_bytes : List ℕ) → is_hex64 (hexdigest data_bytes) ≡ true

require_key : Key → Result (Unit {0})
require_key (text_key k) = ok tt
require_key (other_key t) = err type_error ("canonical JSON object keys must be strings, not " <> t)

unfoldable mutual
  unfolding require_key

  pub require_string_keys : Value → Result (Unit {0})
  require_string_keys (arr vs) = require_items vs
  require_string_keys (obj fs) = require_fields fs
  require_string_keys _ = ok tt

  pub require_items : Items → Result (Unit {0})
  require_items nil = ok tt
  require_items (cons v vs) = require_string_keys v >> require_items vs

  -- A key is tested before its value is yielded to the walk.
  pub require_fields : Fields → Result (Unit {0})
  require_fields end = ok tt
  require_fields (field k v fs) = require_key k >> (require_string_keys v >> require_fields fs)

-- What `json.dumps` raises on a value that is no JSON.
refuse : Unserializable → Result (Unit {0})
refuse non_finite = err value_error "Out of range float values are not JSON compliant"
refuse oversized = err value_error "Exceeds the limit (4300 digits) for integer string conversion"
refuse too_deep = err recursion_error "maximum recursion depth exceeded"
refuse (unsupported t) = err type_error ("Object of type " <> t <> " is not JSON serializable")

-- The refusals of json.dumps. Integers that Python does not write and containers beyond its recursion
-- limit are `other` values.
unfoldable mutual
  unfolding refuse

  pub serializable : Value → Result (Unit {0})
  serializable (arr vs) = serializable_items vs
  serializable (obj fs) = serializable_fields fs
  serializable (other u) = refuse u
  serializable _ = ok tt

  pub serializable_items : Items → Result (Unit {0})
  serializable_items nil = ok tt
  serializable_items (cons v vs) = serializable v >> serializable_items vs

  pub serializable_fields : Fields → Result (Unit {0})
  serializable_fields end = ok tt
  serializable_fields (field k v fs) = serializable v >> serializable_fields fs

-- The text, as its code points.
unfoldable pub canonical_json : Value → Result (List ℕ)
canonical_json v = do
  require_string_keys v
  let sorted = sort_keys v
  serializable sorted
  ok (print sorted [])

-- The argument of `sha256_uri`: bytes, or a value to serialize.
pub data Hashable : Type 0 where
  bytes : List ℕ → Hashable
  value : Value → Hashable

-- Behind an index: the exception where it is out of range.
abbrev item_of : Option String → Result String
item_of none = err index_error "list index out of range"
item_of (some s) = ok s

module _ ⦃H : Sha256⦄ where
  unfoldable pub sha256_uri : Hashable → Result String
  sha256_uri (bytes b) = ok ("sha256:" <> H.hexdigest b)
  sha256_uri (value v) = do text ← canonical_json v; ok ("sha256:" <> H.hexdigest (encode text))

  -- `prefix + sha256_uri(value).split(":", 1)[1][:24]`
  unfoldable pub short_id : String → Value → Result String
  short_id prefix v = do
    uri ← sha256_uri (value v)
    hex_part ← item_of (after_first b':' uri)
    ok (prefix <> prefix_of 24 hex_part)
