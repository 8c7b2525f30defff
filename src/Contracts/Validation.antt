-- ===== src/Contracts/Validation.antt =====
-- The validators of src/provable_agent_reference/contracts.py and its constants.
use provable_agent_reference.Base.{
  ℕ, String, Bool, false, ◌&&◌, ◌||◌, not, Option, none, some, List, [], ◌∷◌, ◌==◌, ◌<>◌, leb,
  nat_eq, count, is_empty, all_chars, strip_prefix, set_of, length, show, code, if◌then◌else◌,
}
use provable_agent_reference.Errors.{Result, ok, err, contract_error, key_error, require_that}
use provable_agent_reference.Canonical.{is_hex64}

abbrev pub is_lower : ℕ → Bool
is_lower c = leb b'a' c && leb c b'z'

-- `[a-z0-9_.-]`
abbrev pub is_identifier_char : ℕ → Bool
is_identifier_char c =
    is_lower c || (leb b'0' c && leb c b'9') || nat_eq c b'_' || nat_eq c b'.' || nat_eq c b'-'

-- `_IDENTIFIER.fullmatch`: `[a-z][a-z0-9_.-]{2,127}`
abbrev pub is_identifier : String → Bool
is_identifier String.[] = false
is_identifier (String.◌∷◌ c s) =
    is_lower (code c) && all_chars is_identifier_char s && leb 2 (count s) && leb (count s) 127

abbrev is_hash_of : Option String → Bool
is_hash_of none = false
is_hash_of (some rest) = is_hex64 rest

-- `_HASH.fullmatch`: `sha256:[0-9a-f]{64}`
abbrev pub is_hash_uri : String → Bool
is_hash_uri s = is_hash_of (strip_prefix "sha256:" s)

-- Between 1 and `maximum` characters.
abbrev pub is_bounded : String → ℕ → Bool
is_bounded s maximum = not (is_empty s) && leb (count s) maximum

abbrev pub is_unique : List String → Bool
is_unique xs = nat_eq (length xs) (length (set_of xs))

unfoldable pub identifier : String → String → Result (Unit {0})
identifier s name =
    require_that (is_identifier s) contract_error (name <> " is not a valid identifier")

unfoldable pub hash_uri : String → String → Result (Unit {0})
hash_uri s name = require_that (is_hash_uri s) contract_error (name <> " is not a valid sha256 URI")

unfoldable pub bounded : String → String → ℕ → Result (Unit {0})
bounded s name maximum =
    require_that (is_bounded s maximum) contract_error
      (name <> " must contain between 1 and " <> show maximum <> " characters")

-- The result is `tuple(values)`, the same list.
unfoldable pub unique : List String → String → Result (Unit {0})
unique xs name = require_that (is_unique xs) contract_error (name <> " must not contain duplicates")

-- `CLASSIFICATION_ORDER[c]`: a class that is not in the table is a KeyError.
unfoldable pub classification_order : String → Result ℕ
classification_order c =
    if c == "public"
    then ok 0
    else if c == "internal"
    then ok 1
    else if c == "confidential"
    then ok 2
    else if c == "restricted"
    then ok 3
    else if c == "regulated"
    then ok 4
    else err key_error c

abbrev pub sensitive_categories : List String
sensitive_categories =
    "secret" ∷ "credential" ∷ "authentication_token" ∷ "private_key" ∷ "raw_prompt"
    ∷ "system_prompt" ∷ "raw_tool_input" ∷ "raw_tool_output" ∷ "raw_evidence" ∷ "pii" ∷ "phi"
    ∷ "payment_data" ∷ []
