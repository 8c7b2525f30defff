-- ===== src/Canonical/Binding.antt =====
-- What a content hash binds. SHA-256 is not injective, so where two given inputs share a digest, either
-- they are the same or these two are a `Collision`.
use native.Mathlib.Decide.{ℕ_discrete}
use mathlib.Core.Option.{some-injective}
use provable_agent_reference.Base.{
  ◌≡◌, ◌≢◌, sym, ap, ◌∙◌, ◌⊎◌, inl, inr, true, String, List, [], ℕ, ◌<>◌, prefix_of, strip_prefix,
}
use provable_agent_reference.Errors.{ok, >>=-eq-ok, ok-injective}
use provable_agent_reference.Json.{Value, is_json}
use provable_agent_reference.Json.Order.{sort_keys}
use provable_agent_reference.Json.Print.{print}
use provable_agent_reference.Json.Injective.{print-injective}
use provable_agent_reference.Canonical.{Sha256, canonical_json, sha256_uri, short_id, value}
use provable_agent_reference.Canonical.Utf8.{encode, encode-injective}
use provable_agent_reference.Canonical.Acceptance.{
  canonical_json-ok, canonical_json-accepts, is_json-sort_keys,
}

text_discrete : Discrete (List ℕ)
text_discrete = hlevel ℕ_discrete

-- These two inputs differ and have one digest.
pub record Collision (H : Sha256) (left right : List ℕ) : Type 0 where
  pub differ : left ≢ right
  pub agree : H.hexdigest left ≡ H.hexdigest right

-- The digest of a value that `canonical_json` accepts, and its URI.
module _ ⦃H : Sha256⦄ where
  -- The bytes of the canonical text.
  abbrev pub canonical_bytes : Value → List ℕ
  canonical_bytes v = encode (print (sort_keys v) [])

  abbrev pub digest : Value → String
  digest v = H.hexdigest (canonical_bytes v)

  abbrev pub uri : Value → String
  uri v = "sha256:" <> digest v

  pub sha256_uri-ok : (v : Value) → is_json v ≡ true → sha256_uri (value v) ≡ ok (uri v)
  unfolding sha256_uri
  sha256_uri-ok v h = rw (canonical_json-ok v h)

  pub short_id-ok :
      (prefix : String) (v : Value)
      → is_json v ≡ true
      → short_id prefix v ≡ ok (prefix <> prefix_of 24 (digest v))
  unfolding short_id
  short_id-ok prefix v h = rw (sha256_uri-ok v h)

  pub hexdigest-binds : (s t : List ℕ) → H.hexdigest s ≡ H.hexdigest t → (s ≡ t) ⊎ Collision H s t
  hexdigest-binds s t h = elim (text_discrete s t) [
    | yes e ↦ inl e
    | no ne ↦ inr (record { differ = ne; agree = h })
  ]

  pub digest-binds :
      (v w : Value)
      → is_json v ≡ true
      → is_json w ≡ true
      → digest v ≡ digest w
      → (sort_keys v ≡ sort_keys w) ⊎ Collision H (canonical_bytes v) (canonical_bytes w)
  digest-binds v w jv jw h = elim (hexdigest-binds _ _ h) [
    | inl e ↦ inl (
        print-injective (sort_keys v) (sort_keys w) (is_json-sort_keys v ∙ jv)
          (is_json-sort_keys w ∙ jw) (encode-injective _ _ e))
    | inr c ↦ inr c
  ]

  pub uri-binds :
      (v w : Value)
      → is_json v ≡ true
      → is_json w ≡ true
      → uri v ≡ uri w
      → (sort_keys v ≡ sort_keys w) ⊎ Collision H (canonical_bytes v) (canonical_bytes w)
  uri-binds v w jv jw h =
      digest-binds v w jv jw (some-injective _ _ (ap (strip_prefix "sha256:") h))

  pub sha256_uri-accepts : (v : Value) {u : String} → sha256_uri (value v) ≡ ok u → is_json v ≡ true
  unfolding sha256_uri
  sha256_uri-accepts v h =
      let (text, accepted, rest) = >>=-eq-ok (canonical_json v) _ h in
      (canonical_json-accepts v accepted).0

-- Two values with one canonical text are the same value once their dicts are sorted by key.
pub canonical_json-injective :
    (v w : Value) {t : List ℕ}
    → canonical_json v ≡ ok t
    → canonical_json w ≡ ok t
    → sort_keys v ≡ sort_keys w
canonical_json-injective v w hv hw =
    let (jv, ev) = canonical_json-accepts v hv in
    let (jw, ew) = canonical_json-accepts w hw in
    print-injective (sort_keys v) (sort_keys w) (is_json-sort_keys v ∙ jv)
      (is_json-sort_keys w ∙ jw) (sym ev ∙ ew)

-- Two values with one content hash are the same value once their dicts are sorted by key, or
-- their two canonical texts differ and have one digest.
pub sha256_uri-binds :
    ⦃H : Sha256⦄ (v w : Value) {u : String}
    → sha256_uri (value v) ≡ ok u
    → sha256_uri (value w) ≡ ok u
    → (sort_keys v ≡ sort_keys w) ⊎ Collision H (canonical_bytes v) (canonical_bytes w)
sha256_uri-binds v w hv hw =
    let jv = sha256_uri-accepts v hv in
    let jw = sha256_uri-accepts w hw in
    uri-binds v w jv jw (ok-injective (sym (sha256_uri-ok v jv) ∙ hv ∙ sym hw ∙ sha256_uri-ok w jw))
