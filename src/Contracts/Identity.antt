-- ===== src/Contracts/Identity.antt =====
-- The hashes and identifiers that the code derives, under the validators of the contracts.
use provable_agent_reference.Base.{
  ℕ, ◌≡◌, refl, String, true, ◌<>◌, arith, nat_eq, nat_eq_iff, count, code, all_chars, prefix_of,
  count-prefix_of, all_chars-prefix_of, &&-intro, &&-eq-true,
}
use provable_agent_reference.Json.{Value}
use provable_agent_reference.Canonical.{Sha256, is_hex_char}
use provable_agent_reference.Canonical.Binding.{digest, uri}
use provable_agent_reference.Contracts.Validation.{is_identifier, is_identifier_char, is_hash_uri}

hex-identifier : (c : ℕ) → is_hex_char c ≡ true → is_identifier_char c ≡ true
hex-identifier c h = ground arith

all_chars-identifier :
    (s : String) → all_chars is_hex_char s ≡ true → all_chars is_identifier_char s ≡ true
all_chars-identifier String.[] h = refl
all_chars-identifier (String.◌∷◌ c s) h =
    let p = &&-eq-true {a = is_hex_char (code c)} {b = all_chars is_hex_char s} h in
    &&-intro (hex-identifier (code c) p.0) (all_chars-identifier s p.1)

module _ ⦃H : Sha256⦄ (v : Value) where
  pub uri-IsHash : is_hash_uri (uri v) ≡ true
  uri-IsHash = H.hex _

  count-short : count (prefix_of 24 (digest v)) ≡ 24
  count-short =
      let hex = &&-eq-true {a = nat_eq (count (digest v)) 64} (H.hex _) in
      let long = (nat_eq_iff (count (digest v)) 64).0 hex.0 in
      omega (arith, count-prefix_of 24 (digest v))

  short-chars : all_chars is_identifier_char (prefix_of 24 (digest v)) ≡ true
  short-chars =
      let hex = &&-eq-true {a = nat_eq (count (digest v)) 64} (H.hex _) in
      all_chars-identifier (prefix_of 24 (digest v))
        (all_chars-prefix_of is_hex_char 24 (digest v) hex.1)

  pub candidate_id-IsIdentifier : is_identifier ("candidate_" <> prefix_of 24 (digest v)) ≡ true
  candidate_id-IsIdentifier = rw short-chars (rw count-short)

  pub verification_id-IsIdentifier :
      is_identifier ("verification_" <> prefix_of 24 (digest v)) ≡ true
  verification_id-IsIdentifier = rw short-chars (rw count-short)
