-- ===== src/Contracts/Binding.antt =====
-- Records that have the hashes of their payloads, by their hashes.
use provable_agent_reference.Base.{◌≡◌, sym, ◌∙◌, ◌⊎◌, inl, inr, String, true}
use provable_agent_reference.Json.{Value, is_json}
use provable_agent_reference.Json.Order.{sort_keys}
use provable_agent_reference.Canonical.{Sha256}
use provable_agent_reference.Canonical.Binding.{Collision, canonical_bytes, uri, uri-binds}
use provable_agent_reference.Contracts.CanonicalCandidate
use provable_agent_reference.Contracts.CanonicalCandidate.{CanonicalCandidate}
use provable_agent_reference.Contracts.VerificationResult
use provable_agent_reference.Contracts.VerificationResult.{VerificationResult}
use provable_agent_reference.Contracts.ApprovalRecord
use provable_agent_reference.Contracts.ApprovalRecord.{ApprovalRecord}
use provable_agent_reference.Contracts.AuthorizationResult
use provable_agent_reference.Contracts.AuthorizationResult.{AuthorizationResult}
use provable_agent_reference.Contracts.AuditManifest
use provable_agent_reference.Contracts.AuditManifest.{AuditManifest}
use provable_agent_reference.Contracts.Forms.{
  candidate-fields, verification-fields, approval-fields, authorization-fields, manifest-fields,
}

-- A kind of record that is hashed by its payload, which determines it together with the hash.
pub record Hashed (A : Type 0) : Type 0 where
  pub payload : A → Value
  pub hash : A → String
  pub json : (a : A) → is_json (payload a) ≡ true
  pub determined :
      (a b : A) → sort_keys (payload a) ≡ sort_keys (payload b) → hash a ≡ hash b → a ≡ b

abbrev pub candidate_hashed : Hashed CanonicalCandidate
candidate_hashed = record {
  payload = CanonicalCandidate.payload;
  hash = λ c. c.candidate_hash;
  json = CanonicalCandidate.payload-json;
  determined = candidate-fields;
}

abbrev pub verification_hashed : Hashed VerificationResult
verification_hashed = record {
  payload = VerificationResult.payload;
  hash = λ v. v.result_hash;
  json = VerificationResult.payload-json;
  determined = verification-fields;
}

abbrev pub approval_hashed : Hashed ApprovalRecord
approval_hashed = record {
  payload = ApprovalRecord.payload;
  hash = λ a. a.record_hash;
  json = ApprovalRecord.payload-json;
  determined = approval-fields;
}

abbrev pub authorization_hashed : Hashed AuthorizationResult
authorization_hashed = record {
  payload = AuthorizationResult.payload;
  hash = λ z. z.record_hash;
  json = AuthorizationResult.payload-json;
  determined = authorization-fields;
}

abbrev pub manifest_hashed : Hashed AuditManifest
manifest_hashed = record {
  payload = AuditManifest.payload;
  hash = λ m. m.manifest_hash;
  json = AuditManifest.payload-json;
  determined = manifest-fields;
}

pub record-binds :
    ⦃H : Sha256⦄ {A : Type 0} (k : Hashed A) (a b : A)
    → k.hash a ≡ uri (k.payload a)
    → k.hash b ≡ uri (k.payload b)
    → k.hash a ≡ k.hash b
    → (a ≡ b) ⊎ Collision H (canonical_bytes (k.payload a)) (canonical_bytes (k.payload b))
record-binds k a b ha hb e =
    elim (uri-binds (k.payload a) (k.payload b) (k.json a) (k.json b) (sym ha ∙ e ∙ hb)) [
      | inl same ↦ inl (k.determined a b same e)
      | inr c ↦ inr c
    ]
