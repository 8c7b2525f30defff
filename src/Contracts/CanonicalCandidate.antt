-- ===== src/Contracts/CanonicalCandidate.antt =====
-- The class CanonicalCandidate of src/provable_agent_reference/contracts.py.
use provable_agent_reference.Base.{String, Bool, ◌≡◌, true, ◌==◌, List}
use provable_agent_reference.Errors.{Result, ok, ◌>>=◌}
use provable_agent_reference.Json.{
  Value, Fields, str, bool, arr, obj, end, ◌⇒◌⨾◌, texts, texts-json, is_json, all_json,
}
use provable_agent_reference.Canonical.{Sha256, sha256_uri, value}
use provable_agent_reference.Canonical.Binding.{uri, sha256_uri-ok}
use provable_agent_reference.Contracts.TrustedRunContext
use provable_agent_reference.Contracts.TrustedRunContext.{TrustedRunContext}
use provable_agent_reference.Contracts.EvidenceRecord
use provable_agent_reference.Contracts.EvidenceRecord.{EvidenceRecord}

pub record CanonicalCandidate : Type 0 where
  pub schema_version : String
  pub candidate_id : String
  pub compiler_id : String
  pub compiler_version : String
  pub run_context : TrustedRunContext
  pub claim_id : String
  pub claim_text : String
  pub evidence : EvidenceRecord
  pub evidence_bundle_hash : String
  pub limitations : List String
  pub assurance_statement : String
  pub content_categories : List String
  pub redacted : Bool
  pub created_at : String
  pub candidate_hash : String

-- The entries of `payload`, in front of those that `to_dict` adds.
abbrev entries : CanonicalCandidate → Fields → Fields
entries c rest =
    "schema_version"
    ⇒ str c.schema_version ⨾ "candidate_id"
    ⇒ str c.candidate_id ⨾ "compiler_id"
    ⇒ str c.compiler_id ⨾ "compiler_version"
    ⇒ str c.compiler_version ⨾ "run_context"
    ⇒ TrustedRunContext.to_dict c.run_context ⨾ "claim_id"
    ⇒ str c.claim_id ⨾ "claim_text"
    ⇒ str c.claim_text ⨾ "evidence"
    ⇒ EvidenceRecord.to_dict c.evidence ⨾ "evidence_bundle_hash"
    ⇒ str c.evidence_bundle_hash ⨾ "limitations"
    ⇒ arr (texts c.limitations) ⨾ "assurance_statement"
    ⇒ str c.assurance_statement ⨾ "content_categories"
    ⇒ arr (texts c.content_categories) ⨾ "redacted"
    ⇒ bool c.redacted ⨾ "created_at"
    ⇒ str c.created_at ⨾ rest

abbrev pub payload : CanonicalCandidate → Value
payload c = obj (entries c end)

abbrev pub to_dict : CanonicalCandidate → Value
to_dict c = obj (entries c ("candidate_hash" ⇒ str c.candidate_hash ⨾ end))

unfoldable pub verify_hash : ⦃H : Sha256⦄ → CanonicalCandidate → Result Bool
verify_hash c = do expected ← sha256_uri (value (payload c)); ok (c.candidate_hash == expected)

pub payload-json : (c : CanonicalCandidate) → is_json (payload c) ≡ true
unfolding is_json all_json
payload-json c = rw (texts-json c.limitations) (rw (texts-json c.content_categories))

pub verify_hash-eq :
    ⦃H : Sha256⦄ (c : CanonicalCandidate) → verify_hash c ≡ ok (c.candidate_hash == uri (payload c))
unfolding verify_hash
verify_hash-eq c = rw (sha256_uri-ok (payload c) (payload-json c))
