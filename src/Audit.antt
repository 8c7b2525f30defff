-- ===== src/Audit.antt =====
-- src/provable_agent_reference/audit.py: the audit manifest of a chain, and its verification.
pub mod Chain
pub mod Tamper
pub mod Honest
use provable_agent_reference.Base.{
  String, Bool, true, false, not, ◌&&◌, ◌||◌, ◌==◌, List, [], ◌∷◌, is_nil, if◌then◌else◌,
}
use provable_agent_reference.Errors.{Result, ok, ◌>>=◌, ◌>>◌}
use provable_agent_reference.Json.{Value, str, obj, end, ◌⇒◌⨾◌}
use provable_agent_reference.Canonical.{Sha256, sha256_uri, short_id, value}
use provable_agent_reference.Compiler.{zero_hash}
use provable_agent_reference.Authorization.{expected_output, reason_of}
use provable_agent_reference.Contracts.CanonicalCandidate
use provable_agent_reference.Contracts.CanonicalCandidate.{CanonicalCandidate}
use provable_agent_reference.Contracts.VerificationResult
use provable_agent_reference.Contracts.VerificationResult.{VerificationResult}
use provable_agent_reference.Contracts.ApprovalRecord
use provable_agent_reference.Contracts.ApprovalRecord.{ApprovalRecord}
use provable_agent_reference.Contracts.AuthorizationResult
use provable_agent_reference.Contracts.AuthorizationResult.{AuthorizationResult}
use provable_agent_reference.Contracts.AuditManifest
use provable_agent_reference.Contracts.AuditManifest.{AuditManifest}

abbrev pub manifest_identity :
    CanonicalCandidate → VerificationResult → ApprovalRecord → AuthorizationResult → Value
manifest_identity candidate verification approval authorization = obj (
    "candidate_hash"
    ⇒ str candidate.candidate_hash ⨾ "verification_hash"
    ⇒ str verification.result_hash ⨾ "approval_hash"
    ⇒ str approval.record_hash ⨾ "authorization_hash"
    ⇒ str authorization.record_hash ⨾ end)

abbrev pub provisional :
    CanonicalCandidate
    → VerificationResult
    → ApprovalRecord
    → AuthorizationResult
    → String
    → AuditManifest
provisional candidate verification approval authorization manifest_id = record {
  manifest_id = manifest_id;
  candidate_hash = candidate.candidate_hash;
  verification_result_hash = verification.result_hash;
  approval_record_hash = approval.record_hash;
  authorization_record_hash = authorization.record_hash;
  generated_at = authorization.authorized_at;
  manifest_hash = zero_hash;
}

-- The messages of the tests that come out true, in order: `if test: errors.append(message)`.
abbrev pub collect : List (Bool × String) → List String
collect [] = []
collect ((test, message) ∷ rest) = let more = collect rest in if test then message ∷ more else more

-- Which of the five hashes are the hashes of their records, and whether the authorized output
-- is the approved one.
pub record Recomputed : Type 0 where
  pub candidate_valid : Bool
  pub verification_valid : Bool
  pub approval_valid : Bool
  pub authorization_valid : Bool
  pub manifest_valid : Bool
  pub output_mismatch : Bool

abbrev pub tests :
    AuditManifest
    → CanonicalCandidate
    → VerificationResult
    → ApprovalRecord
    → AuthorizationResult
    → Recomputed
    → List (Bool × String)
tests m c v a z r =
    (not r.candidate_valid, "candidate_hash_invalid")
    ∷ (not r.verification_valid, "verification_hash_invalid")
    ∷ (not r.approval_valid, "approval_hash_invalid")
    ∷ (not r.authorization_valid, "authorization_hash_invalid")
    ∷ (not r.manifest_valid, "manifest_hash_invalid")
    ∷ (not (m.candidate_hash == c.candidate_hash), "candidate_binding_mismatch")
    ∷ (not (m.verification_result_hash == v.result_hash), "verification_binding_mismatch")
    ∷ (not (m.approval_record_hash == a.record_hash), "approval_binding_mismatch")
    ∷ (not (m.authorization_record_hash == z.record_hash), "authorization_binding_mismatch")
    ∷ (not (v.candidate_hash == c.candidate_hash), "verification_candidate_mismatch")
    ∷ (not (v.candidate_id == c.candidate_id), "verification_candidate_id_mismatch")
    ∷ (not (VerificationResult.status_matches_findings v), "verification_status_mismatch")
    ∷ (not (a.candidate_hash == c.candidate_hash), "approval_candidate_mismatch")
    ∷ (not (a.candidate_id == c.candidate_id), "approval_candidate_id_mismatch")
    ∷ (not (a.verification_result_hash == v.result_hash), "approval_verification_mismatch")
    ∷ (
      a.decision == "approved" && not (v.status == "pass"),
      "approval_verification_status_mismatch",
    )
    ∷ (not (z.candidate_hash == c.candidate_hash), "authorization_candidate_mismatch")
    ∷ (not (z.candidate_id == c.candidate_id), "authorization_candidate_id_mismatch")
    ∷ (not (z.approval_id == a.approval_id), "authorization_approval_mismatch")
    ∷ (z.authorized && not (a.decision == "approved"), "authorization_approval_decision_mismatch")
    ∷ (
      z.authorized
          && (not (z.purpose == c.run_context.purpose)
              || not (z.audience == c.run_context.audience)),
      "authorization_scope_mismatch",
    )
    ∷ (r.output_mismatch, "authorization_output_mismatch")
    ∷ (not (z.reason == reason_of z.authorized), "authorization_reason_mismatch")
    ∷ []

module _ ⦃H : Sha256⦄ where
  unfoldable pub build_audit_manifest :
      CanonicalCandidate
      → VerificationResult
      → ApprovalRecord
      → AuthorizationResult
      → Result AuditManifest
  build_audit_manifest candidate verification approval authorization = do
    manifest_id ←
        short_id "audit_" (manifest_identity candidate verification approval authorization)
    let manifest = provisional candidate verification approval authorization manifest_id
    manifest_hash ← sha256_uri (value (AuditManifest.payload manifest))
    ok (record manifest { manifest_hash = manifest_hash })

  unfoldable pub approved_output_hash : CanonicalCandidate → Result String
  approved_output_hash candidate = sha256_uri (value (expected_output candidate))

  -- `authorization.authorized and authorization.output_hash != _approved_output_hash(candidate)`
  unfoldable pub output_mismatch : AuthorizationResult → CanonicalCandidate → Result Bool
  output_mismatch authorization candidate =
      if authorization.authorized
      then (approved_output_hash candidate >>= λ approved.
          ok (not (authorization.output_hash == approved)))
      else ok false

  unfoldable pub verify_audit_manifest :
      AuditManifest
      → CanonicalCandidate
      → VerificationResult
      → ApprovalRecord
      → AuthorizationResult
      → Result (Bool × List String)
  verify_audit_manifest manifest candidate verification approval authorization = do
    candidate_valid ← CanonicalCandidate.verify_hash candidate
    verification_valid ← VerificationResult.verify_hash verification
    approval_valid ← ApprovalRecord.verify_hash approval
    authorization_valid ← AuthorizationResult.verify_hash authorization
    manifest_valid ← AuditManifest.verify_hash manifest
    mismatch ← output_mismatch authorization candidate
    let errors = collect (
        tests manifest candidate verification approval authorization (record {
          candidate_valid = candidate_valid;
          verification_valid = verification_valid;
          approval_valid = approval_valid;
          authorization_valid = authorization_valid;
          manifest_valid = manifest_valid;
          output_mismatch = mismatch;
        }))
    ok (is_nil errors, errors)
