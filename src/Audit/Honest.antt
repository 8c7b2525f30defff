-- ===== src/Audit/Honest.antt =====
-- The audit of what the package's own operations produce.
use provable_agent_reference.Base.{
  ◌≡◌, refl, sym, ap, ◌∙◌, inl, inr, String, true, [], ◌<>◌, prefix_of,
}
use provable_agent_reference.Errors.{ok, ok-injective}
use provable_agent_reference.Json.{Value, is_json}
use provable_agent_reference.Canonical.{Sha256}
use provable_agent_reference.Canonical.Binding.{digest, uri, sha256_uri-ok, short_id-ok}
use provable_agent_reference.Contracts.CanonicalCandidate.{CanonicalCandidate}
use provable_agent_reference.Contracts.VerificationResult.{VerificationResult}
use provable_agent_reference.Contracts.ApprovalRecord.{ApprovalRecord}
use provable_agent_reference.Contracts.AuthorizationResult.{AuthorizationResult}
use provable_agent_reference.Contracts.AuditManifest
use provable_agent_reference.Contracts.AuditManifest.{AuditManifest}
use provable_agent_reference.Approvals.{record_approval}
use provable_agent_reference.Approvals.Guards.{record_approval-inv}
use provable_agent_reference.Authorization.{authorize_exact_use}
use provable_agent_reference.Authorization.ExactUse.{IsDict}
use provable_agent_reference.Authorization.Guards.{authorize-inv}
use provable_agent_reference.Authorization.Scope.{authorized_exact}
use provable_agent_reference.Audit.{
  manifest_identity, provisional, build_audit_manifest, verify_audit_manifest,
}
use provable_agent_reference.Audit.Chain.{IsChain, verify_audit_manifest_iff}

module _ ⦃H : Sha256⦄ (c : CanonicalCandidate) (v : VerificationResult) (a : ApprovalRecord)
    (z : AuthorizationResult) where
  abbrev unhashed : AuditManifest
  unhashed = provisional c v a z ("audit_" <> prefix_of 24 (digest (manifest_identity c v a z)))

  abbrev pub built : AuditManifest
  built = record unhashed { manifest_hash = uri (AuditManifest.payload unhashed) }

  pub build_audit_manifest-eq : build_audit_manifest c v a z ≡ ok built
  unfolding build_audit_manifest
  build_audit_manifest-eq =
      rw (short_id-ok "audit_" (manifest_identity c v a z) (unfold is_json in refl))
        (rw (sha256_uri-ok _ (AuditManifest.payload-json unhashed)))

module _ ⦃H : Sha256⦄ (c : CanonicalCandidate) (v : VerificationResult)
    (approver_id decision rationale purpose audience : String) (output : Value) {a : ApprovalRecord}
    {z : AuthorizationResult} where
  pub honest-IsChain :
      IsDict output
      → record_approval c v approver_id decision rationale ≡ ok a
      → authorize_exact_use c a purpose audience output ≡ ok z
      → IsChain (built c v a z) c v a z
  honest-IsChain d approves authorizes =
      let (g, ea) = record_approval-inv c v approver_id decision rationale approves in
      let (k, ez) = authorize-inv c a purpose audience output authorizes in
      let exact = authorized_exact c a purpose audience output d authorizes in
      record {
        candidate_hashed = g.candidate_hashed;
        verification_hashed = g.verification_hashed;
        approval_hashed = k.approval_hashed;
        authorization_hashed = rw ez refl;
        manifest_hashed = refl;
        manifest_candidate = refl;
        manifest_verification = refl;
        manifest_approval = refl;
        manifest_authorization = refl;
        verification_candidate = g.same_hash;
        verification_id = g.same_id;
        status_true = g.status_true;
        approval_candidate = k.same_hash;
        approval_id = k.same_id;
        approval_verification = ap (λ x. x.verification_result_hash) ea;
        approved_passed = λ e. elim g.approvable [
          | inl passed ↦ passed
          | inr other ↦ absurd (other (sym (ap (λ x. x.decision) ea) ∙ e))
        ];
        authorization_candidate = ap (λ x. x.candidate_hash) ez;
        authorization_id = ap (λ x. x.candidate_id) ez;
        authorization_approval = ap (λ x. x.approval_id) ez;
        authorized_approved = λ granted. k.approved;
        authorized_purpose = λ granted. (exact granted).0;
        authorized_audience = λ granted. (exact granted).1;
        authorized_output = λ granted. (exact granted).2;
        reason_true = rw ez refl;
      }

  -- A manifest built over an approval and an authorization that the package recorded, for
  -- whatever purpose, audience and output dict, granted or denied, passes the audit.
  pub honest_chain_audits :
      {m : AuditManifest}
      → IsDict output
      → record_approval c v approver_id decision rationale ≡ ok a
      → authorize_exact_use c a purpose audience output ≡ ok z
      → build_audit_manifest c v a z ≡ ok m
      → verify_audit_manifest m c v a z ≡ ok (true, [])
  honest_chain_audits d approves authorizes builds =
      rw (← ok-injective (sym (build_audit_manifest-eq c v a z) ∙ builds)) (
        (verify_audit_manifest_iff (built c v a z) c v a z).1
          (honest-IsChain d approves authorizes))
