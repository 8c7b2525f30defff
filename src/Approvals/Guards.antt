-- ===== src/Approvals/Guards.antt =====
-- When a decision is recorded, and what the record says.
use provable_agent_reference.Base.{
  ◌≡◌, ◌≢◌, ◌↔◌, refl, sym, ◌∙◌, ◌⊎◌, String, true, false, not, ◌&&◌, ◌==◌, ◌<>◌, eq_iff, prefix_of,
  is_empty, member, arith, &&-eq-true, &&-intro,
}
use provable_agent_reference.Errors.{
  ok, approval_error, raise_if, require_that, >>-eq-ok, ok-injective, raise_if-ok, require_that-ok,
}
use provable_agent_reference.Json.{is_json}
use provable_agent_reference.Canonical.{Sha256}
use provable_agent_reference.Canonical.Binding.{digest, uri, sha256_uri-ok, short_id-ok}
use provable_agent_reference.Contracts.CanonicalCandidate
use provable_agent_reference.Contracts.CanonicalCandidate.{CanonicalCandidate}
use provable_agent_reference.Contracts.VerificationFinding.{status_of}
use provable_agent_reference.Contracts.VerificationResult
use provable_agent_reference.Contracts.VerificationResult.{VerificationResult}
use provable_agent_reference.Contracts.ApprovalRecord
use provable_agent_reference.Contracts.ApprovalRecord.{ApprovalRecord}
use provable_agent_reference.Approvals.{decisions, approval_identity, provisional, record_approval}

-- The candidate and the verification have their hashes, belong together, and bear the decision.
pub record IsDecidable ⦃H : Sha256⦄ (c : CanonicalCandidate) (v : VerificationResult)
    (approver_id decision : String) : Type 0 where
  pub candidate_hashed : c.candidate_hash ≡ uri (CanonicalCandidate.payload c)
  pub same_id : v.candidate_id ≡ c.candidate_id
  pub same_hash : v.candidate_hash ≡ c.candidate_hash
  pub verification_hashed : v.result_hash ≡ uri (VerificationResult.payload v)
  pub status_true : v.status ≡ status_of v.findings
  pub approvable : (v.status ≡ "pass") ⊎ (decision ≢ "approved")
  pub supported : member decision decisions ≡ true
  pub approver_given : is_empty approver_id ≡ false

approvable_iff :
    (status decision : String)
    → ((not (status == "pass") && decision == "approved") ≡ false)
      ↔ ((status ≡ "pass") ⊎ (decision ≢ "approved"))
approvable_iff status decision = ground (arith, eq_iff status "pass", eq_iff decision "approved")

module _ ⦃H : Sha256⦄ (c : CanonicalCandidate) (v : VerificationResult)
    (approver_id decision rationale : String) where
  abbrev pub unhashed : ApprovalRecord
  unhashed =
      provisional c v approver_id decision rationale
        ("approval_" <> prefix_of 24 (digest (approval_identity c v approver_id decision)))

  abbrev pub recorded : ApprovalRecord
  recorded = record unhashed { record_hash = uri (ApprovalRecord.payload unhashed) }

  pub record_approval-ok :
      IsDecidable c v approver_id decision
      → record_approval c v approver_id decision rationale ≡ ok recorded
  unfolding record_approval VerificationResult.status_matches_findings
  record_approval-ok d = rw (CanonicalCandidate.verify_hash-eq c) (
      rw ((eq_iff _ _).1 d.candidate_hashed) (
        rw (&&-intro ((eq_iff _ _).1 d.same_id) ((eq_iff _ _).1 d.same_hash)) (
          rw (VerificationResult.verify_hash-eq v) (
            rw ((eq_iff _ _).1 d.verification_hashed) (
              rw ((eq_iff _ _).1 d.status_true) (
                rw ((approvable_iff v.status decision).1 d.approvable) (
                  rw d.supported (
                    rw d.approver_given (
                      rw
                        (short_id-ok "approval_" (approval_identity c v approver_id decision)
                          (unfold is_json in refl))
                        (rw (sha256_uri-ok _ (ApprovalRecord.payload-json unhashed))))))))))))

  pub record_approval-inv :
      {a : ApprovalRecord}
      → record_approval c v approver_id decision rationale ≡ ok a
      → IsDecidable c v approver_id decision × (a ≡ recorded)
  unfolding record_approval VerificationResult.status_matches_findings
  record_approval-inv h =
      let h₀ = rw (CanonicalCandidate.verify_hash-eq c) at h in
      let (g₁, h₁) =
        >>-eq-ok
          (require_that (c.candidate_hash == uri (CanonicalCandidate.payload c)) approval_error _) _
          h₀ in
      let bound = v.candidate_id == c.candidate_id && v.candidate_hash == c.candidate_hash in
      let (g₂, h₂) = >>-eq-ok (require_that bound approval_error _) _ h₁ in
      let h₃ = rw (VerificationResult.verify_hash-eq v) at h₂ in
      let (g₃, h₄) =
        >>-eq-ok
          (require_that (v.result_hash == uri (VerificationResult.payload v)) approval_error _) _
          h₃ in
      let (g₄, h₅) =
        >>-eq-ok (require_that (v.status == status_of v.findings) approval_error _) _ h₄ in
      let (g₅, h₆) =
        >>-eq-ok (raise_if (not (v.status == "pass") && decision == "approved") approval_error _) _
          h₅ in
      let (g₆, h₇) = >>-eq-ok (require_that (member decision decisions) approval_error _) _ h₆ in
      let (g₇, h₈) = >>-eq-ok (raise_if (is_empty approver_id) approval_error _) _ h₇ in
      let (same_id, same_hash) = &&-eq-true (require_that-ok bound _ _ g₂) in
      let d : IsDecidable c v approver_id decision = record {
        candidate_hashed = (eq_iff _ _).0 (require_that-ok _ _ _ g₁);
        same_id = (eq_iff _ _).0 same_id;
        same_hash = (eq_iff _ _).0 same_hash;
        verification_hashed = (eq_iff _ _).0 (require_that-ok _ _ _ g₃);
        status_true = (eq_iff _ _).0 (require_that-ok _ _ _ g₄);
        approvable = (approvable_iff v.status decision).0 (raise_if-ok _ _ _ g₅);
        supported = require_that-ok _ _ _ g₆;
        approver_given = raise_if-ok _ _ _ g₇;
      } in
      (d, ok-injective (sym h ∙ unfold record_approval in record_approval-ok d))

  -- A decision is recorded exactly when the candidate and the verification have the hashes of
  -- their payloads, the verification is of this candidate and its status is that of its
  -- findings, the decision is a supported one and approves no failed verification, and an
  -- approver is named.
  pub record_approval-returns_iff :
      ((a : ApprovalRecord) × (record_approval c v approver_id decision rationale ≡ ok a))
      ↔ IsDecidable c v approver_id decision
  record_approval-returns_iff =
      (λ (a, h). (record_approval-inv h).0, λ d. (recorded, record_approval-ok d))
