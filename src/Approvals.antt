-- ===== src/Approvals.antt =====
-- src/provable_agent_reference/approvals.py: recording an accountable human decision.
pub mod Guards
use provable_agent_reference.Base.{
  String, Bool, true, not, ◌&&◌, ◌||◌, ◌==◌, List, [], ◌∷◌, is_empty, member,
}
use provable_agent_reference.Errors.{
  Result, ok, approval_error, raise_if, require_that, ◌>>=◌, ◌>>◌,
}
use provable_agent_reference.Json.{Value, str, obj, end, ◌⇒◌⨾◌}
use provable_agent_reference.Canonical.{Sha256, sha256_uri, short_id, value}
use provable_agent_reference.Compiler.{zero_hash}
use provable_agent_reference.Contracts.CanonicalCandidate
use provable_agent_reference.Contracts.CanonicalCandidate.{CanonicalCandidate}
use provable_agent_reference.Contracts.VerificationResult
use provable_agent_reference.Contracts.VerificationResult.{VerificationResult}
use provable_agent_reference.Contracts.ApprovalRecord
use provable_agent_reference.Contracts.ApprovalRecord.{ApprovalRecord}

abbrev pub decisions : List String
decisions = "approved" ∷ "rejected" ∷ "changes_requested" ∷ []

abbrev pub default_rationale : String
default_rationale = "Verified candidate approved for the requested exact use."

abbrev pub approval_identity : CanonicalCandidate → VerificationResult → String → String → Value
approval_identity candidate verification approver_id decision = obj (
    "candidate_hash"
    ⇒ str candidate.candidate_hash ⨾ "verification_hash"
    ⇒ str verification.result_hash ⨾ "approver_id"
    ⇒ str approver_id ⨾ "decision"
    ⇒ str decision ⨾ end)

abbrev pub provisional :
    CanonicalCandidate → VerificationResult → String → String → String → String → ApprovalRecord
provisional candidate verification approver_id decision rationale approval_id = record {
  approval_id = approval_id;
  candidate_id = candidate.candidate_id;
  candidate_hash = candidate.candidate_hash;
  verification_result_hash = verification.result_hash;
  decision = decision;
  approver_id = approver_id;
  rationale = rationale;
  decided_at = verification.evaluated_at;
  record_hash = zero_hash;
}

module _ ⦃H : Sha256⦄ where
  unfoldable pub record_approval :
      CanonicalCandidate → VerificationResult → String → String → String → Result ApprovalRecord
  record_approval candidate verification approver_id decision rationale = do
    candidate_valid ← CanonicalCandidate.verify_hash candidate
    require_that candidate_valid approval_error "candidate hash is invalid"
    require_that
        (verification.candidate_id == candidate.candidate_id
          && verification.candidate_hash == candidate.candidate_hash)
        approval_error "verification is bound to a different candidate"
    verification_valid ← VerificationResult.verify_hash verification
    require_that verification_valid approval_error "verification record hash is invalid"
    require_that (VerificationResult.status_matches_findings verification) approval_error
        "verification status does not match its findings"
    raise_if (not (verification.status == "pass") && decision == "approved") approval_error
        "a failed candidate cannot be approved"
    require_that (member decision decisions) approval_error "unsupported approval decision"
    raise_if (is_empty approver_id) approval_error "approver_id is required"
    approval_id ←
        short_id "approval_" (approval_identity candidate verification approver_id decision)
    let approval = provisional candidate verification approver_id decision rationale approval_id
    record_hash ← sha256_uri (value (ApprovalRecord.payload approval))
    ok (record approval { record_hash = record_hash })
