-- ===== src/Authorization.antt =====
-- src/provable_agent_reference/authorization.py: authorizing one exact use of an approved candidate.
pub mod ExactUse
pub mod Guards
pub mod Scope
use provable_agent_reference.Base.{String, Bool, true, ◌&&◌, ◌==◌, if◌then◌else◌}
use provable_agent_reference.Errors.{Result, ok, authorization_error, require_that, ◌>>=◌, ◌>>◌}
use provable_agent_reference.Json.{Value, str, bool, arr, obj, end, ◌⇒◌⨾◌, texts}
use provable_agent_reference.Json.Equality.{py_eq}
use provable_agent_reference.Canonical.{Sha256, sha256_uri, short_id, value}
use provable_agent_reference.Compiler.{zero_hash}
use provable_agent_reference.Contracts.CanonicalCandidate
use provable_agent_reference.Contracts.CanonicalCandidate.{CanonicalCandidate}
use provable_agent_reference.Contracts.ApprovalRecord
use provable_agent_reference.Contracts.ApprovalRecord.{ApprovalRecord}
use provable_agent_reference.Contracts.AuthorizationResult
use provable_agent_reference.Contracts.AuthorizationResult.{AuthorizationResult}

-- The one output that the candidate stands for.
abbrev pub expected_output : CanonicalCandidate → Value
expected_output candidate = obj (
    "assurance_statement"
    ⇒ str candidate.assurance_statement ⨾ "limitations"
    ⇒ arr (texts candidate.limitations) ⨾ end)

abbrev pub reason_of : Bool → String
reason_of authorized = if authorized then "EXACT_USE_AUTHORIZED" else "EXACT_USE_MISMATCH"

unfoldable pub exact_scope : CanonicalCandidate → String → String → Value → Bool
exact_scope candidate purpose audience output =
    purpose == candidate.run_context.purpose
    && audience == candidate.run_context.audience
    && py_eq output (expected_output candidate)

abbrev pub authorization_identity :
    CanonicalCandidate → ApprovalRecord → String → String → String → Value
authorization_identity candidate approval purpose audience output_hash = obj (
    "candidate_hash"
    ⇒ str candidate.candidate_hash ⨾ "approval_id"
    ⇒ str approval.approval_id ⨾ "purpose"
    ⇒ str purpose ⨾ "audience"
    ⇒ str audience ⨾ "output_hash"
    ⇒ str output_hash ⨾ end)

abbrev pub provisional :
    CanonicalCandidate
    → ApprovalRecord
    → String
    → String
    → String
    → Bool
    → String
    → AuthorizationResult
provisional candidate approval purpose audience output_hash exact authorization_id = record {
  authorization_id = authorization_id;
  candidate_id = candidate.candidate_id;
  candidate_hash = candidate.candidate_hash;
  approval_id = approval.approval_id;
  purpose = purpose;
  audience = audience;
  output_hash = output_hash;
  authorized = exact;
  reason = reason_of exact;
  authorized_at = approval.decided_at;
  record_hash = zero_hash;
}

module _ ⦃H : Sha256⦄ where
  unfoldable pub authorize_exact_use :
      CanonicalCandidate → ApprovalRecord → String → String → Value → Result AuthorizationResult
  authorize_exact_use candidate approval purpose audience output = do
    candidate_valid ← CanonicalCandidate.verify_hash candidate
    require_that candidate_valid authorization_error "candidate hash is invalid"
    require_that (approval.decision == "approved") authorization_error
        "candidate does not have an approved decision"
    approval_valid ← ApprovalRecord.verify_hash approval
    require_that approval_valid authorization_error "approval record hash is invalid"
    require_that
        (approval.candidate_id == candidate.candidate_id
          && approval.candidate_hash == candidate.candidate_hash)
        authorization_error "approval is bound to a different candidate"
    let exact = exact_scope candidate purpose audience output
    output_hash ← sha256_uri (value output)
    authorization_id ←
        short_id "authorization_"
          (authorization_identity candidate approval purpose audience output_hash)
    let authorization =
        provisional candidate approval purpose audience output_hash exact authorization_id
    record_hash ← sha256_uri (value (AuthorizationResult.payload authorization))
    ok (record authorization { record_hash = record_hash })
