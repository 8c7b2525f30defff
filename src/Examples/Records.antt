-- ===== src/Examples/Records.antt =====
-- The theorems about single operations at the concrete records.
use provable_agent_reference.Base.{◌≡◌, refl, ◌↔◌, ◌⊎◌, inr, true, []}
use provable_agent_reference.Errors.{ok}
use provable_agent_reference.Json.{Value, obj, bool, int, pos, end, ◌⇒◌⨾◌}
use provable_agent_reference.Json.Order.{sort_keys}
use provable_agent_reference.Json.Print.{print}
use provable_agent_reference.Canonical.{
  canonical_json, sha256_uri, require_string_keys, serializable,
}
use provable_agent_reference.Canonical.Utf8.{encode, encode_char}
use provable_agent_reference.Canonical.Binding.{
  Collision, canonical_bytes, uri, canonical_json-injective, sha256_uri-binds,
}
use provable_agent_reference.Contracts.EvidenceRecord.{EvidenceRecord}
use provable_agent_reference.Contracts.CanonicalCandidate.{CanonicalCandidate}
use provable_agent_reference.Contracts.ApprovalRecord.{ApprovalRecord}
use provable_agent_reference.Compiler.{trusted_compiler, compile}
use provable_agent_reference.Compiler.Acceptance.{IsCompilable, compile-returns_iff}
use provable_agent_reference.Verifier.{deterministic_verifier, verify}
use provable_agent_reference.Verifier.Returned.{verify-ok}
use provable_agent_reference.Verifier.Status.{IsSound, verify_pass_iff}
use provable_agent_reference.Approvals.{record_approval, default_rationale}
use provable_agent_reference.Approvals.Guards.{IsDecidable, record_approval-returns_iff}
use provable_agent_reference.Authorization.{authorize_exact_use, expected_output}
use provable_agent_reference.Authorization.ExactUse.{expected_output-IsDict}
use provable_agent_reference.Authorization.Scope.{authorized_exact}
use provable_agent_reference.Audit.{verify_audit_manifest}
use provable_agent_reference.Audit.Chain.{IsChain, verify_audit_manifest_iff}
use provable_agent_reference.Audit.Tamper.{Chain, ChainCollision, Audited-binds}
use provable_agent_reference.Audit.Honest.{
  honest_chain_audits, honest-IsChain, build_audit_manifest-eq,
}
use provable_agent_reference.Pipeline.Returned.{
  approves, authorizes, granted-authorized, checked-passed, candidate-IsVerifiable,
}
use provable_agent_reference.Examples.Data.{
  toy, context, draft, bundle, evidence, completed, context_constructed, bundle_constructed,
  draft-IsCompilable,
}

compile-returns_iff_example :
    ((candidate : CanonicalCandidate) × (compile trusted_compiler context draft bundle
        ≡ ok candidate))
    ↔ ((e : EvidenceRecord) × IsCompilable context draft bundle e)
compile-returns_iff_example = compile-returns_iff trusted_compiler context draft bundle

verify-ok_example :
    verify deterministic_verifier completed.candidate bundle ≡ ok completed.verification
verify-ok_example =
    verify-ok deterministic_verifier completed.candidate bundle
      (candidate-IsVerifiable context draft bundle evidence context_constructed)

verify_pass_iff_example :
    (completed.verification.status ≡ "pass") ↔ IsSound completed.candidate bundle
verify_pass_iff_example = verify_pass_iff completed.candidate bundle deterministic_verifier (
    verify-ok deterministic_verifier completed.candidate bundle
      (candidate-IsVerifiable context draft bundle evidence context_constructed))

record_approval-returns_iff_example :
    ((a : ApprovalRecord) × (record_approval completed.candidate completed.verification "approver_1"
          "rejected" "No."
        ≡ ok a))
    ↔ IsDecidable completed.candidate completed.verification "approver_1" "rejected"
record_approval-returns_iff_example =
    record_approval-returns_iff completed.candidate completed.verification "approver_1" "rejected"
      "No."

approves_lem :
    record_approval completed.candidate completed.verification "approver_1" "approved"
      default_rationale
    ≡ ok completed.approval
approves_lem =
    approves context draft bundle evidence "approver_1"
      (checked-passed context draft bundle evidence "approver_1" context_constructed
        bundle_constructed draft-IsCompilable (inr refl))
      refl

authorizes_lem :
    authorize_exact_use completed.candidate completed.approval context.purpose context.audience
      (expected_output completed.candidate)
    ≡ ok completed.authorization
authorizes_lem = authorizes context draft bundle evidence "approver_1"

authorized_exact_example :
    (completed.authorization.purpose ≡ "Prepare a statement.")
    × (completed.authorization.audience ≡ "reviewer")
    × (completed.authorization.output_hash ≡ uri (expected_output completed.candidate))
    × (completed.approval.decision ≡ "approved")
    × (completed.approval.candidate_hash ≡ completed.candidate.candidate_hash)
authorized_exact_example =
    authorized_exact completed.candidate completed.approval context.purpose context.audience
      (expected_output completed.candidate) (expected_output-IsDict completed.candidate)
      authorizes_lem (granted-authorized context draft bundle evidence "approver_1")

audits :
    verify_audit_manifest completed.audit_manifest completed.candidate completed.verification
      completed.approval completed.authorization
    ≡ ok (true, [])
audits =
    (verify_audit_manifest_iff completed.audit_manifest completed.candidate completed.verification
        completed.approval completed.authorization).1
      (honest-IsChain completed.candidate completed.verification "approver_1" "approved"
        default_rationale context.purpose context.audience (expected_output completed.candidate)
        (expected_output-IsDict completed.candidate) approves_lem authorizes_lem)

honest_chain_audits_example :
    verify_audit_manifest completed.audit_manifest completed.candidate completed.verification
      completed.approval completed.authorization
    ≡ ok (true, [])
honest_chain_audits_example =
    honest_chain_audits completed.candidate completed.verification "approver_1" "approved"
      default_rationale context.purpose context.audience (expected_output completed.candidate)
      (expected_output-IsDict completed.candidate) approves_lem authorizes_lem
      (build_audit_manifest-eq completed.candidate completed.verification completed.approval
        completed.authorization)

verify_audit_manifest_iff_example :
    (verify_audit_manifest completed.audit_manifest completed.candidate completed.verification
        completed.approval completed.authorization
      ≡ ok (true, []))
    ↔ IsChain completed.audit_manifest completed.candidate completed.verification completed.approval
        completed.authorization
verify_audit_manifest_iff_example =
    verify_audit_manifest_iff completed.audit_manifest completed.candidate completed.verification
      completed.approval completed.authorization

abbrev chain : Chain
chain = record {
  manifest = completed.audit_manifest;
  candidate = completed.candidate;
  verification = completed.verification;
  approval = completed.approval;
  authorization = completed.authorization;
}

Audited-binds_example : (chain ≡ chain) ⊎ ChainCollision chain chain
Audited-binds_example = Audited-binds chain chain audits audits refl

-- One dict, written in two orders.
abbrev straight : Value
straight = obj ("a" ⇒ bool true ⨾ "b" ⇒ int (pos 12) ⨾ end)

abbrev swapped : Value
swapped = obj ("b" ⇒ int (pos 12) ⨾ "a" ⇒ bool true ⨾ end)

canonical_json-injective_example : sort_keys straight ≡ sort_keys swapped
unfolding canonical_json require_string_keys serializable print sort_keys
canonical_json-injective_example = canonical_json-injective straight swapped refl refl

sha256_uri-binds_example :
    (sort_keys straight ≡ sort_keys swapped)
    ⊎ Collision toy (canonical_bytes straight) (canonical_bytes swapped)
unfolding sha256_uri canonical_json require_string_keys serializable print sort_keys encode
    encode_char
sha256_uri-binds_example = sha256_uri-binds straight swapped refl refl
