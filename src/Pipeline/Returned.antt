-- ===== src/Pipeline/Returned.antt =====
-- The result of a run whose inputs meet every condition.
use text.Mathlib.TextPositions.{eq_refl}
use provable_agent_reference.Base.{◌≡◌, refl, ap, ◌∙◌, inl, String, true, false, [], is_empty}
use provable_agent_reference.Errors.{ok}
use provable_agent_reference.Canonical.{Sha256}
use provable_agent_reference.Contracts.Identity.{candidate_id-IsIdentifier, uri-IsHash}
use provable_agent_reference.Contracts.TrustedRunContext
use provable_agent_reference.Contracts.TrustedRunContext.{TrustedRunContext}
use provable_agent_reference.Contracts.SemanticDraft.{SemanticDraft}
use provable_agent_reference.Contracts.EvidenceRecord.{EvidenceRecord}
use provable_agent_reference.Contracts.EvidenceBundle
use provable_agent_reference.Contracts.EvidenceBundle.{EvidenceBundle}
use provable_agent_reference.Contracts.EvidenceBundle.Lookup.{
  IsConstructed, post_init-IsConstructed, find-evidence_id, require-scope,
}
use provable_agent_reference.Contracts.CanonicalCandidate.{CanonicalCandidate}
use provable_agent_reference.Contracts.VerificationResult.{VerificationResult}
use provable_agent_reference.Contracts.ApprovalRecord.{ApprovalRecord}
use provable_agent_reference.Contracts.AuthorizationResult.{AuthorizationResult}
use provable_agent_reference.Compiler.{trusted_compiler, candidate_identity}
use provable_agent_reference.Compiler.Acceptance.{IsCompilable, compiled, compile-ok}
use provable_agent_reference.Verifier.{deterministic_verifier}
use provable_agent_reference.Verifier.Returned.{IsVerifiable, verified, verify-ok}
use provable_agent_reference.Verifier.Status.{IsSafe, IsSound, verify_pass_iff}
use provable_agent_reference.Approvals.{record_approval, default_rationale}
use provable_agent_reference.Approvals.Guards.{recorded, record_approval-ok}
use provable_agent_reference.Authorization.{expected_output, exact_scope, authorize_exact_use}
use provable_agent_reference.Authorization.ExactUse.{py_eq-expected_output, expected_output-IsDict}
use provable_agent_reference.Authorization.Guards.{authorization, authorize-ok}
use provable_agent_reference.Audit.Chain.{expected_output-json}
use provable_agent_reference.Audit.Honest.{built, build_audit_manifest-eq, honest_chain_audits}
use provable_agent_reference.Pipeline.{PipelineResult, provable_agent_pipeline, run}

module _ ⦃H : Sha256⦄ (context : TrustedRunContext) (draft : SemanticDraft)
    (bundle : EvidenceBundle) (evidence : EvidenceRecord) where
  abbrev candidate : CanonicalCandidate
  candidate = compiled trusted_compiler context draft bundle evidence

  pub candidate-IsSound :
      IsConstructed bundle
      → IsCompilable context draft bundle evidence
      → IsSafe candidate
      → IsSound candidate bundle
  candidate-IsSound b k safe =
      let (tenant, case_scope) = require-scope bundle draft.selected_evidence_id b k.found in
      record {
        hash_valid = refl;
        bundle_named = refl;
        bundle_hashed = b.hashed;
        resolved =
            ap (EvidenceBundle.require bundle)
              (find-evidence_id draft.selected_evidence_id bundle.records k.found)
            ∙ k.found;
        evidence_tenant = tenant ∙ k.tenant;
        evidence_case = case_scope ∙ k.case_scope;
        bundle_tenant = k.tenant;
        bundle_case = k.case_scope;
        disclosed = safe;
      }

  pub candidate-IsVerifiable :
      TrustedRunContext.post_init context ≡ ok tt → IsVerifiable deterministic_verifier candidate
  candidate-IsVerifiable c = record {
    candidate_id_valid =
        candidate_id-IsIdentifier (candidate_identity trusted_compiler context draft bundle);
    candidate_hash_valid = uri-IsHash _;
    verifier_id_valid = refl;
    version_valid = refl;
    created_at_valid = TrustedRunContext.post_init-created_at context c;
  }

module _ ⦃H : Sha256⦄ (context : TrustedRunContext) (draft : SemanticDraft)
    (bundle : EvidenceBundle) (evidence : EvidenceRecord) (approver_id : String) where
  abbrev pub made : CanonicalCandidate
  made = compiled trusted_compiler context draft bundle evidence

  abbrev pub checked : VerificationResult
  checked = verified deterministic_verifier made bundle

  abbrev pub decided : ApprovalRecord
  decided = recorded made checked approver_id "approved" default_rationale

  abbrev pub granted : AuthorizationResult
  granted = authorization made decided context.purpose context.audience (expected_output made)

  abbrev pub result : PipelineResult
  result = record {
    candidate = made;
    verification = checked;
    approval = decided;
    authorization = granted;
    audit_manifest = built made checked decided granted;
    audit_valid = true;
    audit_errors = [];
  }

  pub granted-authorized : granted.authorized ≡ true
  unfolding exact_scope
  granted-authorized =
      rw (eq_refl context.purpose) (rw (eq_refl context.audience) (py_eq-expected_output made))

  pub approves :
      checked.status ≡ "pass"
      → is_empty approver_id ≡ false
      → record_approval made checked approver_id "approved" default_rationale ≡ ok decided
  approves passed given =
      record_approval-ok made checked approver_id "approved" default_rationale (record {
        candidate_hashed = refl;
        same_id = refl;
        same_hash = refl;
        verification_hashed = refl;
        status_true = refl;
        approvable = inl passed;
        supported = refl;
        approver_given = given;
      })

  pub authorizes :
      authorize_exact_use made decided context.purpose context.audience (expected_output made)
      ≡ ok granted
  authorizes =
      authorize-ok made decided context.purpose context.audience (expected_output made) (record {
        candidate_hashed = refl;
        approved = refl;
        approval_hashed = refl;
        same_id = refl;
        same_hash = refl;
        serializable = expected_output-json made;
      })

  pub checked-passed :
      TrustedRunContext.post_init context ≡ ok tt
      → EvidenceBundle.post_init bundle ≡ ok tt
      → IsCompilable context draft bundle evidence
      → IsSafe made
      → checked.status ≡ "pass"
  checked-passed ctx b k safe =
      let verifies =
        verify-ok deterministic_verifier made bundle
          (candidate-IsVerifiable context draft bundle evidence ctx) in
      (verify_pass_iff made bundle deterministic_verifier verifies).1
        (candidate-IsSound context draft bundle evidence (post_init-IsConstructed bundle b) k safe)

  pub run-result :
      TrustedRunContext.post_init context ≡ ok tt
      → EvidenceBundle.post_init bundle ≡ ok tt
      → IsCompilable context draft bundle evidence
      → IsSafe made
      → is_empty approver_id ≡ false
      → run provable_agent_pipeline context draft bundle approver_id ≡ ok result
  unfolding run
  run-result ctx b k safe given =
      let verifies =
        verify-ok deterministic_verifier made bundle
          (candidate-IsVerifiable context draft bundle evidence ctx) in
      let approval = approves (checked-passed ctx b k safe) given in
      let builds = build_audit_manifest-eq made checked decided granted in
      let audits =
        honest_chain_audits made checked approver_id "approved" default_rationale context.purpose
          context.audience (expected_output made) (expected_output-IsDict made) approval authorizes
          builds in
      rw (compile-ok trusted_compiler context draft bundle k)
        (rw verifies (rw approval (rw authorizes (rw builds (rw audits)))))
