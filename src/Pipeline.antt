-- ===== src/Pipeline.antt =====
-- src/provable_agent_reference/pipeline.py: the whole chain from a draft to an audited result.
pub mod Returned
pub mod Completion
use provable_agent_reference.Base.{String, Bool, List}
use provable_agent_reference.Errors.{Result, ok, ◌>>=◌, ◌>>◌}
use provable_agent_reference.Canonical.{Sha256}
use provable_agent_reference.Compiler.{TrustedCompiler, trusted_compiler, compile}
use provable_agent_reference.Verifier.{DeterministicVerifier, deterministic_verifier, verify}
use provable_agent_reference.Approvals.{record_approval, default_rationale}
use provable_agent_reference.Authorization.{authorize_exact_use, expected_output}
use provable_agent_reference.Audit.{build_audit_manifest, verify_audit_manifest}
use provable_agent_reference.Contracts.TrustedRunContext.{TrustedRunContext}
use provable_agent_reference.Contracts.SemanticDraft.{SemanticDraft}
use provable_agent_reference.Contracts.EvidenceBundle.{EvidenceBundle}
use provable_agent_reference.Contracts.CanonicalCandidate.{CanonicalCandidate}
use provable_agent_reference.Contracts.VerificationResult.{VerificationResult}
use provable_agent_reference.Contracts.ApprovalRecord.{ApprovalRecord}
use provable_agent_reference.Contracts.AuthorizationResult.{AuthorizationResult}
use provable_agent_reference.Contracts.AuditManifest.{AuditManifest}

pub record PipelineResult : Type 0 where
  pub candidate : CanonicalCandidate
  pub verification : VerificationResult
  pub approval : ApprovalRecord
  pub authorization : AuthorizationResult
  pub audit_manifest : AuditManifest
  pub audit_valid : Bool
  pub audit_errors : List String

pub record ProvableAgentPipeline : Type 0 where
  pub compiler : TrustedCompiler
  pub verifier : DeterministicVerifier

abbrev pub provable_agent_pipeline : ProvableAgentPipeline
provable_agent_pipeline = record { compiler = trusted_compiler; verifier = deterministic_verifier }

unfoldable pub run :
    ⦃H : Sha256⦄
    → ProvableAgentPipeline
    → TrustedRunContext
    → SemanticDraft
    → EvidenceBundle
    → String
    → Result PipelineResult
run pipeline context draft bundle approver_id = do
  candidate ← compile pipeline.compiler context draft bundle
  verification ← verify pipeline.verifier candidate bundle
  approval ← record_approval candidate verification approver_id "approved" default_rationale
  authorization ←
      authorize_exact_use candidate approval context.purpose context.audience
        (expected_output candidate)
  manifest ← build_audit_manifest candidate verification approval authorization
  audit ← verify_audit_manifest manifest candidate verification approval authorization
  ok (record {
    candidate = candidate;
    verification = verification;
    approval = approval;
    authorization = authorization;
    audit_manifest = manifest;
    audit_valid = audit.0;
    audit_errors = audit.1;
  })
