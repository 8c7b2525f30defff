-- ===== src/Compiler.antt =====
-- src/provable_agent_reference/compiler.py: the trusted compiler of a draft into a candidate.
pub mod Acceptance
use provable_agent_reference.Base.{String, Bool, true, ◌&&◌, ◌==◌, List, [], ◌∷◌, ltb}
use provable_agent_reference.Errors.{
  Result, ok, compilation_error, raise_if, require_that, ◌>>=◌, ◌>>◌,
}
use provable_agent_reference.Json.{Value, str, obj, end, ◌⇒◌⨾◌}
use provable_agent_reference.Canonical.{Sha256, sha256_uri, short_id, value}
use provable_agent_reference.Contracts.Validation.{classification_order}
use provable_agent_reference.Contracts.TrustedRunContext.{TrustedRunContext}
use provable_agent_reference.Contracts.SemanticDraft
use provable_agent_reference.Contracts.SemanticDraft.{SemanticDraft}
use provable_agent_reference.Contracts.EvidenceRecord.{EvidenceRecord}
use provable_agent_reference.Contracts.EvidenceBundle
use provable_agent_reference.Contracts.EvidenceBundle.{EvidenceBundle}
use provable_agent_reference.Contracts.CanonicalCandidate
use provable_agent_reference.Contracts.CanonicalCandidate.{CanonicalCandidate}

pub record TrustedCompiler : Type 0 where
  pub compiler_id : String
  pub compiler_version : String

abbrev pub trusted_compiler : TrustedCompiler
trusted_compiler = record {
  compiler_id = "provable_agent_reference.compiler";
  compiler_version = "0.1.0";
}

-- `"sha256:" + "0" * 64`, the hash of a record that is not hashed yet.
abbrev pub zero_hash : String
zero_hash = "sha256:0000000000000000000000000000000000000000000000000000000000000000"

abbrev pub claim_identity : TrustedRunContext → SemanticDraft → EvidenceRecord → Value
claim_identity context draft evidence = obj (
    "run_id"
    ⇒ str context.run_id ⨾ "claim_text"
    ⇒ str draft.claim_text ⨾ "evidence_id"
    ⇒ str evidence.evidence_id ⨾ end)

abbrev pub candidate_identity :
    TrustedCompiler → TrustedRunContext → SemanticDraft → EvidenceBundle → Value
candidate_identity compiler context draft bundle = obj (
    "run_id"
    ⇒ str context.run_id ⨾ "draft"
    ⇒ SemanticDraft.to_dict draft ⨾ "bundle_hash"
    ⇒ str bundle.bundle_hash ⨾ "compiler_version"
    ⇒ str compiler.compiler_version ⨾ end)

-- The candidate before its hash is computed.
abbrev pub provisional :
    TrustedCompiler
    → TrustedRunContext
    → SemanticDraft
    → EvidenceBundle
    → EvidenceRecord
    → String
    → String
    → CanonicalCandidate
provisional compiler context draft bundle evidence claim_id candidate_id = record {
  schema_version = "0.1";
  candidate_id = candidate_id;
  compiler_id = compiler.compiler_id;
  compiler_version = compiler.compiler_version;
  run_context = context;
  claim_id = claim_id;
  claim_text = draft.claim_text;
  evidence = evidence;
  evidence_bundle_hash = bundle.bundle_hash;
  limitations = draft.limitations;
  assurance_statement = draft.assurance_statement;
  content_categories = draft.content_categories;
  redacted = draft.redacted;
  created_at = context.created_at;
  candidate_hash = zero_hash;
}

module _ ⦃H : Sha256⦄ where
  unfoldable pub compile :
      TrustedCompiler
      → TrustedRunContext
      → SemanticDraft
      → EvidenceBundle
      → Result CanonicalCandidate
  compile compiler context draft bundle = do
    require_that (bundle.tenant_id == context.tenant_id && bundle.case_id == context.case_id)
        compilation_error "evidence bundle is outside the trusted run scope"
    evidence ← EvidenceBundle.require bundle draft.selected_evidence_id
    evidence_class ← classification_order evidence.classification
    ceiling ← classification_order context.classification
    raise_if (ltb ceiling evidence_class) compilation_error
        "evidence classification exceeds the trusted context ceiling"
    claim_id ← short_id "claim_" (claim_identity context draft evidence)
    candidate_id ← short_id "candidate_" (candidate_identity compiler context draft bundle)
    let candidate = provisional compiler context draft bundle evidence claim_id candidate_id
    candidate_hash ← sha256_uri (value (CanonicalCandidate.payload candidate))
    ok (record candidate { candidate_hash = candidate_hash })
