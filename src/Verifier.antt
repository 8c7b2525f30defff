-- ===== src/Verifier.antt =====
-- src/provable_agent_reference/verification.py: the deterministic verifier of a candidate.
pub mod Returned
pub mod Status
use provable_agent_reference.Base.{
  String, Bool, true, false, not, ◌&&◌, ◌||◌, ◌==◌, List, [], ◌∷◌, any, is_nil, member,
  if◌then◌else◌,
}
use provable_agent_reference.Errors.{Result, ok, err, ◌>>=◌, ◌>>◌}
use provable_agent_reference.Json.{Value, str, arr, obj, end, ◌⇒◌⨾◌}
use provable_agent_reference.Canonical.{Sha256, sha256_uri, short_id, value}
use provable_agent_reference.Compiler.{zero_hash}
use provable_agent_reference.Contracts.Validation.{sensitive_categories}
use provable_agent_reference.Contracts.EvidenceRecord.{EvidenceRecord, same_record}
use provable_agent_reference.Contracts.EvidenceBundle
use provable_agent_reference.Contracts.EvidenceBundle.{EvidenceBundle}
use provable_agent_reference.Contracts.CanonicalCandidate
use provable_agent_reference.Contracts.CanonicalCandidate.{CanonicalCandidate}
use provable_agent_reference.Contracts.VerificationFinding
use provable_agent_reference.Contracts.VerificationFinding.{
  VerificationFinding, finding_dicts, status_of,
}
use provable_agent_reference.Contracts.VerificationResult
use provable_agent_reference.Contracts.VerificationResult.{VerificationResult}

pub record DeterministicVerifier : Type 0 where
  pub verifier_id : String
  pub verifier_version : String

abbrev pub deterministic_verifier : DeterministicVerifier
deterministic_verifier = record {
  verifier_id = "provable_agent_reference.verifier";
  verifier_version = "0.1.0";
}

-- `evidence == candidate.evidence`, and False where `require` raises.
abbrev pub evidence_present : CanonicalCandidate → Result EvidenceRecord → Bool
evidence_present candidate (ok evidence) = same_record evidence candidate.evidence
evidence_present candidate (err e m) = false

unfoldable pub scope_matches : CanonicalCandidate → EvidenceBundle → Bool
scope_matches c b =
    c.evidence.tenant_id == c.run_context.tenant_id
    && c.evidence.case_id == c.run_context.case_id
    && b.tenant_id == c.run_context.tenant_id
    && b.case_id == c.run_context.case_id

-- No sensitive category among the candidate's, or redaction.
unfoldable pub disclosure_safe : CanonicalCandidate → Bool
disclosure_safe c =
    not (any (λ category. member category sensitive_categories) c.content_categories) || c.redacted

abbrev pub finding : String → String → Bool → String → Result VerificationFinding
finding code severity passed message =
    VerificationFinding.make
      (record { code = code; severity = severity; passed = passed; message = message })

abbrev pub result_identity :
    DeterministicVerifier → CanonicalCandidate → List VerificationFinding → Value
result_identity verifier candidate findings = obj (
    "candidate_hash"
    ⇒ str candidate.candidate_hash ⨾ "verifier_id"
    ⇒ str verifier.verifier_id ⨾ "verifier_version"
    ⇒ str verifier.verifier_version ⨾ "findings"
    ⇒ arr (finding_dicts findings) ⨾ end)

abbrev pub provisional :
    DeterministicVerifier
    → CanonicalCandidate
    → List VerificationFinding
    → String
    → VerificationResult
provisional verifier candidate findings result_id = record {
  result_id = result_id;
  candidate_id = candidate.candidate_id;
  candidate_hash = candidate.candidate_hash;
  verifier_id = verifier.verifier_id;
  verifier_version = verifier.verifier_version;
  status = status_of findings;
  findings = findings;
  evaluated_at = candidate.created_at;
  result_hash = zero_hash;
}

module _ ⦃H : Sha256⦄ where
  -- The candidate names this bundle, and the bundle has the hash of its contents.
  unfoldable pub bundle_bound : CanonicalCandidate → EvidenceBundle → Result Bool
  bundle_bound candidate bundle =
      if candidate.evidence_bundle_hash == bundle.bundle_hash
      then (EvidenceBundle.compute_hash bundle >>= λ computed. ok (computed == bundle.bundle_hash))
      else ok false

  unfoldable pub findings_of :
      CanonicalCandidate → EvidenceBundle → Result (List VerificationFinding)
  findings_of candidate bundle = do
    hash_valid ← CanonicalCandidate.verify_hash candidate
    f₁ ←
        finding "CANDIDATE_HASH_VALID" "error" hash_valid
          "Canonical candidate hash must match its deterministic payload."
    bound ← bundle_bound candidate bundle
    f₂ ←
        finding "EVIDENCE_BUNDLE_BOUND" "error" bound
          "Candidate must bind the exact authorized evidence bundle."
    f₃ ←
        finding "EVIDENCE_REFERENCE_VALID" "error"
          (evidence_present candidate
            (EvidenceBundle.require bundle candidate.evidence.evidence_id))
          "Candidate evidence must resolve exactly in the authorized bundle."
    f₄ ←
        finding "SCOPE_MATCH" "error" (scope_matches candidate bundle)
          "Run, evidence, and bundle scopes must match."
    f₅ ←
        finding "DISCLOSURE_SAFE" "error" (disclosure_safe candidate)
          "Sensitive categories require explicit redaction intent."
    f₆ ←
        finding "LIMITATION_PRESENT" "warning" (not (is_nil candidate.limitations))
          "Consequential outputs must state at least one limitation."
    ok (f₁ ∷ f₂ ∷ f₃ ∷ f₄ ∷ f₅ ∷ f₆ ∷ [])

  -- The second construction validates the record again, with its hash.
  unfoldable pub verify :
      DeterministicVerifier → CanonicalCandidate → EvidenceBundle → Result VerificationResult
  verify verifier candidate bundle = do
    findings ← findings_of candidate bundle
    result_id ← short_id "verification_" (result_identity verifier candidate findings)
    result ← VerificationResult.make (provisional verifier candidate findings result_id)
    result_hash ← sha256_uri (value (VerificationResult.payload result))
    VerificationResult.make (record result { result_hash = result_hash })
