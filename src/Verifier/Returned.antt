-- ===== src/Verifier/Returned.antt =====
-- The findings of a verification, its status, and the result that is returned.
use provable_agent_reference.Base.{
  ◌≡◌, refl, String, Bool, true, not, ◌&&◌, ◌==◌, ◌<>◌, prefix_of, List, [], ◌∷◌, is_nil,
  Bool-cases, inl, inr,
}
use provable_agent_reference.Errors.{ok, >>=-eq-ok}
use provable_agent_reference.Json.{is_json, all_json}
use provable_agent_reference.Canonical.{Sha256}
use provable_agent_reference.Canonical.Binding.{digest, uri, sha256_uri-ok, short_id-ok}
use provable_agent_reference.Contracts.Validation.{bounded, is_identifier, is_hash_uri, is_bounded}
use provable_agent_reference.Contracts.Identity.{uri-IsHash, verification_id-IsIdentifier}
use provable_agent_reference.Contracts.EvidenceBundle
use provable_agent_reference.Contracts.EvidenceBundle.{EvidenceBundle}
use provable_agent_reference.Contracts.CanonicalCandidate
use provable_agent_reference.Contracts.CanonicalCandidate.{CanonicalCandidate}
use provable_agent_reference.Contracts.VerificationFinding
use provable_agent_reference.Contracts.VerificationFinding.{VerificationFinding, finding_dicts-json}
use provable_agent_reference.Contracts.VerificationResult
use provable_agent_reference.Contracts.VerificationResult.{VerificationResult}
use provable_agent_reference.Compiler.{zero_hash}
use provable_agent_reference.Verifier.{
  DeterministicVerifier, evidence_present, scope_matches, disclosure_safe, result_identity,
  provisional, bundle_bound, findings_of, verify,
}

abbrev finding_record : String → String → Bool → String → VerificationFinding
finding_record code severity passed message = record {
  code = code;
  severity = severity;
  passed = passed;
  message = message;
}

module _ ⦃H : Sha256⦄ (candidate : CanonicalCandidate) (bundle : EvidenceBundle) where
  abbrev pub is_bound : Bool
  is_bound =
      candidate.evidence_bundle_hash == bundle.bundle_hash
      && uri (EvidenceBundle.payload bundle) == bundle.bundle_hash

  abbrev pub expected_findings : List VerificationFinding
  expected_findings =
      finding_record "CANDIDATE_HASH_VALID" "error"
        (candidate.candidate_hash == uri (CanonicalCandidate.payload candidate))
        "Canonical candidate hash must match its deterministic payload."
      ∷ finding_record "EVIDENCE_BUNDLE_BOUND" "error" is_bound
          "Candidate must bind the exact authorized evidence bundle."
      ∷ finding_record "EVIDENCE_REFERENCE_VALID" "error"
          (evidence_present candidate
            (EvidenceBundle.require bundle candidate.evidence.evidence_id))
          "Candidate evidence must resolve exactly in the authorized bundle."
      ∷ finding_record "SCOPE_MATCH" "error" (scope_matches candidate bundle)
          "Run, evidence, and bundle scopes must match."
      ∷ finding_record "DISCLOSURE_SAFE" "error" (disclosure_safe candidate)
          "Sensitive categories require explicit redaction intent."
      ∷ finding_record "LIMITATION_PRESENT" "warning" (not (is_nil candidate.limitations))
          "Consequential outputs must state at least one limitation."
      ∷ []

  bundle_bound-eq : bundle_bound candidate bundle ≡ ok is_bound
  unfolding bundle_bound EvidenceBundle.compute_hash
  bundle_bound-eq = elim (Bool-cases (candidate.evidence_bundle_hash == bundle.bundle_hash)) [
    | inl same ↦ rw same (rw (sha256_uri-ok _ (EvidenceBundle.payload-json bundle)))
    | inr other ↦ rw other
  ]

  findings_of-eq : findings_of candidate bundle ≡ ok expected_findings
  unfolding findings_of VerificationFinding.post_init bounded
  findings_of-eq = rw (CanonicalCandidate.verify_hash-eq candidate) (rw bundle_bound-eq refl)

-- What the constructor of the result asks of the candidate and of the verifier's own name.
pub record IsVerifiable (verifier : DeterministicVerifier) (candidate : CanonicalCandidate)
    : Type 0 where
  pub candidate_id_valid : is_identifier candidate.candidate_id ≡ true
  pub candidate_hash_valid : is_hash_uri candidate.candidate_hash ≡ true
  pub verifier_id_valid : is_identifier verifier.verifier_id ≡ true
  pub version_valid : is_bounded verifier.verifier_version 64 ≡ true
  pub created_at_valid : is_bounded candidate.created_at 100 ≡ true

module _ ⦃H : Sha256⦄ (verifier : DeterministicVerifier) (candidate : CanonicalCandidate)
    (bundle : EvidenceBundle) where
  abbrev pub unhashed : VerificationResult
  unhashed = provisional verifier candidate (expected_findings candidate bundle) (
      "verification_"
      <> prefix_of 24
          (digest (result_identity verifier candidate (expected_findings candidate bundle))))

  -- The result that the verifier returns.
  abbrev pub verified : VerificationResult
  verified = record unhashed { result_hash = uri (VerificationResult.payload unhashed) }

  result_identity-json :
      is_json (result_identity verifier candidate (expected_findings candidate bundle)) ≡ true
  unfolding is_json all_json
  result_identity-json = refl

  -- Both constructions of the result pass its validation.
  post_init-hashed :
      (result_hash : String)
      → is_hash_uri result_hash ≡ true
      → IsVerifiable verifier candidate
      → VerificationResult.post_init (record unhashed { result_hash = result_hash }) ≡ ok tt
  post_init-hashed result_hash own v =
      VerificationResult.post_init-ok (record unhashed { result_hash = result_hash })
        (verification_id-IsIdentifier _) v.candidate_id_valid v.candidate_hash_valid
        v.verifier_id_valid v.version_valid refl refl refl v.created_at_valid own

  -- On a candidate whose identifiers and time are valid, with any bundle, the verifier
  -- returns the result with the six findings, their status and the hash of its payload.
  pub verify-ok : IsVerifiable verifier candidate → verify verifier candidate bundle ≡ ok verified
  unfolding verify
  verify-ok v = rw (findings_of-eq candidate bundle) (
      rw (short_id-ok "verification_" _ result_identity-json) (
        rw (post_init-hashed zero_hash refl v) (
          rw (sha256_uri-ok _ (VerificationResult.payload-json unhashed))
            (rw (post_init-hashed _ (uri-IsHash (VerificationResult.payload unhashed)) v)))))

  -- Whatever it returns is that result.
  pub verify-inv :
      {result : VerificationResult}
      → verify verifier candidate bundle ≡ ok result
      → result ≡ verified
  unfolding verify
  verify-inv h =
      let h₁ = rw (findings_of-eq candidate bundle) at h in
      let h₂ = rw (short_id-ok "verification_" _ result_identity-json) at h₁ in
      let (made, is_made, h₃) = >>=-eq-ok (VerificationResult.make unhashed) _ h₂ in
      let e = VerificationResult.make-inv unhashed is_made in
      let h₄ = rw e at h₃ in
      let h₅ = rw (sha256_uri-ok _ (VerificationResult.payload-json unhashed)) at h₄ in
      VerificationResult.make-inv verified h₅
