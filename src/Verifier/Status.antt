-- ===== src/Verifier/Status.antt =====
-- The status of a verification, from the candidate and the bundle.
use provable_agent_reference.Base.{
  ◌≡◌, refl, sym, ap, ◌∙◌, ◌↔◌, ◌⊎◌, String, Bool, true, false, ◌==◌, eq_iff, List, [], ◌∷◌, All,
  any, member, arith, &&-eq-true, &&-intro, if◌then◌else◌,
}
use provable_agent_reference.Errors.{Result, ok, err}
use provable_agent_reference.Canonical.{Sha256}
use provable_agent_reference.Canonical.Binding.{uri}
use provable_agent_reference.Contracts.Validation.{sensitive_categories}
use provable_agent_reference.Contracts.EvidenceRecord.{EvidenceRecord, same_record_iff}
use provable_agent_reference.Contracts.EvidenceBundle
use provable_agent_reference.Contracts.EvidenceBundle.{EvidenceBundle}
use provable_agent_reference.Contracts.CanonicalCandidate
use provable_agent_reference.Contracts.CanonicalCandidate.{CanonicalCandidate}
use provable_agent_reference.Contracts.VerificationFinding.{status_of}
use provable_agent_reference.Contracts.VerificationResult.{VerificationResult}
use provable_agent_reference.Verifier.{
  DeterministicVerifier, evidence_present, scope_matches, disclosure_safe, verify,
}
use provable_agent_reference.Verifier.Returned.{is_bound, expected_findings, verify-inv}

abbrev pub IsSafe : CanonicalCandidate → Type 0
IsSafe c =
    All (λ category. member category sensitive_categories ≡ false) c.content_categories
    ⊎ (c.redacted ≡ true)

-- What the error findings stand for, with the hashes as equations.
pub record IsSound ⦃H : Sha256⦄ (c : CanonicalCandidate) (b : EvidenceBundle) : Type 0 where
  pub hash_valid : c.candidate_hash ≡ uri (CanonicalCandidate.payload c)
  pub bundle_named : c.evidence_bundle_hash ≡ b.bundle_hash
  pub bundle_hashed : uri (EvidenceBundle.payload b) ≡ b.bundle_hash
  pub resolved : EvidenceBundle.require b c.evidence.evidence_id ≡ ok c.evidence
  pub evidence_tenant : c.evidence.tenant_id ≡ c.run_context.tenant_id
  pub evidence_case : c.evidence.case_id ≡ c.run_context.case_id
  pub bundle_tenant : b.tenant_id ≡ c.run_context.tenant_id
  pub bundle_case : b.case_id ≡ c.run_context.case_id
  pub disclosed : IsSafe c

evidence_present_iff :
    (c : CanonicalCandidate) (r : Result EvidenceRecord)
    → (evidence_present c r ≡ true) ↔ (r ≡ ok c.evidence)
evidence_present_iff c (ok e) =
    (λ h. ap ok ((same_record_iff e c.evidence).0 h), λ h. (same_record_iff e c.evidence).1 cc)
evidence_present_iff c (err e m) = (λ h. cc, λ h. cc)

any-false_iff :
    (p : String → Bool) (xs : List String) → (any p xs ≡ false) ↔ All (λ x. p x ≡ false) xs
any-false_iff p [] = (λ h. tt, λ h. refl)
any-false_iff p (x ∷ xs) = ground (arith, any-false_iff p xs)

disclosure_safe_iff : (c : CanonicalCandidate) → (disclosure_safe c ≡ true) ↔ IsSafe c
unfolding disclosure_safe
disclosure_safe_iff c =
    ground
      (arith, any-false_iff (λ category. member category sensitive_categories) c.content_categories)

status_iff : (b : Bool) → ◌≡◌ {A = String} (if b then "pass" else "fail") "pass" ↔ (b ≡ true)
status_iff true = (λ h. refl, λ h. refl)
status_iff false = (λ h. absurd (ground (arith, eq_iff "fail" "pass")), λ h. cc)

scope_matches_iff :
    (c : CanonicalCandidate) (b : EvidenceBundle)
    → (scope_matches c b ≡ true) ↔ (
        (c.evidence.tenant_id ≡ c.run_context.tenant_id)
        × (c.evidence.case_id ≡ c.run_context.case_id)
        × (b.tenant_id ≡ c.run_context.tenant_id)
        × (b.case_id ≡ c.run_context.case_id))
unfolding scope_matches
scope_matches_iff c b = ground (
  arith,
  eq_iff c.evidence.tenant_id c.run_context.tenant_id,
  eq_iff c.evidence.case_id c.run_context.case_id,
  eq_iff b.tenant_id c.run_context.tenant_id,
  eq_iff b.case_id c.run_context.case_id,
)

module _ ⦃H : Sha256⦄ (c : CanonicalCandidate) (b : EvidenceBundle) where
  passed-IsSound : status_of (expected_findings c b) ≡ "pass" → IsSound c b
  passed-IsSound h =
      let all_passed = (status_iff _).0 h in
      let (hashed, h₁) =
        &&-eq-true {a = c.candidate_hash == uri (CanonicalCandidate.payload c)} all_passed in
      let (bound, h₂) = &&-eq-true {a = is_bound c b} h₁ in
      let (named, bundled) = &&-eq-true {a = c.evidence_bundle_hash == b.bundle_hash} bound in
      let (present, h₃) =
        &&-eq-true {a = evidence_present c (EvidenceBundle.require b c.evidence.evidence_id)} h₂ in
      let (scoped, h₄) = &&-eq-true {a = scope_matches c b} h₃ in
      let (safe, _) = &&-eq-true {a = disclosure_safe c} h₄ in
      let (et, ec, bt, bc) = (scope_matches_iff c b).0 scoped in
      record {
        hash_valid = (eq_iff _ _).0 hashed;
        bundle_named = (eq_iff _ _).0 named;
        bundle_hashed = (eq_iff _ _).0 bundled;
        resolved = (evidence_present_iff c _).0 present;
        evidence_tenant = et;
        evidence_case = ec;
        bundle_tenant = bt;
        bundle_case = bc;
        disclosed = (disclosure_safe_iff c).0 safe;
      }

  sound-passed : IsSound c b → status_of (expected_findings c b) ≡ "pass"
  sound-passed s = (status_iff _).1 (
      &&-intro ((eq_iff _ _).1 s.hash_valid) (
        &&-intro (&&-intro ((eq_iff _ _).1 s.bundle_named) ((eq_iff _ _).1 s.bundle_hashed)) (
          &&-intro ((evidence_present_iff c _).1 s.resolved) (
            &&-intro
              ((scope_matches_iff c b).1
                (s.evidence_tenant, s.evidence_case, s.bundle_tenant, s.bundle_case))
              (&&-intro ((disclosure_safe_iff c).1 s.disclosed) refl)))))

  -- A verification that returns has status "pass" exactly when the candidate has the hash of
  -- its payload, names the bundle by the hash of its contents, cites a record of the bundle,
  -- agrees with it in scope, and shows sensitive categories only if it is redacted.
  pub verify_pass_iff :
      (verifier : DeterministicVerifier) {r : VerificationResult}
      → verify verifier c b ≡ ok r
      → (r.status ≡ "pass") ↔ IsSound c b
  verify_pass_iff verifier h =
      let e = ap (λ v. v.status) (verify-inv verifier c b h) in
      (λ p. passed-IsSound (sym e ∙ p), λ s. e ∙ sound-passed s)
