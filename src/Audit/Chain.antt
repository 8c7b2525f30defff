-- ===== src/Audit/Chain.antt =====
-- When the audit of src/provable_agent_reference/audit.py reports no error.
use mathlib.Core.Bool.{false≢true}
use provable_agent_reference.Base.{
  ◌≡◌, refl, sym, ap, ◌∙◌, ◌↔◌, String, Bool, true, false, not, ◌&&◌, ◌||◌, ◌==◌, eq_iff, List, [],
  ◌∷◌, All, is_nil, Bool-cases, inl, inr, arith,
}
use provable_agent_reference.Errors.{ok, ok-injective}
use provable_agent_reference.Json.{is_json, texts-json, all_json}
use provable_agent_reference.Canonical.{Sha256}
use provable_agent_reference.Canonical.Binding.{uri, sha256_uri-ok}
use provable_agent_reference.Authorization.{expected_output, reason_of}
use provable_agent_reference.Contracts.CanonicalCandidate
use provable_agent_reference.Contracts.CanonicalCandidate.{CanonicalCandidate}
use provable_agent_reference.Contracts.VerificationFinding.{status_of}
use provable_agent_reference.Contracts.VerificationResult
use provable_agent_reference.Contracts.VerificationResult.{VerificationResult}
use provable_agent_reference.Contracts.ApprovalRecord
use provable_agent_reference.Contracts.ApprovalRecord.{ApprovalRecord}
use provable_agent_reference.Contracts.AuthorizationResult
use provable_agent_reference.Contracts.AuthorizationResult.{AuthorizationResult}
use provable_agent_reference.Contracts.AuditManifest
use provable_agent_reference.Contracts.AuditManifest.{AuditManifest}
use provable_agent_reference.Audit.{
  Recomputed, tests, collect, approved_output_hash, output_mismatch, verify_audit_manifest,
}

-- Five records, each with the hash of its payload, bound to one candidate and to each other.
pub record IsChain ⦃H : Sha256⦄ (m : AuditManifest) (c : CanonicalCandidate)
    (v : VerificationResult) (a : ApprovalRecord) (z : AuthorizationResult) : Type 0 where
  pub candidate_hashed : c.candidate_hash ≡ uri (CanonicalCandidate.payload c)
  pub verification_hashed : v.result_hash ≡ uri (VerificationResult.payload v)
  pub approval_hashed : a.record_hash ≡ uri (ApprovalRecord.payload a)
  pub authorization_hashed : z.record_hash ≡ uri (AuthorizationResult.payload z)
  pub manifest_hashed : m.manifest_hash ≡ uri (AuditManifest.payload m)
  pub manifest_candidate : m.candidate_hash ≡ c.candidate_hash
  pub manifest_verification : m.verification_result_hash ≡ v.result_hash
  pub manifest_approval : m.approval_record_hash ≡ a.record_hash
  pub manifest_authorization : m.authorization_record_hash ≡ z.record_hash
  pub verification_candidate : v.candidate_hash ≡ c.candidate_hash
  pub verification_id : v.candidate_id ≡ c.candidate_id
  pub status_true : v.status ≡ status_of v.findings
  pub approval_candidate : a.candidate_hash ≡ c.candidate_hash
  pub approval_id : a.candidate_id ≡ c.candidate_id
  pub approval_verification : a.verification_result_hash ≡ v.result_hash
  pub approved_passed : a.decision ≡ "approved" → v.status ≡ "pass"
  pub authorization_candidate : z.candidate_hash ≡ c.candidate_hash
  pub authorization_id : z.candidate_id ≡ c.candidate_id
  pub authorization_approval : z.approval_id ≡ a.approval_id
  pub authorized_approved : z.authorized ≡ true → a.decision ≡ "approved"
  pub authorized_purpose : z.authorized ≡ true → z.purpose ≡ c.run_context.purpose
  pub authorized_audience : z.authorized ≡ true → z.audience ≡ c.run_context.audience
  pub authorized_output : z.authorized ≡ true → z.output_hash ≡ uri (expected_output c)
  pub reason_true : z.reason ≡ reason_of z.authorized

collect-nil : (ts : List (Bool × String)) → (collect ts ≡ []) ↔ All (λ t. t.0 ≡ false) ts
collect-nil [] = (λ h. tt, λ h. refl)
collect-nil ((test, message) ∷ ts) = ground (arith, collect-nil ts)

differ_iff : (s t : String) → (not (s == t) ≡ false) ↔ (s ≡ t)
differ_iff s t = ground (arith, eq_iff s t)

guarded_iff : (b : Bool) (s t : String) → ((b && not (s == t)) ≡ false) ↔ (b ≡ true → s ≡ t)
guarded_iff true s t = ground (arith, eq_iff s t)
guarded_iff false s t = (λ h k. cc, λ h. refl)

scope_iff :
    (b : Bool) (s t p q : String)
    → ((b && (not (s == t) || not (p == q))) ≡ false) ↔ ((b ≡ true → s ≡ t) × (b ≡ true → p ≡ q))
scope_iff true s t p q = ground (arith, eq_iff s t, eq_iff p q)
scope_iff false s t p q = (λ h. (λ k. cc, λ k. cc), λ h. refl)

decision_iff :
    (d s : String)
    → ((d == "approved" && not (s == "pass")) ≡ false) ↔ (d ≡ "approved" → s ≡ "pass")
decision_iff d s = elim (Bool-cases (d == "approved")) [
  | inl given ↦ rw given (
    λ h k. (guarded_iff true s "pass").0 h refl,
    λ h. (guarded_iff true s "pass").1 (λ _. h ((eq_iff d "approved").0 given)),
  )
  | inr other ↦
      rw other (λ h k. absurd (false≢true (sym other ∙ (eq_iff d "approved").1 k)), λ h. refl)
]

pub expected_output-json : (c : CanonicalCandidate) → is_json (expected_output c) ≡ true
unfolding is_json all_json
expected_output-json c = rw (texts-json c.limitations)

module _ ⦃H : Sha256⦄ (m : AuditManifest) (c : CanonicalCandidate) (v : VerificationResult)
    (a : ApprovalRecord) (z : AuthorizationResult) where
  abbrev recomputed : Recomputed
  recomputed = record {
    candidate_valid = c.candidate_hash == uri (CanonicalCandidate.payload c);
    verification_valid = v.result_hash == uri (VerificationResult.payload v);
    approval_valid = a.record_hash == uri (ApprovalRecord.payload a);
    authorization_valid = z.record_hash == uri (AuthorizationResult.payload z);
    manifest_valid = m.manifest_hash == uri (AuditManifest.payload m);
    output_mismatch = z.authorized && not (z.output_hash == uri (expected_output c));
  }

  -- The errors that the audit finds.
  abbrev pub errors : List String
  errors = collect (tests m c v a z recomputed)

  output_mismatch-eq :
      output_mismatch z c ≡ ok (z.authorized && not (z.output_hash == uri (expected_output c)))
  unfolding output_mismatch approved_output_hash
  output_mismatch-eq = elim (Bool-cases z.authorized) [
    | inl granted ↦ rw granted (rw (sha256_uri-ok _ (expected_output-json c)))
    | inr denied ↦ rw denied
  ]

  -- The audit always returns.
  pub verify_audit_manifest-eq : verify_audit_manifest m c v a z ≡ ok (is_nil errors, errors)
  unfolding verify_audit_manifest
  verify_audit_manifest-eq = rw (CanonicalCandidate.verify_hash-eq c) (
      rw (VerificationResult.verify_hash-eq v) (
        rw (ApprovalRecord.verify_hash-eq a) (
          rw (AuthorizationResult.verify_hash-eq z)
            (rw (AuditManifest.verify_hash-eq m) (rw output_mismatch-eq)))))

  errors-IsChain : errors ≡ [] → IsChain m c v a z
  unfolding VerificationResult.status_matches_findings
  errors-IsChain h =
      let t₀ = (collect-nil (tests m c v a z recomputed)).0 h in
      let t₁ = t₀.1.1.1.1.1.1 in
      let t₂ = t₁.1.1.1.1.1.1 in
      let t₃ = t₂.1.1.1.1.1.1 in
      let (purpose, audience) = (scope_iff z.authorized _ _ _ _).0 t₃.1.1.0 in
      record {
        candidate_hashed = (differ_iff _ _).0 t₀.0;
        verification_hashed = (differ_iff _ _).0 t₀.1.0;
        approval_hashed = (differ_iff _ _).0 t₀.1.1.0;
        authorization_hashed = (differ_iff _ _).0 t₀.1.1.1.0;
        manifest_hashed = (differ_iff _ _).0 t₀.1.1.1.1.0;
        manifest_candidate = (differ_iff _ _).0 t₀.1.1.1.1.1.0;
        manifest_verification = (differ_iff _ _).0 t₁.0;
        manifest_approval = (differ_iff _ _).0 t₁.1.0;
        manifest_authorization = (differ_iff _ _).0 t₁.1.1.0;
        verification_candidate = (differ_iff _ _).0 t₁.1.1.1.0;
        verification_id = (differ_iff _ _).0 t₁.1.1.1.1.0;
        status_true = (differ_iff _ _).0 t₁.1.1.1.1.1.0;
        approval_candidate = (differ_iff _ _).0 t₂.0;
        approval_id = (differ_iff _ _).0 t₂.1.0;
        approval_verification = (differ_iff _ _).0 t₂.1.1.0;
        approved_passed = (decision_iff _ _).0 t₂.1.1.1.0;
        authorization_candidate = (differ_iff _ _).0 t₂.1.1.1.1.0;
        authorization_id = (differ_iff _ _).0 t₂.1.1.1.1.1.0;
        authorization_approval = (differ_iff _ _).0 t₃.0;
        authorized_approved = (guarded_iff z.authorized _ _).0 t₃.1.0;
        authorized_purpose = purpose;
        authorized_audience = audience;
        authorized_output = (guarded_iff z.authorized _ _).0 t₃.1.1.1.0;
        reason_true = (differ_iff _ _).0 t₃.1.1.1.1.0;
      }

  IsChain-errors : IsChain m c v a z → errors ≡ []
  unfolding VerificationResult.status_matches_findings
  IsChain-errors h = (collect-nil (tests m c v a z recomputed)).1 (
    (differ_iff _ _).1 h.candidate_hashed,
    (
      (differ_iff _ _).1 h.verification_hashed,
      (
        (differ_iff _ _).1 h.approval_hashed,
        (
          (differ_iff _ _).1 h.authorization_hashed,
          (
            (differ_iff _ _).1 h.manifest_hashed,
            (
              (differ_iff _ _).1 h.manifest_candidate,
              (
                (differ_iff _ _).1 h.manifest_verification,
                (
                  (differ_iff _ _).1 h.manifest_approval,
                  (
                    (differ_iff _ _).1 h.manifest_authorization,
                    (
                      (differ_iff _ _).1 h.verification_candidate,
                      (
                        (differ_iff _ _).1 h.verification_id,
                        (
                          (differ_iff _ _).1 h.status_true,
                          (
                            (differ_iff _ _).1 h.approval_candidate,
                            (
                              (differ_iff _ _).1 h.approval_id,
                              (
                                (differ_iff _ _).1 h.approval_verification,
                                (
                                  (decision_iff _ _).1 h.approved_passed,
                                  (
                                    (differ_iff _ _).1 h.authorization_candidate,
                                    (
                                      (differ_iff _ _).1 h.authorization_id,
                                      (
                                        (differ_iff _ _).1 h.authorization_approval,
                                        (
                                          (guarded_iff z.authorized _ _).1 h.authorized_approved,
                                          (
                                            (scope_iff z.authorized _ _ _ _).1
                                                (h.authorized_purpose, h.authorized_audience),
                                            (
                                              (guarded_iff z.authorized _ _).1 h.authorized_output,
                                              ((differ_iff _ _).1 h.reason_true, tt),
                                            ),
                                          ),
                                        ),
                                      ),
                                    ),
                                  ),
                                ),
                              ),
                            ),
                          ),
                        ),
                      ),
                    ),
                  ),
                ),
              ),
            ),
          ),
        ),
      ),
    ),
  )

  -- The audit returns without errors exactly when the five records have the hashes of their
  -- payloads and are bound to one candidate and to each other, with consistent status,
  -- decision, scope, output and reason.
  pub verify_audit_manifest_iff :
      (verify_audit_manifest m c v a z ≡ ok (true, [])) ↔ IsChain m c v a z
  verify_audit_manifest_iff = (
    λ h. errors-IsChain (ap (λ p. p.1) (ok-injective (sym verify_audit_manifest-eq ∙ h))),
    λ h. verify_audit_manifest-eq ∙ ap (λ es. ok (is_nil es, es)) (IsChain-errors h),
  )
