-- ===== src/Audit/Tamper.antt =====
-- The manifest hash of an audited chain, src/provable_agent_reference/audit.py.
use provable_agent_reference.Base.{◌≡◌, sym, ap, ◌∙◌, ◌⊎◌, inl, inr, [], true}
use provable_agent_reference.Errors.{ok}
use provable_agent_reference.Canonical.{Sha256}
use provable_agent_reference.Canonical.Binding.{Collision, canonical_bytes}
use provable_agent_reference.Contracts.CanonicalCandidate.{CanonicalCandidate}
use provable_agent_reference.Contracts.VerificationResult.{VerificationResult}
use provable_agent_reference.Contracts.ApprovalRecord.{ApprovalRecord}
use provable_agent_reference.Contracts.AuthorizationResult.{AuthorizationResult}
use provable_agent_reference.Contracts.AuditManifest.{AuditManifest}
use provable_agent_reference.Contracts.Binding.{
  Hashed, record-binds, candidate_hashed, verification_hashed, approval_hashed,
  authorization_hashed, manifest_hashed,
}
use provable_agent_reference.Audit.{verify_audit_manifest}
use provable_agent_reference.Audit.Chain.{verify_audit_manifest_iff}

-- The five records of a chain.
pub record Chain : Type 0 where
  pub manifest : AuditManifest
  pub candidate : CanonicalCandidate
  pub verification : VerificationResult
  pub approval : ApprovalRecord
  pub authorization : AuthorizationResult

abbrev pub Audited : ⦃H : Sha256⦄ → Chain → Type 0
Audited x =
    verify_audit_manifest x.manifest x.candidate x.verification x.approval x.authorization
    ≡ ok (true, [])

module _ ⦃H : Sha256⦄ where
  -- The canonical texts of the two payloads are a collision.
  abbrev pub PayloadsCollide : {A : Type 0} → Hashed A → A → A → Type 0
  PayloadsCollide k a b =
      Collision H (canonical_bytes (k.payload a)) (canonical_bytes (k.payload b))

  -- Which of the two chains' records share a digest without sharing a payload.
  pub data ChainCollision (x y : Chain) : Type 0 where
    by_manifest : PayloadsCollide manifest_hashed x.manifest y.manifest → ChainCollision x y
    by_candidate : PayloadsCollide candidate_hashed x.candidate y.candidate → ChainCollision x y
    by_verification :
        PayloadsCollide verification_hashed x.verification y.verification → ChainCollision x y
    by_approval : PayloadsCollide approval_hashed x.approval y.approval → ChainCollision x y
    by_authorization :
        PayloadsCollide authorization_hashed x.authorization y.authorization → ChainCollision x y

  infixr 5 ◌then_same◌
  abbrev ◌then_same◌ : {A B C : Type 0} → A ⊎ C → (A → B ⊎ C) → B ⊎ C
  m then_same f = elim m [ inl a ↦ f a | inr c ↦ inr c ]

  abbrev blame : {A C D : Type 0} → (C → D) → A ⊎ C → A ⊎ D
  blame by m = elim m [ inl a ↦ inl a | inr c ↦ inr (by c) ]

  -- Two chains that pass the audit with one manifest hash are one chain, record by record, or
  -- the canonical payloads of their two candidates, verifications, approvals, authorizations
  -- or manifests differ and have one digest.
  pub Audited-binds :
      (x y : Chain)
      → Audited x
      → Audited y
      → x.manifest.manifest_hash ≡ y.manifest.manifest_hash
      → (x ≡ y) ⊎ ChainCollision x y
  Audited-binds x y hx hy e =
      let p =
        (verify_audit_manifest_iff x.manifest x.candidate x.verification x.approval
            x.authorization).0
          hx in
      let q =
        (verify_audit_manifest_iff y.manifest y.candidate y.verification y.approval
            y.authorization).0
          hy in
      blame by_manifest
        (record-binds manifest_hashed x.manifest y.manifest p.manifest_hashed q.manifest_hashed e)
      then_same λ m.
          blame by_candidate (
            record-binds candidate_hashed x.candidate y.candidate p.candidate_hashed
              q.candidate_hashed
              (sym p.manifest_candidate ∙ ap (λ t. t.candidate_hash) m ∙ q.manifest_candidate))
          then_same λ c.
              blame by_verification (
                record-binds verification_hashed x.verification y.verification p.verification_hashed
                  q.verification_hashed
                  (sym p.manifest_verification
                    ∙ ap (λ t. t.verification_result_hash) m
                    ∙ q.manifest_verification))
              then_same λ v.
                  blame by_approval (
                    record-binds approval_hashed x.approval y.approval p.approval_hashed
                      q.approval_hashed
                      (sym p.manifest_approval
                        ∙ ap (λ t. t.approval_record_hash) m
                        ∙ q.manifest_approval))
                  then_same λ a.
                      blame by_authorization (
                        record-binds authorization_hashed x.authorization y.authorization
                          p.authorization_hashed q.authorization_hashed
                          (sym p.manifest_authorization
                            ∙ ap (λ t. t.authorization_record_hash) m
                            ∙ q.manifest_authorization))
                      then_same λ z. inl (λ i. record {
                        manifest = m i;
                        candidate = c i;
                        verification = v i;
                        approval = a i;
                        authorization = z i;
                      })
