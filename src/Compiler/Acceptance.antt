-- ===== src/Compiler/Acceptance.antt =====
-- When the compiler accepts, what it returns, and what its hash says.
use provable_agent_reference.Base.{
  ℕ, ◌≤◌, ◌≡◌, ◌↔◌, refl, sym, ap, ◌∙◌, true, ◌&&◌, ◌==◌, ◌<>◌, eq_iff, prefix_of, ltb, ltb-false,
  ltb-false→le, &&-intro, &&-eq-true,
}
use text.Mathlib.TextPositions.{eq_refl}
use provable_agent_reference.Errors.{
  ok, ok-injective, compilation_error, >>=-eq-ok, >>-eq-ok, require_that, raise_if, require_that-ok,
  raise_if-ok,
}
use provable_agent_reference.Json.{is_json}
use provable_agent_reference.Canonical.{Sha256}
use provable_agent_reference.Canonical.Binding.{digest, uri, sha256_uri-ok, short_id-ok}
use provable_agent_reference.Contracts.Validation.{classification_order}
use provable_agent_reference.Contracts.TrustedRunContext.{TrustedRunContext}
use provable_agent_reference.Contracts.SemanticDraft
use provable_agent_reference.Contracts.SemanticDraft.{SemanticDraft}
use provable_agent_reference.Contracts.EvidenceRecord.{EvidenceRecord}
use provable_agent_reference.Contracts.EvidenceBundle
use provable_agent_reference.Contracts.EvidenceBundle.{EvidenceBundle}
use provable_agent_reference.Contracts.CanonicalCandidate
use provable_agent_reference.Contracts.CanonicalCandidate.{CanonicalCandidate}
use provable_agent_reference.Compiler.{
  TrustedCompiler, claim_identity, candidate_identity, provisional, compile,
}

-- The draft's evidence stands in a bundle of the run's scope, and its class is at most the
-- run's ceiling.
pub record IsCompilable (context : TrustedRunContext) (draft : SemanticDraft)
    (bundle : EvidenceBundle) (evidence : EvidenceRecord) : Type 0 where
  pub tenant : bundle.tenant_id ≡ context.tenant_id
  pub case_scope : bundle.case_id ≡ context.case_id
  pub found : EvidenceBundle.require bundle draft.selected_evidence_id ≡ ok evidence
  pub evidence_rank : ℕ
  pub ceiling : ℕ
  pub ranked : classification_order evidence.classification ≡ ok evidence_rank
  pub ceiling_ranked : classification_order context.classification ≡ ok ceiling
  pub within : evidence_rank ≤ ceiling

candidate_identity-json :
    (compiler : TrustedCompiler) (context : TrustedRunContext) (draft : SemanticDraft)
    (bundle : EvidenceBundle)
    → is_json (candidate_identity compiler context draft bundle) ≡ true
unfolding is_json
candidate_identity-json compiler context draft bundle = rw (SemanticDraft.to_dict-json draft)

module _ ⦃H : Sha256⦄ (compiler : TrustedCompiler) (context : TrustedRunContext)
    (draft : SemanticDraft) (bundle : EvidenceBundle) where
  abbrev pub unhashed : EvidenceRecord → CanonicalCandidate
  unhashed evidence =
      provisional compiler context draft bundle evidence
        ("claim_" <> prefix_of 24 (digest (claim_identity context draft evidence)))
        ("candidate_" <> prefix_of 24 (digest (candidate_identity compiler context draft bundle)))

  -- The candidate that the compiler returns for this evidence.
  abbrev pub compiled : EvidenceRecord → CanonicalCandidate
  compiled evidence = record (unhashed evidence) {
    candidate_hash = uri (CanonicalCandidate.payload (unhashed evidence));
  }

  pub compile-ok :
      {evidence : EvidenceRecord}
      → IsCompilable context draft bundle evidence
      → compile compiler context draft bundle ≡ ok (compiled evidence)
  unfolding compile
  compile-ok {evidence} h =
      let scope = &&-intro ((eq_iff _ _).1 h.tenant) ((eq_iff _ _).1 h.case_scope) in
      rw scope (
        rw h.found (
          rw h.ranked (
            rw h.ceiling_ranked (
              rw (ltb-false h.within) (
                rw
                  (short_id-ok "claim_" (claim_identity context draft evidence)
                    (unfold is_json in refl))
                  (rw
                    (short_id-ok "candidate_" _
                      (candidate_identity-json compiler context draft bundle))
                    (rw
                      (sha256_uri-ok _ (CanonicalCandidate.payload-json (unhashed evidence))))))))))

  pub compile-inv :
      {candidate : CanonicalCandidate}
      → compile compiler context draft bundle ≡ ok candidate
      → (evidence : EvidenceRecord) × IsCompilable context draft bundle evidence
        × (candidate ≡ compiled evidence)
  unfolding compile
  compile-inv {candidate} h =
      let scope = bundle.tenant_id == context.tenant_id && bundle.case_id == context.case_id in
      let (in_scope, h₁) = >>-eq-ok (require_that scope compilation_error _) _ h in
      let (same_tenant, same_case) = &&-eq-true (require_that-ok scope _ _ in_scope) in
      let (evidence, found, h₂) =
        >>=-eq-ok (EvidenceBundle.require bundle draft.selected_evidence_id) _ h₁ in
      let (rank, ranked, h₃) = >>=-eq-ok (classification_order evidence.classification) _ h₂ in
      let (ceiling, ceiling_ranked, h₄) =
        >>=-eq-ok (classification_order context.classification) _ h₃ in
      let (within, h₅) = >>-eq-ok (raise_if (ltb ceiling rank) compilation_error _) _ h₄ in
      let compilable : IsCompilable context draft bundle evidence = record {
        tenant = (eq_iff _ _).0 same_tenant;
        case_scope = (eq_iff _ _).0 same_case;
        found = found;
        evidence_rank = rank;
        ceiling = ceiling;
        ranked = ranked;
        ceiling_ranked = ceiling_ranked;
        within = ltb-false→le rank ceiling (raise_if-ok _ _ _ within);
      } in
      (evidence, compilable, ok-injective (sym h ∙ unfold compile in compile-ok compilable))

-- The hash of a compiled candidate is the hash of its payload.
pub verify_hash-compile :
    ⦃H : Sha256⦄ (compiler : TrustedCompiler) (context : TrustedRunContext) (draft : SemanticDraft)
    (bundle : EvidenceBundle) {candidate : CanonicalCandidate}
    → compile compiler context draft bundle ≡ ok candidate
    → CanonicalCandidate.verify_hash candidate ≡ ok true
verify_hash-compile compiler context draft bundle h =
    let (evidence, compilable, e) = compile-inv compiler context draft bundle h in
    rw e (
      CanonicalCandidate.verify_hash-eq (compiled compiler context draft bundle evidence)
      ∙ ap ok (eq_refl _))

-- The compiler returns a candidate exactly when the bundle is of the run's scope, the draft's
-- evidence stands in it, both classes are known, and the evidence's class is at most the run's.
pub compile-returns_iff :
    ⦃H : Sha256⦄ (compiler : TrustedCompiler) (context : TrustedRunContext) (draft : SemanticDraft)
    (bundle : EvidenceBundle)
    → ((candidate : CanonicalCandidate) × (compile compiler context draft bundle ≡ ok candidate))
      ↔ ((evidence : EvidenceRecord) × IsCompilable context draft bundle evidence)
compile-returns_iff compiler context draft bundle = (
  λ (candidate, h).
      let (evidence, k, e) = compile-inv compiler context draft bundle h in (evidence, k),
  λ (evidence, k).
      (compiled compiler context draft bundle evidence, compile-ok compiler context draft bundle k),
)
