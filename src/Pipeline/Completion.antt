-- ===== src/Pipeline/Completion.antt =====
-- When the pipeline completes, and what a completed run holds.
use mathlib.Core.Path.{subst}
use provable_agent_reference.Base.{
  ◌≡◌, refl, sym, ◌∙◌, ◌↔◌, ◌⊎◌, inl, inr, String, true, false, [], is_empty, All, member,
}
use provable_agent_reference.Errors.{ok, >>=-eq-ok, ok-injective}
use provable_agent_reference.Canonical.{Sha256}
use provable_agent_reference.Canonical.Binding.{uri}
use provable_agent_reference.Contracts.Validation.{sensitive_categories}
use provable_agent_reference.Contracts.TrustedRunContext
use provable_agent_reference.Contracts.TrustedRunContext.{TrustedRunContext}
use provable_agent_reference.Contracts.SemanticDraft.{SemanticDraft}
use provable_agent_reference.Contracts.EvidenceRecord.{EvidenceRecord}
use provable_agent_reference.Contracts.EvidenceBundle
use provable_agent_reference.Contracts.EvidenceBundle.{EvidenceBundle}
use provable_agent_reference.Compiler.{trusted_compiler, compile}
use provable_agent_reference.Compiler.Acceptance.{IsCompilable, compile-inv}
use provable_agent_reference.Verifier.{deterministic_verifier, verify}
use provable_agent_reference.Verifier.Status.{IsSafe, verify_pass_iff}
use provable_agent_reference.Approvals.{record_approval, default_rationale}
use provable_agent_reference.Approvals.Guards.{record_approval-inv}
use provable_agent_reference.Authorization.{expected_output}
use provable_agent_reference.Pipeline.Returned.{
  result, run-result, checked-passed, granted-authorized,
}
use provable_agent_reference.Pipeline.{PipelineResult, provable_agent_pipeline, run}

-- What a run needs beyond records that were constructed.
pub record IsRunnable (context : TrustedRunContext) (draft : SemanticDraft)
    (bundle : EvidenceBundle) (approver_id : String) : Type 0 where
  pub evidence : EvidenceRecord
  pub compilable : IsCompilable context draft bundle evidence
  pub safe :
      All (λ category. member category sensitive_categories ≡ false) draft.content_categories
      ⊎ (draft.redacted ≡ true)
  pub approver_given : is_empty approver_id ≡ false

-- A completed run: the audit is clean, the verification passed and the use is authorized.
pub record IsComplete ⦃H : Sha256⦄ (context : TrustedRunContext) (draft : SemanticDraft)
    (r : PipelineResult) : Type 0 where
  pub audit_valid : r.audit_valid ≡ true
  pub no_errors : r.audit_errors ≡ []
  pub passed : r.verification.status ≡ "pass"
  pub approved : r.approval.decision ≡ "approved"
  pub authorized : r.authorization.authorized ≡ true
  pub run_context : r.candidate.run_context ≡ context
  pub statement : r.candidate.assurance_statement ≡ draft.assurance_statement
  pub output : r.authorization.output_hash ≡ uri (expected_output r.candidate)

module _ ⦃H : Sha256⦄ (context : TrustedRunContext) (draft : SemanticDraft)
    (bundle : EvidenceBundle) (approver_id : String) where
  run-needs :
      {r : PipelineResult}
      → run provable_agent_pipeline context draft bundle approver_id ≡ ok r
      → IsRunnable context draft bundle approver_id
  unfolding run
  run-needs h =
      let (c, compiles, h₁) = >>=-eq-ok (compile trusted_compiler context draft bundle) _ h in
      let (evidence, k, e) = compile-inv trusted_compiler context draft bundle compiles in
      let (v, verifies, h₂) = >>=-eq-ok (verify deterministic_verifier c bundle) _ h₁ in
      let (a, approval, h₃) =
        >>=-eq-ok (record_approval c v approver_id "approved" default_rationale) _ h₂ in
      let (d, _) = record_approval-inv c v approver_id "approved" default_rationale approval in
      let passed : v.status ≡ "pass" = elim d.approvable [
        | inl p ↦ p
        | inr other ↦ absurd (other refl)
      ] in
      let sound = (verify_pass_iff c bundle deterministic_verifier verifies).0 passed in
      record {
        evidence = evidence;
        compilable = k;
        safe = subst IsSafe e sound.disclosed;
        approver_given = d.approver_given;
      }

  -- Over a context and a bundle that pass their validation, the pipeline returns a result
  -- exactly when the draft cites a record of the bundle, the bundle is of the run's scope,
  -- the record's class is known and at most the run's, the draft has no sensitive category or
  -- is redacted, and an approver is named.
  pub run-returns_iff :
      TrustedRunContext.post_init context ≡ ok tt
      → EvidenceBundle.post_init bundle ≡ ok tt
      → ((r : PipelineResult) × (run provable_agent_pipeline context draft bundle approver_id
            ≡ ok r))
        ↔ IsRunnable context draft bundle approver_id
  run-returns_iff c b = (
    λ (r, h). run-needs h,
    λ n. (
      result context draft bundle n.evidence approver_id,
      run-result context draft bundle n.evidence approver_id c b n.compilable n.safe
          n.approver_given,
    ),
  )

  -- Over a context and a bundle that pass their validation, every result that the pipeline
  -- returns has a clean audit, a passed verification, an approved decision and a granted
  -- authorization; its candidate is of the context and has the draft's statement, and the
  -- authorized output hash is that of the candidate's statement and limitations.
  pub run-IsComplete :
      {r : PipelineResult}
      → TrustedRunContext.post_init context ≡ ok tt
      → EvidenceBundle.post_init bundle ≡ ok tt
      → run provable_agent_pipeline context draft bundle approver_id ≡ ok r
      → IsComplete context draft r
  run-IsComplete c b h =
      let n = run-needs h in
      let made =
        run-result context draft bundle n.evidence approver_id c b n.compilable n.safe
          n.approver_given in
      subst (IsComplete context draft) (ok-injective (sym made ∙ h)) (record {
        audit_valid = refl;
        no_errors = refl;
        passed = checked-passed context draft bundle n.evidence approver_id c b n.compilable n.safe;
        approved = refl;
        authorized = granted-authorized context draft bundle n.evidence approver_id;
        run_context = refl;
        statement = refl;
        output = refl;
      })
