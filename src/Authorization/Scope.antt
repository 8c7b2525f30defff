-- ===== src/Authorization/Scope.antt =====
-- What an authorized record authorizes.
use provable_agent_reference.Base.{
  ◌≡◌, sym, ap, ◌∙◌, String, true, ◌&&◌, ◌==◌, ◌<>◌, [], eq_iff, &&-eq-true,
}
use provable_agent_reference.Errors.{ok}
use provable_agent_reference.Json.{Value}
use provable_agent_reference.Json.Print.{print}
use provable_agent_reference.Json.Equality.{py_eq}
use provable_agent_reference.Canonical.{Sha256}
use provable_agent_reference.Canonical.Utf8.{encode}
use provable_agent_reference.Canonical.Binding.{uri}
use provable_agent_reference.Contracts.CanonicalCandidate.{CanonicalCandidate}
use provable_agent_reference.Contracts.ApprovalRecord.{ApprovalRecord}
use provable_agent_reference.Contracts.AuthorizationResult.{AuthorizationResult}
use provable_agent_reference.Authorization.{expected_output, exact_scope, authorize_exact_use}
use provable_agent_reference.Authorization.ExactUse.{IsDict, exact_output-sorted}
use provable_agent_reference.Authorization.Guards.{authorize-inv}

module _ ⦃H : Sha256⦄ (c : CanonicalCandidate) (a : ApprovalRecord) (purpose audience : String)
    (output : Value) where
  exact_scope-exact :
      IsDict output
      → exact_scope c purpose audience output ≡ true
      → (purpose ≡ c.run_context.purpose)
        × (audience ≡ c.run_context.audience)
        × (uri output ≡ uri (expected_output c))
  unfolding exact_scope
  exact_scope-exact d h =
      let presented = py_eq output (expected_output c) in
      let heard = audience == c.run_context.audience in
      let meant = purpose == c.run_context.purpose in
      let (both, same) = &&-eq-true {a = meant && heard} {b = presented} h in
      let (p, q) = &&-eq-true {a = meant} {b = heard} both in
      (
        (eq_iff _ _).0 p,
        (eq_iff _ _).0 q,
        ap (λ v. "sha256:" <> H.hexdigest (encode (print v [])))
            (exact_output-sorted c output d same),
      )

  -- A record of authorize_exact_use on an output dict with distinct keys, if it says
  -- authorized, is for the purpose and the audience of the candidate's run, by an approved
  -- decision on this candidate, and has the hash of the candidate's own statement and
  -- limitations.
  pub authorized_exact :
      {z : AuthorizationResult}
      → IsDict output
      → authorize_exact_use c a purpose audience output ≡ ok z
      → z.authorized ≡ true
      → (z.purpose ≡ c.run_context.purpose)
        × (z.audience ≡ c.run_context.audience)
        × (z.output_hash ≡ uri (expected_output c))
        × (a.decision ≡ "approved")
        × (a.candidate_hash ≡ c.candidate_hash)
  authorized_exact {z} d h granted =
      let (guards, e) = authorize-inv c a purpose audience output h in
      let (p, q, r) = exact_scope-exact d (sym (ap (λ x. x.authorized) e) ∙ granted) in
      (
        ap (λ x. x.purpose) e ∙ p,
        ap (λ x. x.audience) e ∙ q,
        ap (λ x. x.output_hash) e ∙ r,
        guards.approved,
        guards.same_hash,
      )
