-- ===== src/Authorization/Guards.antt =====
-- When a use is authorized, and what the record says.
use provable_agent_reference.Base.{
  ◌≡◌, refl, sym, ◌∙◌, String, true, ◌&&◌, ◌==◌, ◌<>◌, eq_iff, prefix_of, &&-eq-true, &&-intro,
}
use provable_agent_reference.Errors.{
  ok, authorization_error, require_that, >>=-eq-ok, >>-eq-ok, ok-injective, require_that-ok,
}
use provable_agent_reference.Json.{Value, is_json}
use provable_agent_reference.Canonical.{Sha256, sha256_uri, value}
use provable_agent_reference.Canonical.Binding.{
  digest, uri, sha256_uri-ok, sha256_uri-accepts, short_id-ok,
}
use provable_agent_reference.Contracts.CanonicalCandidate
use provable_agent_reference.Contracts.CanonicalCandidate.{CanonicalCandidate}
use provable_agent_reference.Contracts.ApprovalRecord
use provable_agent_reference.Contracts.ApprovalRecord.{ApprovalRecord}
use provable_agent_reference.Contracts.AuthorizationResult
use provable_agent_reference.Contracts.AuthorizationResult.{AuthorizationResult}
use provable_agent_reference.Authorization.{
  authorization_identity, provisional, exact_scope, authorize_exact_use,
}

-- The candidate and the approval have their hashes, the approval approves this candidate, and
-- the output can be serialized.
pub record IsAuthorizable ⦃H : Sha256⦄ (c : CanonicalCandidate) (a : ApprovalRecord)
    (output : Value) : Type 0 where
  pub candidate_hashed : c.candidate_hash ≡ uri (CanonicalCandidate.payload c)
  pub approved : a.decision ≡ "approved"
  pub approval_hashed : a.record_hash ≡ uri (ApprovalRecord.payload a)
  pub same_id : a.candidate_id ≡ c.candidate_id
  pub same_hash : a.candidate_hash ≡ c.candidate_hash
  pub serializable : is_json output ≡ true

module _ ⦃H : Sha256⦄ (c : CanonicalCandidate) (a : ApprovalRecord) (purpose audience : String)
    (output : Value) where
  abbrev pub unhashed : AuthorizationResult
  unhashed = provisional c a purpose audience (uri output) (exact_scope c purpose audience output) (
      "authorization_"
      <> prefix_of 24 (digest (authorization_identity c a purpose audience (uri output))))

  abbrev pub authorization : AuthorizationResult
  authorization = record unhashed { record_hash = uri (AuthorizationResult.payload unhashed) }

  pub authorize-ok :
      IsAuthorizable c a output → authorize_exact_use c a purpose audience output ≡ ok authorization
  unfolding authorize_exact_use
  authorize-ok d = rw (CanonicalCandidate.verify_hash-eq c) (
      rw ((eq_iff _ _).1 d.candidate_hashed) (
        rw ((eq_iff _ _).1 d.approved) (
          rw (ApprovalRecord.verify_hash-eq a) (
            rw ((eq_iff _ _).1 d.approval_hashed) (
              rw (&&-intro ((eq_iff _ _).1 d.same_id) ((eq_iff _ _).1 d.same_hash)) (
                rw (sha256_uri-ok output d.serializable) (
                  rw
                    (short_id-ok "authorization_"
                      (authorization_identity c a purpose audience (uri output))
                      (unfold is_json in refl))
                    (rw (sha256_uri-ok _ (AuthorizationResult.payload-json unhashed))))))))))

  pub authorize-inv :
      {z : AuthorizationResult}
      → authorize_exact_use c a purpose audience output ≡ ok z
      → IsAuthorizable c a output × (z ≡ authorization)
  unfolding authorize_exact_use
  authorize-inv h =
      let h₀ = rw (CanonicalCandidate.verify_hash-eq c) at h in
      let hashed = c.candidate_hash == uri (CanonicalCandidate.payload c) in
      let (g₁, h₁) = >>-eq-ok (require_that hashed authorization_error _) _ h₀ in
      let (g₂, h₂) =
        >>-eq-ok (require_that (a.decision == "approved") authorization_error _) _ h₁ in
      let h₃ = rw (ApprovalRecord.verify_hash-eq a) at h₂ in
      let own = a.record_hash == uri (ApprovalRecord.payload a) in
      let (g₃, h₄) = >>-eq-ok (require_that own authorization_error _) _ h₃ in
      let bound = a.candidate_id == c.candidate_id && a.candidate_hash == c.candidate_hash in
      let (g₄, h₅) = >>-eq-ok (require_that bound authorization_error _) _ h₄ in
      let (output_hash, hashes, h₆) = >>=-eq-ok (sha256_uri (value output)) _ h₅ in
      let (same_id, same_hash) = &&-eq-true (require_that-ok bound _ _ g₄) in
      let d : IsAuthorizable c a output = record {
        candidate_hashed = (eq_iff _ _).0 (require_that-ok _ _ _ g₁);
        approved = (eq_iff _ _).0 (require_that-ok _ _ _ g₂);
        approval_hashed = (eq_iff _ _).0 (require_that-ok _ _ _ g₃);
        same_id = (eq_iff _ _).0 same_id;
        same_hash = (eq_iff _ _).0 same_hash;
        serializable = sha256_uri-accepts output hashes;
      } in
      (d, ok-injective (sym h ∙ unfold authorize_exact_use in authorize-ok d))
