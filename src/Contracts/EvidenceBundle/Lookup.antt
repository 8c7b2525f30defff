-- ===== src/Contracts/EvidenceBundle/Lookup.antt =====
-- What `require` finds in a bundle that was constructed.
use provable_agent_reference.Base.{
  ◌≡◌, sym, ap, ◌∙◌, String, ◌&&◌, ◌==◌, eq_iff, List, [], ◌∷◌, is_nil, member, Bool-cases, inl,
  inr, &&-eq-true,
}
use provable_agent_reference.Errors.{
  ok, contract_error, raise_if, require_that, >>-eq-ok, require_that-ok, ok-injective,
}
use provable_agent_reference.Canonical.{Sha256}
use provable_agent_reference.Canonical.Binding.{uri, sha256_uri-ok}
use provable_agent_reference.Contracts.EvidenceRecord.{EvidenceRecord}
use provable_agent_reference.Contracts.Validation.{identifier, hash_uri}
use provable_agent_reference.Contracts.EvidenceBundle.{
  EvidenceBundle, payload, payload-json, check_records, find, require, compute_hash, post_init,
}

pub find-evidence_id :
    (x : String) (rs : List EvidenceRecord) {e : EvidenceRecord}
    → find x rs ≡ ok e
    → e.evidence_id ≡ x
unfolding find
find-evidence_id x [] h = cc
find-evidence_id x (r ∷ rs) {e} h = elim (Bool-cases (r.evidence_id == x)) [
  | inl here ↦
      ap (λ t. t.evidence_id) (sym (ok-injective (rw (here, find) at h)))
      ∙ (eq_iff r.evidence_id x).0 here
  | inr there ↦ find-evidence_id x rs (rw (there, find) at h)
]

find_scope :
    (x tenant_id case_id : String) (met : List String) (rs : List EvidenceRecord)
    {e : EvidenceRecord}
    → check_records tenant_id case_id met rs ≡ ok tt
    → find x rs ≡ ok e
    → (e.tenant_id ≡ tenant_id) × (e.case_id ≡ case_id)
unfolding find check_records
find_scope x tenant_id case_id met [] k h = cc
find_scope x tenant_id case_id met (r ∷ rs) {e} k h =
    let (_, k₁) = >>-eq-ok (raise_if (member r.evidence_id met) contract_error _) _ k in
    let same_tenant = r.tenant_id == tenant_id in
    let same_case = r.case_id == case_id in
    let (in_scope, k₂) = >>-eq-ok (require_that (same_tenant && same_case) contract_error _) _ k₁ in
    let (t, c) =
      &&-eq-true {a = same_tenant} {b = same_case}
        (require_that-ok (same_tenant && same_case) _ _ in_scope) in
    elim (Bool-cases (r.evidence_id == x)) [
      | inl here ↦
          let e₁ = ok-injective (rw (here, find) at h) in
          (
            ap (λ q. q.tenant_id) (sym e₁) ∙ (eq_iff _ _).0 t,
            ap (λ q. q.case_id) (sym e₁) ∙ (eq_iff _ _).0 c,
          )
      | inr there ↦
          find_scope x tenant_id case_id (r.evidence_id ∷ met) rs k₂ (rw (there, find) at h)
    ]

-- A bundle that was constructed has the hash of its payload, and its records are of its scope.
pub record IsConstructed ⦃H : Sha256⦄ (b : EvidenceBundle) : Type 0 where
  pub hashed : uri (payload b) ≡ b.bundle_hash
  pub records_checked : check_records b.tenant_id b.case_id [] b.records ≡ ok tt

pub post_init-IsConstructed :
    ⦃H : Sha256⦄ (b : EvidenceBundle) → post_init b ≡ ok tt → IsConstructed b
unfolding post_init compute_hash
post_init-IsConstructed b h =
    let (_, h₁) = >>-eq-ok (identifier b.bundle_id "bundle_id") _ h in
    let (_, h₂) = >>-eq-ok (identifier b.tenant_id "tenant_id") _ h₁ in
    let (_, h₃) = >>-eq-ok (identifier b.case_id "case_id") _ h₂ in
    let (_, h₄) = >>-eq-ok (hash_uri b.bundle_hash "bundle_hash") _ h₃ in
    let (_, h₅) = >>-eq-ok (raise_if (is_nil b.records) contract_error _) _ h₄ in
    let (checked, h₆) = >>-eq-ok (check_records b.tenant_id b.case_id [] b.records) _ h₅ in
    let h₇ = rw (sha256_uri-ok (payload b) (payload-json b)) at h₆ in
    record {
      hashed = sym ((eq_iff _ _).0 (require_that-ok (b.bundle_hash == uri (payload b)) _ _ h₇));
      records_checked = checked;
    }

pub require-scope :
    ⦃H : Sha256⦄ (b : EvidenceBundle) (x : String) {e : EvidenceRecord}
    → IsConstructed b
    → require b x ≡ ok e
    → (e.tenant_id ≡ b.tenant_id) × (e.case_id ≡ b.case_id)
require-scope b x k h = find_scope x b.tenant_id b.case_id [] b.records k.records_checked h
