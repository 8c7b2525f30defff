-- ===== src/Workflow/Memory/Scoped.antt =====
-- Which evidence a query of the memory releases.
use mathlib.Core.Path.{subst}
use text.Mathlib.TextEquality.{eq_iff}
use provable_agent_reference.Base.{
  ℕ, ◌≤◌, ◌≡◌, sym, ap, ◌∙◌, String, not, ◌&&◌, ◌||◌, ◌==◌, if◌then◌else◌, List, [], ◌∷◌, take,
  length, length-take, All, Bool-cases, inl, inr, &&-eq-true, arith, is_empty, leb, suc, zero,
  codes, ◌<>◌,
}
use provable_agent_reference.Errors.{ok, >>=-eq-ok, >>-eq-ok, raise_if, ok-injective, value_error}
use provable_agent_reference.Json.{Value}
use provable_agent_reference.Canonical.{Sha256, sha256_uri, bytes}
use provable_agent_reference.Canonical.Utf8.{encode}
use provable_agent_reference.Contracts.TrustedRunContext.{TrustedRunContext}
use provable_agent_reference.Contracts.EvidenceRecord
use provable_agent_reference.Contracts.EvidenceRecord.{EvidenceRecord}
use provable_agent_reference.ControlPlane.Models.{CapabilityGrant}
use provable_agent_reference.Workflow.Grant.{require_grant}
use provable_agent_reference.Workflow.Memory.{SyntheticMemoryRecord, scoped, evidence_of, query}

abbrev InScope : TrustedRunContext → SyntheticMemoryRecord → Type 0
InScope context r = (r.tenant_id ≡ context.tenant_id) × (r.case_id ≡ context.case_id)

-- A released record is of the context's tenant and case.
abbrev pub IsReleased : TrustedRunContext → EvidenceRecord → Type 0
IsReleased context e = (e.tenant_id ≡ context.tenant_id) × (e.case_id ≡ context.case_id)

scoped-InScope :
    (context : TrustedRunContext) (rs : List SyntheticMemoryRecord) (n : ℕ)
    → All (InScope context) (take n (scoped context rs))
unfolding scoped
scoped-InScope context rs zero = tt
scoped-InScope context [] (suc n) = tt
scoped-InScope context (r ∷ rs) (suc n) =
    elim (Bool-cases (r.tenant_id == context.tenant_id && r.case_id == context.case_id)) [
      | inl e ↦
          let (p, q) = &&-eq-true {a = r.tenant_id == context.tenant_id} e in
          subst
            (λ b.
              All (InScope context)
                (take (suc n) (if b then r ∷ scoped context rs else scoped context rs)))
            (sym e) (((eq_iff _ _).0 p, (eq_iff _ _).0 q), scoped-InScope context rs n)
      | inr e ↦
          subst
            (λ b.
              All (InScope context)
                (take (suc n) (if b then r ∷ scoped context rs else scoped context rs)))
            (sym e) (scoped-InScope context rs (suc n))
    ]

module _ ⦃H : Sha256⦄ where
  from_text-scope :
      (evidence_id tenant_id case_id text source_uri classification summary : String)
      {e : EvidenceRecord}
      → EvidenceRecord.from_text evidence_id tenant_id case_id text source_uri classification
          summary
        ≡ ok e
      → (tenant_id ≡ e.tenant_id) × (case_id ≡ e.case_id)
  unfolding EvidenceRecord.from_text
  from_text-scope evidence_id tenant_id case_id text source_uri classification summary h =
      let (_, _, k) = >>=-eq-ok (sha256_uri (bytes (encode (codes text)))) _ h in
      let (_, made) = >>-eq-ok (EvidenceRecord.post_init _) _ k in
      let same = ok-injective made in (ap (λ r. r.tenant_id) same, ap (λ r. r.case_id) same)

  evidence_of-IsReleased :
      (context : TrustedRunContext) (rs : List SyntheticMemoryRecord) {es : List EvidenceRecord}
      → All (InScope context) rs
      → evidence_of rs ≡ ok es
      → All (IsReleased context) es × length es ≡ length rs
  unfolding evidence_of
  evidence_of-IsReleased context [] h e =
      let same = ok-injective e in (subst (All (IsReleased context)) same tt, ap length (sym same))
  evidence_of-IsReleased context (r ∷ rs) ((p, q), h) e =
      let (first, made, e₁) =
        >>=-eq-ok
          (EvidenceRecord.from_text r.evidence_id r.tenant_id r.case_id r.text
            ("synthetic://memory/" <> r.evidence_id) r.classification r.summary)
          _ e in
      let (rest, more, e₂) = >>=-eq-ok (evidence_of rs) _ e₁ in
      let (released, count) = evidence_of-IsReleased context rs h more in
      let (t, c) = from_text-scope _ _ _ _ _ _ _ made in
      let same = ok-injective e₂ in
      (
        subst (All (IsReleased context)) same ((sym t ∙ p, sym c ∙ q), released),
        ap length (sym same) ∙ ap suc count,
      )

  -- The evidence that a query of the memory returns is all of the context's tenant and case,
  -- and there are at most as many records as the limit.
  pub query-IsReleased :
      (records : List SyntheticMemoryRecord) (now : ℕ) (context : TrustedRunContext)
      (grant : CapabilityGrant) (question : String) (limit : ℕ) {es : List EvidenceRecord}
      {activity : Value}
      → query records now context grant question limit ≡ ok (es, activity)
      → All (IsReleased context) es × length es ≤ limit
  unfolding query
  query-IsReleased records now context grant question limit h =
      let (_, h₁) = >>-eq-ok (require_grant now context grant "memory.read") _ h in
      let (_, h₂) =
        >>-eq-ok (raise_if (is_empty question || not (leb 1 limit && leb limit 100)) value_error _)
          _ h₁ in
      let (evidence, made, h₃) =
        >>=-eq-ok (evidence_of (take limit (scoped context records))) _ h₂ in
      let (_, _, h₄) = >>=-eq-ok (sha256_uri _) _ h₃ in
      let (_, _, h₅) = >>=-eq-ok (sha256_uri _) _ h₄ in
      let (_, _, h₆) = >>=-eq-ok (sha256_uri _) _ h₅ in
      let same = ap (λ p. p.0) (ok-injective h₆) in
      let (released, count) =
        evidence_of-IsReleased context _ (scoped-InScope context records limit) made in
      let taken = length-take limit (scoped context records) in
      let bound : length evidence ≤ limit = omega arith in
      (subst (All (IsReleased context)) same released, subst (λ xs. length xs ≤ limit) same bound)
