-- ===== src/Effects/Execution/Acceptance.antt =====
-- When the executor of a simulated effect returns a receipt.
use text.Mathlib.TextEquality.{eq_iff}
use text.Mathlib.TextPositions.{eq_refl}
use provable_agent_reference.Base.{
  ◌≡◌, refl, String, Bool, true, false, not, ◌==◌, member, Bool-cases, inl, inr, ap, sym, ◌∙◌, ◌↔◌,
}
use provable_agent_reference.Errors.{
  ok, require_that, >>=-eq-ok, >>-eq-ok, >>=-returns, require_that-ok, require_that-returns,
  ok-injective,
}
use provable_agent_reference.Json.{Value, null, str, obj, end, ◌⇒◌⨾◌, is_json}
use provable_agent_reference.Canonical.{Sha256, sha256_uri, value}
use provable_agent_reference.Canonical.Binding.{uri, sha256_uri-ok, sha256_uri-accepts}
use provable_agent_reference.Contracts.AuthorizationResult
use provable_agent_reference.Contracts.AuthorizationResult.{AuthorizationResult}
use provable_agent_reference.Contracts.TrustedRunContext.{TrustedRunContext}
use provable_agent_reference.Effects.Lifecycle.{genuine, genuine-inv, genuine-ok}
use provable_agent_reference.Effects.Execution.{
  synthetic_target, SyntheticEffectExecutor, outcomes, is_observed, is_acknowledged, time_if,
  provider_evidence, Receipt, receipt_fields, evidence_of, hashed_receipt, receipt_of, execute,
}

-- What `execute` needs.
pub record IsExecutable ⦃H : Sha256⦄ (z : AuthorizationResult) (output : Value)
    (target_ref outcome : String) : Type 0 where
  pub target : target_ref ≡ synthetic_target
  pub authorized : z.authorized ≡ true
  pub hashed : z.record_hash ≡ uri (AuthorizationResult.payload z)
  pub output_json : is_json output ≡ true
  pub exact : uri output ≡ z.output_hash
  pub supported : member outcome outcomes ≡ true

module _ ⦃H : Sha256⦄ (self : SyntheticEffectExecutor) (context : TrustedRunContext)
    (z : AuthorizationResult) (output : Value) (target_ref outcome : String) where
  evidence_of-ok :
      (receipt_id : String)
      → (evidence : Value) × (evidence_of receipt_id outcome ≡ ok evidence)
        × (is_json evidence ≡ true)
  unfolding evidence_of is_json
  evidence_of-ok receipt_id = elim (Bool-cases (is_acknowledged outcome)) [
    | inl e ↦
        let hash = uri (obj ("receipt_id" ⇒ str receipt_id ⨾ "outcome" ⇒ str outcome ⨾ end)) in
        (provider_evidence receipt_id outcome hash, rw e (rw (sha256_uri-ok _ refl) refl), refl)
    | inr e ↦ (null, rw e refl, refl)
  ]

  time_if-json : (happened : Bool) (time : String) → is_json (time_if happened time) ≡ true
  unfolding is_json
  time_if-json true time = refl
  time_if-json false time = refl

  receipt_fields-json :
      (r : Receipt)
      → is_json r.evidence ≡ true
      → is_json (obj (receipt_fields self context z target_ref outcome r end)) ≡ true
  unfolding is_json
  receipt_fields-json r j = rw (time_if-json (not (outcome == "unknown")) context.created_at) (
      rw (time_if-json (is_acknowledged outcome) context.created_at)
        (rw (time_if-json (is_observed outcome) context.created_at) (rw j refl)))

  hashed_receipt-ok :
      (r : Receipt)
      → is_json r.evidence ≡ true
      → (v : Value) × (hashed_receipt self context z target_ref outcome r ≡ ok v)
  unfolding hashed_receipt
  hashed_receipt-ok r j = >>=-returns _ (sha256_uri-ok _ (receipt_fields-json r j)) (_, refl)

  receipt_of-ok :
      is_json output ≡ true
      → (r : Value) × (receipt_of self context z output target_ref outcome ≡ ok r)
  unfolding receipt_of is_json
  receipt_of-ok j = >>=-returns _ (sha256_uri-ok _ refl) (
      >>=-returns _ (sha256_uri-ok _ refl) (
        let (evidence, e, k) = evidence_of-ok _ in
        >>=-returns _ e (
          >>=-returns _ (sha256_uri-ok _ (rw j refl))
            (>>=-returns _ (sha256_uri-ok _ refl) (hashed_receipt-ok _ k)))))

  -- The executor returns a receipt exactly when the target is the synthetic one, the
  -- authorization is granted and has the hash of its payload, the output is serializable and
  -- has the authorized hash, and the outcome is a supported one.
  pub execute-returns_iff :
      ((r : Value) × (execute self context z output target_ref outcome ≡ ok r))
      ↔ IsExecutable z output target_ref outcome
  unfolding execute
  execute-returns_iff = (
    λ (r, h).
        let (target, h₁) = >>-eq-ok (require_that (target_ref == synthetic_target) _ _) _ h in
        let (valid, known, h₂) = >>=-eq-ok (genuine z) _ h₁ in
        let (true_valid, h₃) = >>-eq-ok (require_that valid _ _) _ h₂ in
        let (granted, hashed) = genuine-inv z (known ∙ ap ok (require_that-ok _ _ _ true_valid)) in
        let (hash, hashes, h₄) = >>=-eq-ok (sha256_uri (value output)) _ h₃ in
        let (same, h₅) = >>-eq-ok (require_that (hash == z.output_hash) _ _) _ h₄ in
        let (supported, _) = >>-eq-ok (require_that (member outcome outcomes) _ _) _ h₅ in
        let j = sha256_uri-accepts output hashes in
        record {
          target = (eq_iff _ _).0 (require_that-ok _ _ _ target);
          authorized = granted;
          hashed = hashed;
          output_json = j;
          exact =
              ok-injective (sym (sha256_uri-ok output j) ∙ hashes)
              ∙ (eq_iff _ _).0 (require_that-ok _ _ _ same);
          supported = require_that-ok _ _ _ supported;
        },
    λ n.
        >>=-returns _
          (require_that-returns _ _
            (ap (λ t. t == synthetic_target) n.target ∙ eq_refl synthetic_target))
          (>>=-returns _ (genuine-ok z n.authorized n.hashed) (
            >>=-returns _ (sha256_uri-ok output n.output_json) (
              >>=-returns _
                (require_that-returns _ _
                  (ap (λ u. u == z.output_hash) n.exact ∙ eq_refl z.output_hash))
                (>>=-returns _ (require_that-returns _ _ n.supported)
                  (receipt_of-ok n.output_json))))),
  )
