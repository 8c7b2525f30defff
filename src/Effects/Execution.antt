-- ===== src/Effects/Execution.antt =====
-- SyntheticEffectExecutor.execute of src/provable_agent_reference/synthetic_effects.py: the receipt
-- of a simulated effect.
pub mod Acceptance
use text.Mathlib.TextEquality.{eq_iff}
use text.Mathlib.TextPositions.{eq_refl}
use provable_agent_reference.Base.{
  ◌≡◌, refl, String, Bool, true, false, not, ◌||◌, ◌==◌, if◌then◌else◌, List, [], ◌∷◌, member, ◌<>◌,
  Bool-cases, inl, inr, ap, sym, ◌∙◌, ◌↔◌, slice, last_of,
}
use provable_agent_reference.Errors.{
  Result, ok, permission_error, value_error, require_that, ◌>>=◌, ◌>>◌, >>=-eq-ok, >>-eq-ok,
  >>=-returns, require_that-ok, require_that-returns, ok-injective,
}
use provable_agent_reference.Json.{
  Value, null, bool, int, str, arr, obj, nil, end, pos, ◌⇒◌⨾◌, texts, Fields, is_json,
}
use provable_agent_reference.Canonical.{Sha256, sha256_uri, value}
use provable_agent_reference.Canonical.Binding.{uri, sha256_uri-ok, sha256_uri-accepts}
use provable_agent_reference.Contracts.AuthorizationResult
use provable_agent_reference.Contracts.AuthorizationResult.{AuthorizationResult}
use provable_agent_reference.Contracts.TrustedRunContext.{TrustedRunContext}
use provable_agent_reference.Effects.Lifecycle.{genuine, genuine-inv, genuine-ok}

abbrev pub receipt_schema : String
receipt_schema =
    "https://digitrans.app/schemas/provable-agent-reference/execution-receipt.schema.json"

abbrev pub synthetic_target : String
synthetic_target = "synthetic://customer-review/inbox"

pub record SyntheticEffectExecutor : Type 0 where
  pub provider : String

abbrev pub synthetic_effect_executor : SyntheticEffectExecutor
synthetic_effect_executor = record { provider = "embedded_synthetic_effect_provider" }

abbrev pub outcomes : List String
outcomes = "acknowledged" ∷ "observed" ∷ "unknown" ∷ []

abbrev pub is_observed : String → Bool
is_observed outcome = outcome == "observed"

abbrev pub is_acknowledged : String → Bool
is_acknowledged outcome = outcome == "acknowledged" || outcome == "observed"

-- `time if happened else None`
abbrev pub time_if : Bool → String → Value
time_if happened time = if happened then str time else null

abbrev pub assurance_if : Bool → Value
assurance_if happened = str (if happened then "source_declared" else "unavailable")

-- What the provider's evidence says, without its hash.
abbrev pub provider_evidence : String → String → String → Value
provider_evidence receipt_id outcome evidence_hash = obj (
    "evidence_type"
    ⇒ str (if is_observed outcome then "state_snapshot" else "delivery_record") ⨾
      "provider_receipt_ref"
    ⇒ str ("synthetic:receipt:" <> receipt_id) ⨾ "evidence_hash"
    ⇒ str evidence_hash ⨾ "semantics_version"
    ⇒ str "0.1.0" ⨾ "effect_semantics"
    ⇒ str (if is_observed outcome then "observed_effect" else "acknowledgement_only") ⨾ end)

abbrev pub submission_status : String → String
submission_status outcome = if is_observed outcome then "acknowledged" else outcome

abbrev pub effect_status : String → String
effect_status outcome =
    if is_observed outcome
    then "succeeded"
    else if outcome == "unknown"
    then "unknown"
    else "not_observed"

-- The identifiers and hashes that a receipt carries.
pub record Receipt : Type 0 where
  pub receipt_id : String
  pub operation_id : String
  pub attempt_id : String
  pub evidence : Value
  pub action_hash : String
  pub idempotency_key_commitment : String

abbrev pub time_assurance : String → Value
time_assurance outcome = obj (
    "submitted"
    ⇒ assurance_if (not (outcome == "unknown")) ⨾ "acknowledged"
    ⇒ assurance_if (is_acknowledged outcome) ⨾ "observed"
    ⇒ assurance_if (is_observed outcome) ⨾ "reconciled"
    ⇒ str "unavailable" ⨾ end)

-- `payload`, in front of what else its dict holds.
abbrev pub receipt_fields :
    SyntheticEffectExecutor
    → TrustedRunContext
    → AuthorizationResult
    → String
    → String
    → Receipt
    → Fields
    → Fields
receipt_fields self context z target_ref outcome r more =
    "$schema"
    ⇒ str receipt_schema ⨾ "schema_version"
    ⇒ str "0.1-draft" ⨾ "receipt_id"
    ⇒ str r.receipt_id ⨾ "tenant_id"
    ⇒ str context.tenant_id ⨾ "case_id"
    ⇒ str context.case_id ⨾ "run_id"
    ⇒ str context.run_id ⨾ "operation_id"
    ⇒ str r.operation_id ⨾ "attempt_id"
    ⇒ str r.attempt_id ⨾ "correlation_id"
    ⇒ str ("correlation_" <> context.run_id) ⨾ "authorization_id"
    ⇒ str z.authorization_id ⨾ "authorization_hash"
    ⇒ str z.record_hash ⨾ "executor"
    ⇒ obj (
        "subject"
        ⇒ str "executor:synthetic" ⨾ "issuer"
        ⇒ str "synthetic://local-test-issuer" ⨾ "actor_type"
        ⇒ str "effect_executor" ⨾ end) ⨾
      "adapter"
    ⇒ obj ("adapter_id" ⇒ str "adapter.synthetic_effect" ⨾ "adapter_version" ⇒ str "0.1.0" ⨾ end) ⨾
      "provider"
    ⇒ str self.provider ⨾ "operation_type"
    ⇒ str "customer_safe_packet_delivery" ⨾ "policy_version"
    ⇒ str "policy:synthetic:1" ⨾ "action_hash"
    ⇒ str r.action_hash ⨾ "target_ref"
    ⇒ str target_ref ⨾ "idempotency_key_commitment"
    ⇒ str r.idempotency_key_commitment ⨾ "attempt_number"
    ⇒ int (pos 1) ⨾ "submitted_at"
    ⇒ time_if (not (outcome == "unknown")) context.created_at ⨾ "acknowledged_at"
    ⇒ time_if (is_acknowledged outcome) context.created_at ⨾ "observed_at"
    ⇒ time_if (is_observed outcome) context.created_at ⨾ "reconciled_at"
    ⇒ null ⨾ "time_assurance"
    ⇒ time_assurance outcome ⨾ "provider_evidence"
    ⇒ r.evidence ⨾ "submission_status"
    ⇒ str (submission_status outcome) ⨾ "effect_status"
    ⇒ str (effect_status outcome) ⨾ "reconciliation_required"
    ⇒ bool (not (is_observed outcome)) ⨾ "reconciliation_method"
    ⇒ null ⨾ "errors"
    ⇒ arr nil ⨾ "authenticated_record_ref"
    ⇒ null ⨾ "limitations"
    ⇒ arr (texts ("Embedded synthetic effect; no external delivery occurred." ∷ [])) ⨾ more

module _ ⦃H : Sha256⦄ where
  -- `provider_evidence`, None unless the outcome is acknowledged.
  unfoldable pub evidence_of : String → String → Result Value
  evidence_of receipt_id outcome =
      if is_acknowledged outcome
      then (sha256_uri (value (obj ("receipt_id" ⇒ str receipt_id ⨾ "outcome" ⇒ str outcome ⨾ end)))
          >>= λ hash. ok (provider_evidence receipt_id outcome hash))
      else ok null

  -- `{**payload, "record_hash": sha256_uri(payload)}`
  unfoldable pub hashed_receipt :
      SyntheticEffectExecutor
      → TrustedRunContext
      → AuthorizationResult
      → String
      → String
      → Receipt
      → Result Value
  hashed_receipt self context z target_ref outcome r = do
    let fields = receipt_fields self context z target_ref outcome r
    record_hash ← sha256_uri (value (obj (fields end)))
    ok (obj (fields ("record_hash" ⇒ str record_hash ⨾ end)))

  -- What `execute` computes after its guards.
  unfoldable pub receipt_of :
      SyntheticEffectExecutor
      → TrustedRunContext
      → AuthorizationResult
      → Value
      → String
      → String
      → Result Value
  receipt_of self context z output target_ref outcome = do
    let operation_id = "operation_" <> last_of 24 z.authorization_id
    let operation = obj ("operation_id" ⇒ str operation_id ⨾ end)
    attempt ←
        sha256_uri (value (obj ("operation_id" ⇒ str operation_id ⨾ "attempt" ⇒ int (pos 1) ⨾ end)))
    let attempt_id = "attempt_" <> slice 7 31 attempt
    identity ← sha256_uri (value (obj ("attempt_id" ⇒ str attempt_id ⨾ end)))
    let receipt_id = "receipt_" <> slice 7 31 identity
    evidence ← evidence_of receipt_id outcome
    action_hash ← sha256_uri (value (obj ("output" ⇒ output ⨾ "target_ref" ⇒ str target_ref ⨾ end)))
    commitment ← sha256_uri (value operation)
    hashed_receipt self context z target_ref outcome (record {
      receipt_id = receipt_id;
      operation_id = operation_id;
      attempt_id = attempt_id;
      evidence = evidence;
      action_hash = action_hash;
      idempotency_key_commitment = commitment;
    })

  unfoldable pub execute :
      SyntheticEffectExecutor
      → TrustedRunContext
      → AuthorizationResult
      → Value
      → String
      → String
      → Result Value
  execute self context z output target_ref outcome = do
    require_that (target_ref == synthetic_target) permission_error
        "only the embedded synthetic target is reachable"
    valid ← genuine z
    require_that valid permission_error "authorization is invalid or denied"
    output_hash ← sha256_uri (value output)
    require_that (output_hash == z.output_hash) permission_error
        "effect output differs from the exact-use authorization"
    require_that (member outcome outcomes) value_error "unsupported synthetic effect outcome"
    receipt_of self context z output target_ref outcome
