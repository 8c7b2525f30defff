-- ===== src/Effects/Reconciliation.antt =====
-- SyntheticEffectExecutor.reconcile of src/provable_agent_reference/synthetic_effects.py: the record
-- that settles a receipt. The receipt is a dict; `str` of a value that is not a text is an argument.
pub mod Bound
use provable_agent_reference.Base.{
  String, Bool, true, false, ◌==◌, if◌then◌else◌, List, [], ◌∷◌, Option, none, some, ◌<>◌, last_of,
}
use provable_agent_reference.Errors.{
  Result, ok, err, type_error, permission_error, require_that, ◌>>=◌, ◌>>◌,
}
use provable_agent_reference.Json.{Value, Fields, null, str, arr, obj, end, nil, texts, ◌⇒◌⨾◌}
use provable_agent_reference.Json.Entries.{entry, item, payload_of}
use provable_agent_reference.Json.Equality.{py_eq}
use provable_agent_reference.Canonical.{Sha256, sha256_uri, value}

abbrev pub reconciliation_schema : String
reconciliation_schema =
    "https://digitrans.app/schemas/provable-agent-reference/reconciliation-record.schema.json"

-- `receipt.get("record_hash") == expected`
abbrev pub is_hash : Option Value → String → Bool
is_hash none expected = false
is_hash (some given) expected = py_eq given (str expected)

-- `receipt["receipt_id"]`, of which the source takes a slice that it adds to a text.
abbrev pub text_only : Value → Result String
text_only (str s) = ok s
text_only v = err type_error "can only concatenate str"

-- An f-string's rendering of a value
abbrev pub rendered : (Value → String) → Value → String
rendered text_of (str s) = s
rendered text_of v = text_of v

-- The entries of the receipt that the record takes over.
pub record Settled : Type 0 where
  pub receipt_id : String
  pub tenant_id : Value
  pub case_id : Value
  pub run_id : Value
  pub receipt_hash : Value
  pub operation : String

-- `payload`, in front of what else its dict holds.
abbrev pub reconciliation_fields : Settled → Bool → String → Fields → Fields
reconciliation_fields s observed_effect reconciled_at more =
    "$schema"
    ⇒ str reconciliation_schema ⨾ "schema_version"
    ⇒ str "0.1-draft" ⨾ "reconciliation_id"
    ⇒ str ("reconciliation_" <> last_of 24 s.receipt_id) ⨾ "tenant_id"
    ⇒ s.tenant_id ⨾ "case_id"
    ⇒ s.case_id ⨾ "run_id"
    ⇒ s.run_id ⨾ "receipt_id"
    ⇒ str s.receipt_id ⨾ "receipt_hash"
    ⇒ s.receipt_hash ⨾ "method"
    ⇒ str "state_comparison" ⨾ "effect_status"
    ⇒ str (if observed_effect then "succeeded" else "unknown") ⨾ "reconciled_at"
    ⇒ str reconciled_at ⨾ "evidence_refs"
    ⇒ arr (texts (("synthetic:state:" <> s.operation) ∷ [])) ⨾ "discrepancies"
    ⇒ arr (if observed_effect then nil else texts ("Synthetic effect remains unobserved." ∷ [])) ⨾
      "compensating_authorization_id"
    ⇒ null ⨾ "limitations"
    ⇒ arr (texts ("Synthetic state comparison; no provider system was queried." ∷ [])) ⨾ more

module _ ⦃H : Sha256⦄ (text_of : Value → String) where
  unfoldable pub settled : Fields → Result Settled
  settled receipt = do
    receipt_id ← item "receipt_id" (obj receipt) >>= text_only
    tenant_id ← item "tenant_id" (obj receipt)
    case_id ← item "case_id" (obj receipt)
    run_id ← item "run_id" (obj receipt)
    receipt_hash ← item "record_hash" (obj receipt)
    operation ← item "operation_id" (obj receipt)
    ok (record {
      receipt_id = receipt_id;
      tenant_id = tenant_id;
      case_id = case_id;
      run_id = run_id;
      receipt_hash = receipt_hash;
      operation = rendered text_of operation;
    })

  unfoldable pub reconcile : Fields → Bool → String → Result Value
  reconcile receipt observed_effect reconciled_at = do
    expected ← sha256_uri (value (payload_of (obj receipt)))
    require_that (is_hash (entry "record_hash" (obj receipt)) expected) permission_error
        "receipt integrity verification failed"
    s ← settled receipt
    let fields = reconciliation_fields s observed_effect reconciled_at
    record_hash ← sha256_uri (value (obj (fields end)))
    ok (obj (fields ("record_hash" ⇒ str record_hash ⨾ end)))
