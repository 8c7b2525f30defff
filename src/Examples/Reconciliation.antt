-- ===== src/Examples/Reconciliation.antt =====
-- The theorem about reconciliations at a concrete receipt.
use provable_agent_reference.Base.{◌≡◌, refl, String, true}
use provable_agent_reference.Errors.{Result, ok, err}
use provable_agent_reference.Json.{Value, Fields, str, obj, null, end, ◌⇒◌⨾◌}
use provable_agent_reference.Json.Equality.{py_eq, lookup, key_eq}
use provable_agent_reference.Json.Order.{sort_keys}
use provable_agent_reference.Json.Print.{print}
use provable_agent_reference.Canonical.{
  sha256_uri, canonical_json, require_string_keys, serializable,
}
use provable_agent_reference.Canonical.Utf8.{encode, encode_char}
use provable_agent_reference.ControlPlane.EffectRecords.{check_pair, check_hash}
use provable_agent_reference.Effects.Reconciliation.{reconcile, settled}
use provable_agent_reference.Effects.Reconciliation.Bound.{reconcile-check_pair}
use provable_agent_reference.Examples.Data.{toy}

abbrev receipt : Fields
receipt =
    "receipt_id"
    ⇒ str "receipt_0123456789abcdef01234567" ⨾ "tenant_id"
    ⇒ str "tenant_demo" ⨾ "case_id"
    ⇒ str "case_demo" ⨾ "run_id"
    ⇒ str "run_demo" ⨾ "operation_id"
    ⇒ str "operation_1" ⨾ "record_hash"
    ⇒ str "sha256:fedcba9876543210fedcba9876543210fedcba9876543210fedcba9876543210" ⨾ end

abbrev blank : Value → String
blank v = ""

abbrev value_or_null : Result Value → Value
value_or_null (ok v) = v
value_or_null (err e m) = null

abbrev reconciliation : Value
reconciliation = value_or_null (reconcile blank receipt true "2026-01-01T00:00:00Z")

reconciled : reconcile blank receipt true "2026-01-01T00:00:00Z" ≡ ok reconciliation
unfolding reconcile settled sha256_uri canonical_json serializable require_string_keys sort_keys
    print encode encode_char py_eq lookup key_eq
reconciled = refl

reconcile-check_pair_example :
    (check_pair (obj receipt) reconciliation ≡ ok tt)
    × (check_hash "invalid" (obj receipt) ≡ ok tt)
    × (check_hash "invalid" reconciliation ≡ ok tt)
reconcile-check_pair_example =
    reconcile-check_pair blank receipt true "2026-01-01T00:00:00Z" "invalid" reconciliation
      reconciled
