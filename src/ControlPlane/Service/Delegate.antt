-- ===== src/ControlPlane/Service/Delegate.antt =====
-- ControlPlaneService.delegate_capability of
-- src/provable_agent_reference/control_plane/service.py: the document of a child grant and its
-- identifier. The two random identifiers are arguments.
use Prim.Native.String.{compare}
use text.Mathlib.Text.{is_le}
use provable_agent_reference.Base.{
  ℕ, String, ◌||◌, ◌==◌, if◌then◌else◌, List, [], ◌∷◌, ◌<>◌, is_empty, count, ltb,
}
use provable_agent_reference.Errors.{
  Result, value_error, permission_error, raise_if, require_that, ◌>>=◌, ◌>>◌,
}
use provable_agent_reference.Json.{Value, str, int, arr, texts, obj, end, ◌⇒◌⨾◌}
use provable_agent_reference.Canonical.{Sha256, sha256_uri, short_id, value}
use provable_agent_reference.ControlPlane.Models.{CapabilityGrant, permits_child}
use provable_agent_reference.ControlPlane.Database.{Database}
use provable_agent_reference.ControlPlane.Delegations.{IsoFormat, create_delegation}

-- `require_attenuation`
unfoldable pub require_attenuation : CapabilityGrant → CapabilityGrant → Result (Unit {0})
require_attenuation parent child =
    require_that (permits_child parent child) permission_error
      "child capability grant expands parent authority"

-- `sorted(names)` of a frozen set: in the order of code points, each name once.
unfoldable pub place_name : String → List String → List String
place_name x [] = x ∷ []
place_name x (y ∷ ys) =
    let rest = place_name x ys in
    if x == y then y ∷ ys else if is_le (compare x y) then x ∷ y ∷ ys else y ∷ rest

unfoldable pub sorted : List String → List String
sorted [] = []
sorted (x ∷ xs) = place_name x (sorted xs)

abbrev pub grant_document : IsoFormat → CapabilityGrant → Value
grant_document iso child = obj (
    "allowed_effects"
    ⇒ arr (texts (sorted child.allowed_effects)) ⨾ "capabilities"
    ⇒ arr (texts (sorted child.capabilities)) ⨾ "case_id"
    ⇒ str child.case_id ⨾ "delegation_depth"
    ⇒ int child.delegation_depth ⨾ "max_model_calls"
    ⇒ int child.max_model_calls ⨾ "max_tool_calls"
    ⇒ int child.max_tool_calls ⨾ "tenant_id"
    ⇒ str child.tenant_id ⨾ "valid_until"
    ⇒ str (iso.isoformat child.valid_until) ⨾ end)

abbrev pub grant_identity : Value → String → String → String → Value
grant_identity document idempotency_key parent_grant_id run_id = obj (
    "document"
    ⇒ document ⨾ "idempotency_key"
    ⇒ str idempotency_key ⨾ "parent_grant_id"
    ⇒ str parent_grant_id ⨾ "run_id"
    ⇒ str run_id ⨾ end)

module _ ⦃H : Sha256⦄ (iso : IsoFormat) where
  unfoldable pub delegate_capability :
      ℕ
      → String
      → String
      → String
      → String
      → CapabilityGrant
      → String
      → Database
      → Result (String × Database)
  delegate_capability now event_random outbox_random run_id parent_grant_id child idempotency_key
        db =
      do
        raise_if (is_empty run_id || is_empty parent_grant_id) value_error
            "run_id and parent_grant_id are required"
        raise_if (is_empty idempotency_key || ltb 500 (count idempotency_key)) value_error
            "a bounded idempotency key is required"
        let document = grant_document iso child
        grant_id ←
            short_id "grant_" (grant_identity document idempotency_key parent_grant_id run_id)
        grant_hash ← sha256_uri (value document)
        create_delegation iso now
            (record {
              grant_id = grant_id;
              tenant_id = child.tenant_id;
              case_id = child.case_id;
              run_id = run_id;
              parent_grant_id = parent_grant_id;
              grant_document = document;
              grant_hash = grant_hash;
              valid_until = child.valid_until;
            })
            ("evt_" <> event_random) ("outbox_" <> outbox_random) db
