-- ===== src/Workflow/Activity.antt =====
-- ActivityRecordBuilder of src/provable_agent_reference/synthetic_workflow.py: it assigns order and
-- hashes to the activities of a run.
pub mod Linked
use provable_agent_reference.Base.{ℕ, suc, String, List, [], ◌∷◌, Option, none, some, ◌<>◌, slice}
use provable_agent_reference.Errors.{Result, ok, ◌>>=◌}
use provable_agent_reference.Json.{Value, Fields, null, str, int, arr, obj, end, pos, ◌⇒◌⨾◌, texts}
use provable_agent_reference.Canonical.{Sha256, sha256_uri, value}
use provable_agent_reference.Contracts.TrustedRunContext.{TrustedRunContext}

pub record ActivityRecordBuilder : Type 0 where
  pub context : TrustedRunContext
  pub previous_hash : Option String
  pub sequence : ℕ

abbrev pub activity_record_builder : TrustedRunContext → ActivityRecordBuilder
activity_record_builder context = record { context = context; previous_hash = none; sequence = 0 }

abbrev pub event_identity : ActivityRecordBuilder → String → String → Value
event_identity self event_type body_hash = obj (
    "run_id"
    ⇒ str self.context.run_id ⨾ "sequence"
    ⇒ int (pos self.sequence) ⨾ "event_type"
    ⇒ str event_type ⨾ "body_hash"
    ⇒ str body_hash ⨾ end)

-- What the caller hands to `append`.
pub record Activity : Type 0 where
  pub event_type : String
  pub body : Value
  pub actor_subject : String
  pub actor_type : String

-- A hash, or None in front of the first record.
abbrev pub hash_or_none : Option String → Value
hash_or_none none = null
hash_or_none (some h) = str h

-- `payload`, in front of what else its dict holds.
abbrev pub record_fields : ActivityRecordBuilder → Activity → String → String → Fields → Fields
record_fields self a body_hash event_id more =
    "$schema"
    ⇒ str
        "https://digitrans.app/schemas/provable-agent-reference/agent-activity-record.schema.json" ⨾
      "event_version"
    ⇒ str "0.1-draft" ⨾ "record_type"
    ⇒ str "agent_activity" ⨾ "event_id"
    ⇒ str event_id ⨾ "event_type"
    ⇒ str a.event_type ⨾ "tenant_id"
    ⇒ str self.context.tenant_id ⨾ "case_id"
    ⇒ str self.context.case_id ⨾ "run_id"
    ⇒ str self.context.run_id ⨾ "parent_run_id"
    ⇒ null ⨾ "sequence"
    ⇒ int (pos self.sequence) ⨾ "actor"
    ⇒ obj (
        "subject"
        ⇒ str a.actor_subject ⨾ "issuer"
        ⇒ str "synthetic://local-test-issuer" ⨾ "actor_type"
        ⇒ str a.actor_type ⨾ end) ⨾
      "policy_version"
    ⇒ str "policy:synthetic:1" ⨾ "occurred_at"
    ⇒ str self.context.created_at ⨾ "occurred_at_assurance"
    ⇒ str "source_declared" ⨾ "observed_at"
    ⇒ str self.context.created_at ⨾ "observed_at_assurance"
    ⇒ str "control_plane_observed" ⨾ "previous_event_hash"
    ⇒ hash_or_none self.previous_hash ⨾ "correlation_id"
    ⇒ str ("correlation_" <> self.context.run_id) ⨾ "operation_id"
    ⇒ null ⨾ "attempt_id"
    ⇒ null ⨾ "body"
    ⇒ a.body ⨾ "body_hash"
    ⇒ str body_hash ⨾ "limitations"
    ⇒ arr (texts ("Synthetic activity with development-only time assurance." ∷ [])) ⨾ more

module _ ⦃H : Sha256⦄ where
  -- The record of an activity, with its hash.
  unfoldable pub record_of : ActivityRecordBuilder → Activity → Result (Value × String)
  record_of self a = do
    body_hash ← sha256_uri (value a.body)
    identity ← sha256_uri (value (event_identity self a.event_type body_hash))
    let fields = record_fields self a body_hash ("event_" <> slice 7 31 identity)
    record_hash ← sha256_uri (value (obj (fields end)))
    ok (obj (fields ("record_hash" ⇒ str record_hash ⨾ end)), record_hash)

  -- The record, and the builder afterwards.
  unfoldable pub append : ActivityRecordBuilder → Activity → Result (Value × ActivityRecordBuilder)
  append self a = do
    made ← record_of self a
    ok (made.0, record self { sequence = suc self.sequence; previous_hash = some made.1 })

  -- Activities appended one after the other.
  unfoldable pub append_all : ActivityRecordBuilder → List Activity → Result (List Value)
  append_all self [] = ok []
  append_all self (a ∷ more) = do
    made ← append self a
    rest ← append_all made.1 more
    ok (made.0 ∷ rest)
