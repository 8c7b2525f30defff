-- ===== src/ControlPlane/Service.antt =====
-- ControlPlaneService.create_run of src/provable_agent_reference/control_plane/service.py: the rows
-- of a run request, under an idempotency key. The two random identifiers are arguments.
pub mod Replay
pub mod Delegate
use provable_agent_reference.Base.{
  ℕ, String, ◌||◌, List, [], ◌∷◌, Option, none, some, ◌<>◌, is_empty, count, ltb,
}
use provable_agent_reference.Errors.{Result, ok, err, value_error, raise_if, ◌>>=◌, ◌>>◌}
use provable_agent_reference.Json.{Value, null, str, int, obj, end, pos, ◌⇒◌⨾◌}
use provable_agent_reference.Canonical.{Sha256, sha256_uri, short_id, value}
use provable_agent_reference.ControlPlane.Models.{RunRequest, journal_body}
use provable_agent_reference.ControlPlane.Database.{Database, Run, IdempotencyKey, JournalRecord}
use provable_agent_reference.ControlPlane.Runs as runs
use provable_agent_reference.ControlPlane.Runs.{OutboxEntry}

-- What the run's identifier is derived from.
abbrev pub run_identity : RunRequest → String → Value
run_identity r idempotency_key = obj (
    "case_id"
    ⇒ str r.case_id ⨾ "idempotency_key"
    ⇒ str idempotency_key ⨾ "requester_subject"
    ⇒ str r.requester_subject ⨾ "tenant_id"
    ⇒ str r.tenant_id ⨾ end)

-- `request.__dict__`
abbrev pub request_dict : RunRequest → Value
request_dict r = obj (
    "tenant_id"
    ⇒ str r.tenant_id ⨾ "case_id"
    ⇒ str r.case_id ⨾ "requester_subject"
    ⇒ str r.requester_subject ⨾ "purpose"
    ⇒ str r.purpose ⨾ "audience"
    ⇒ str r.audience ⨾ "risk_tier"
    ⇒ int r.risk_tier ⨾ "policy_version"
    ⇒ str r.policy_version ⨾ end)

abbrev pub event_without_hash : RunRequest → String → String → String → Value
event_without_hash r event_id run_id body_hash = obj (
    "event_id"
    ⇒ str event_id ⨾ "tenant_id"
    ⇒ str r.tenant_id ⨾ "case_id"
    ⇒ str r.case_id ⨾ "run_id"
    ⇒ str run_id ⨾ "sequence"
    ⇒ int (pos 0) ⨾ "previous_event_hash"
    ⇒ null ⨾ "body"
    ⇒ journal_body r ⨾ "body_hash"
    ⇒ str body_hash ⨾ end)

abbrev pub run_row : RunRequest → String → Run
run_row r run_id = record {
  run_id = run_id;
  tenant_id = r.tenant_id;
  case_id = r.case_id;
  requester_subject = r.requester_subject;
  purpose = r.purpose;
  audience = r.audience;
  risk_tier = r.risk_tier;
  policy_version = r.policy_version;
  status = "requested";
}

abbrev pub event_row : RunRequest → String → String → String → String → JournalRecord
event_row r event_id run_id body_hash record_hash = record {
  event_id = event_id;
  tenant_id = r.tenant_id;
  case_id = r.case_id;
  run_id = run_id;
  sequence = 0;
  previous_event_hash = none;
  body = journal_body r;
  body_hash = body_hash;
  record_hash = record_hash;
}

abbrev pub requested : RunRequest → String → String → String → String → OutboxEntry
requested r random event_id run_id record_hash = record {
  outbox_id = "outbox_" <> random;
  tenant_id = r.tenant_id;
  aggregate_type = "run";
  aggregate_id = run_id;
  event_type = "run.requested";
  payload = obj ("event_id" ⇒ str event_id ⨾ "record_hash" ⇒ str record_hash ⨾ end);
}

abbrev pub key_dict : String → Value
key_dict idempotency_key = obj ("idempotency_key" ⇒ str idempotency_key ⨾ end)

abbrev pub key_row : RunRequest → String → String → String → IdempotencyKey
key_row r commitment request_hash run_id = record {
  tenant_id = r.tenant_id;
  subject = r.requester_subject;
  operation = "run.create";
  key_commitment = commitment;
  request_hash = request_hash;
  result_ref = some run_id;
}

module _ ⦃H : Sha256⦄ where
  unfoldable pub create_run :
      ℕ → String → String → RunRequest → String → Database → Result (String × Database)
  create_run now event_random outbox_random r idempotency_key db = do
    raise_if (is_empty idempotency_key || ltb 500 (count idempotency_key)) value_error
        "a bounded idempotency key is required"
    run_id ← short_id "run_" (run_identity r idempotency_key)
    let event_id = "evt_" <> event_random
    body_hash ← sha256_uri (value (journal_body r))
    record_hash ← sha256_uri (value (event_without_hash r event_id run_id body_hash))
    commitment ← sha256_uri (value (key_dict idempotency_key))
    request_hash ← sha256_uri (value (request_dict r))
    runs.create_run now (run_row r run_id) (event_row r event_id run_id body_hash record_hash)
        (requested r outbox_random event_id run_id record_hash)
        (key_row r commitment request_hash run_id) db
