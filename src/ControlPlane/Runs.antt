-- ===== src/ControlPlane/Runs.antt =====
-- create_run of src/provable_agent_reference/control_plane/store.py: one transaction that claims the
-- idempotency key, writes the run, its first journal record and the outbox item, and binds the
-- result to the key. Where it raises, the database stays as it was.
pub mod Remembered
use provable_agent_reference.Base.{
  ℕ, String, Bool, true, false, ◌&&◌, ◌==◌, nat_eq, leb, List, Option, none, some,
}
use provable_agent_reference.Errors.{
  Result, ok, err, runtime_error, database_error, require_that, raise_if, ◌>>=◌, ◌>>◌,
}
use provable_agent_reference.Json.{Value, pos}
use provable_agent_reference.Contracts.Validation.{is_hash_uri}
use provable_agent_reference.ControlPlane.Models.{int_leb}
use provable_agent_reference.ControlPlane.Table.{update, rowcount, insert_row, first}
use provable_agent_reference.ControlPlane.Database.{
  Database, Run, IdempotencyKey, JournalRecord, jsonb, chain_check, enqueue,
}

-- The dict `outbox`.
pub record OutboxEntry : Type 0 where
  pub outbox_id : String
  pub tenant_id : String
  pub aggregate_type : String
  pub aggregate_id : String
  pub event_type : String
  pub payload : Value

-- `tenant_id = ... AND subject = ... AND operation = ... AND key_commitment = ...`
abbrev pub same_key : IdempotencyKey → IdempotencyKey → Bool
same_key k r =
    r.tenant_id == k.tenant_id
    && (r.subject == k.subject
        && (r.operation == k.operation && r.key_commitment == k.key_commitment))

abbrev pub committed_result : Option String → Result String
committed_result none = err runtime_error "idempotency operation has no committed result"
committed_result (some ref) = ok ref

abbrev pub reused : String
reused = "idempotency key was reused for a different request"

-- `INSERT INTO runs`, with the status that the statement writes.
unfoldable pub insert_run : Run → List Run → Result (List Run)
insert_run run rows = do
  require_that (nat_eq (rowcount (λ r. r.run_id == run.run_id) rows) 0) database_error
      "runs: the primary key is taken"
  require_that (int_leb (pos 0) run.risk_tier && int_leb run.risk_tier (pos 4)) database_error
      "runs: risk_tier is between 0 and 4"
  ok (insert_row (record run { status = "requested" }) rows)

-- `INSERT INTO journal_records`, where a row of `runs` has the run's identifier.
unfoldable pub insert_journal :
    JournalRecord → List Run → List JournalRecord → Result (List JournalRecord)
insert_journal e runs rows = do
  body ← jsonb e.body
  require_that (nat_eq (rowcount (λ s. s.event_id == e.event_id) rows) 0) database_error
      "journal_records: the event identifier is taken"
  raise_if (nat_eq (rowcount (λ r. r.run_id == e.run_id) runs) 0) database_error
      "journal_records: the run does not exist"
  require_that
      (nat_eq (rowcount (λ s. s.run_id == e.run_id && nat_eq s.sequence e.sequence) rows) 0)
      database_error "journal_records: the sequence is taken"
  require_that
      (chain_check e.sequence e.previous_event_hash
        && (is_hash_uri e.body_hash && is_hash_uri e.record_hash))
      database_error "journal_records: a hash is invalid"
  ok (insert_row (record e { body = body }) rows)

-- The key's row, and the update that binds the result to it.
abbrev pub claimed_key : IdempotencyKey → IdempotencyKey
claimed_key k = record k { result_ref = none }

abbrev pub bind_result : IdempotencyKey → IdempotencyKey → IdempotencyKey
bind_result k r = record r { result_ref = k.result_ref }

abbrev pub text_of : Option String → String
text_of none = "None"
text_of (some ref) = ref

-- The transaction for a key that was not claimed before.
unfoldable pub create_new :
    ℕ → Run → JournalRecord → OutboxEntry → IdempotencyKey → Database → Result (String × Database)
create_new now run event item key db = do
  runs ← insert_run run db.runs
  journal ← insert_journal event runs db.journal
  payload ← jsonb item.payload
  outbox ←
      enqueue now item.outbox_id item.tenant_id item.aggregate_type item.aggregate_id
        item.event_type payload db.outbox
  ok (
    text_of key.result_ref,
    record db {
      runs = runs;
      idempotency_keys =
          update (same_key key) (bind_result key)
            (insert_row (claimed_key key) db.idempotency_keys);
      journal = journal;
      outbox = outbox;
    },
  )

-- The answer for a key that was claimed before.
unfoldable pub replay : IdempotencyKey → IdempotencyKey → Database → Result (String × Database)
replay key r db = do
  require_that (r.request_hash == key.request_hash) runtime_error reused
  ref ← committed_result r.result_ref
  ok (ref, db)

abbrev pub create_under :
    Option IdempotencyKey
    → ℕ
    → Run
    → JournalRecord
    → OutboxEntry
    → IdempotencyKey
    → Database
    → Result (String × Database)
create_under none now run event item key db = create_new now run event item key db
create_under (some r) now run event item key db = replay key r db

unfoldable pub create_run :
    ℕ → Run → JournalRecord → OutboxEntry → IdempotencyKey → Database → Result (String × Database)
create_run now run event item key db =
    create_under (first (same_key key) db.idempotency_keys) now run event item key db
