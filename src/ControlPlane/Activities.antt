-- ===== src/ControlPlane/Activities.antt =====
-- append_agent_activities and reconstruct_agent_activities of
-- src/provable_agent_reference/control_plane/store.py: the hash-chained activities of a run. Each is
-- one transaction: where it raises, the database stays as it was.
pub mod Stored
pub mod Checked
pub mod Reconstruct
use provable_agent_reference.Base.{
  ℕ, suc, ◌+◌, String, Bool, true, false, not, ◌&&◌, ◌||◌, ◌==◌, nat_eq, leb, List, [], ◌∷◌, Option,
  none, some, ◌<>◌, if◌then◌else◌,
}
use provable_agent_reference.Errors.{
  Result, ok, err, value_error, runtime_error, database_error, require_that, ◌>>=◌, ◌>>◌,
}
use provable_agent_reference.Json.{Value, null, str, int, obj, end, pos, ◌⇒◌⨾◌}
use provable_agent_reference.Json.Entries.{item, payload_of}
use provable_agent_reference.Json.Equality.{py_eq}
use provable_agent_reference.Canonical.{Sha256, sha256_uri, value}
use provable_agent_reference.ControlPlane.Table.{select, rowcount, order_by, insert_row, first}
use provable_agent_reference.ControlPlane.Database.{
  Database, Run, ActivityRow, text_column, sequence_column, jsonb, chain_check, enqueue,
}

abbrev pub of_run : String → ActivityRow → Bool
of_run run_id r = r.run_id == run_id

abbrev pub sequence_le : ActivityRow → ActivityRow → Bool
sequence_le r s = leb r.sequence s.sequence

-- The last row: with rows in the order of `sequence`, that of `ORDER BY sequence DESC LIMIT 1`.
abbrev pub later_row : ActivityRow → Option ActivityRow → ActivityRow
later_row r none = r
later_row r (some s) = s

unfoldable pub last_row : List ActivityRow → Option ActivityRow
last_row [] = none
last_row (r ∷ rs) = some (later_row r (last_row rs))

abbrev pub next_sequence : Option ActivityRow → ℕ
next_sequence none = 0
next_sequence (some r) = r.sequence + 1

abbrev pub next_previous : Option ActivityRow → Option String
next_previous none = none
next_previous (some r) = some r.record_hash

-- A text or None.
abbrev pub optional : Option String → Value
optional none = null
optional (some h) = str h

abbrev pub rows_of : String → Database → List ActivityRow
rows_of run_id db = order_by sequence_le (select (of_run run_id) db.activities)

abbrev pub run_of : String → Database → Option Run
run_of run_id db = first (λ r. r.run_id == run_id) db.runs

abbrev pub failed_closed : String
failed_closed = "persisted activity reconstruction failed closed"

abbrev pub bad_chain : String
bad_chain = "activity scope, order, chain, or body hash is invalid"

-- `INSERT INTO agent_activity_records`, under the constraints of the table.
unfoldable pub insert_activity : ActivityRow → List ActivityRow → Result (List ActivityRow)
insert_activity r rows = do
  require_that (nat_eq (rowcount (λ s. s.event_id == r.event_id) rows) 0) database_error
      "agent_activity_records: the event identifier is taken"
  require_that
      (nat_eq (rowcount (λ s. s.run_id == r.run_id && nat_eq s.sequence r.sequence) rows) 0)
      database_error "agent_activity_records: the sequence is taken"
  require_that (chain_check r.sequence r.previous_event_hash) database_error
      "agent_activity_records: the previous hash is invalid"
  ok (insert_row r rows)

-- The payload of a record's outbox item.
abbrev pub activity_event : ActivityRow → Value
activity_event r = obj ("event_id" ⇒ str r.event_id ⨾ "record_hash" ⇒ str r.record_hash ⨾ end)

abbrev pub existing_run : Option Run → Result Run
existing_run none = err runtime_error "activity run does not exist"
existing_run (some run) = ok run

abbrev pub documents : List ActivityRow → List Value
documents [] = []
documents (r ∷ rs) = r.document ∷ documents rs

module _ ⦃H : Sha256⦄ where
  -- The tests of a record's place in the chain and of its hashes, with the messages of the two
  -- failures. The record's hash is the next record's previous hash.
  unfoldable pub check_links : String → String → ℕ → Value → Value → Result Value
  check_links chain_message hash_message sequence previous r = do
    given_sequence ← item "sequence" r
    require_that (py_eq given_sequence (int (pos sequence))) runtime_error chain_message
    given_previous ← item "previous_event_hash" r
    require_that (py_eq given_previous previous) runtime_error chain_message
    body_hash ← item "body_hash" r
    body ← item "body" r
    expected_body ← sha256_uri (value body)
    require_that (py_eq body_hash (str expected_body)) runtime_error chain_message
    record_hash ← item "record_hash" r
    expected ← sha256_uri (value (payload_of r))
    require_that (py_eq record_hash (str expected)) runtime_error hash_message
    ok record_hash

  -- The tests of a record that is to be appended.
  unfoldable pub check_record : Run → ℕ → Option String → Value → Result Value
  check_record run sequence previous r = do
    run_id ← item "run_id" r
    require_that (py_eq run_id (str run.run_id)) runtime_error bad_chain
    tenant_id ← item "tenant_id" r
    case_id ← item "case_id" r
    require_that (py_eq tenant_id (str run.tenant_id) && py_eq case_id (str run.case_id))
        runtime_error bad_chain
    check_links bad_chain "activity record hash is invalid" sequence (optional previous) r

  -- The row of a record that was tested.
  unfoldable pub row_of : Run → ℕ → Option String → Value → Result ActivityRow
  row_of run sequence previous r = do
    event_id ← item "event_id" r >>= text_column
    column ← item "sequence" r >>= sequence_column
    event_type ← item "event_type" r >>= text_column
    body ← item "body" r >>= jsonb
    body_hash ← item "body_hash" r >>= text_column
    document ← jsonb r
    record_hash ← item "record_hash" r >>= text_column
    ok (record {
      event_id = event_id;
      tenant_id = run.tenant_id;
      case_id = run.case_id;
      run_id = run.run_id;
      sequence = column;
      previous_event_hash = previous;
      event_type = event_type;
      body = body;
      body_hash = body_hash;
      document = document;
      record_hash = record_hash;
    })

  -- One round of the loop over the records: the database and the row that was inserted.
  unfoldable pub append_record :
      ℕ → Run → ℕ → Option String → Value → Database → Result (Database × ActivityRow)
  append_record now run sequence previous r db = do
    checked ← check_record run sequence previous r
    row ← row_of run sequence previous r
    activities ← insert_activity row db.activities
    payload ← jsonb (activity_event row)
    outbox ←
        enqueue now ("outbox_" <> row.event_id) row.tenant_id "agent_activity" row.event_id
          row.event_type payload db.outbox
    ok (record db { activities = activities; outbox = outbox }, row)

  unfoldable pub append_records :
      ℕ → Run → ℕ → Option String → List Value → Database → Result Database
  append_records now run sequence previous [] db = ok db
  append_records now run sequence previous (r ∷ rs) db = do
    appended ← append_record now run sequence previous r db
    append_records now run (suc sequence) (some appended.1.record_hash) rs appended.0

  -- `append_agent_activities` for the run of the first record.
  unfoldable pub append_to_run : ℕ → String → List Value → Database → Result Database
  append_to_run now run_id records db = do
    run ← existing_run (run_of run_id db)
    let previous = last_row (rows_of run_id db)
    append_records now run (next_sequence previous) (next_previous previous) records db

  unfoldable pub append_agent_activities : ℕ → List Value → Database → Result Database
  append_agent_activities now [] db = err value_error "at least one activity record is required"
  append_agent_activities now (r ∷ rs) db = do
    run_id ← item "run_id" r >>= text_column
    append_to_run now run_id (r ∷ rs) db

  -- The tests of one record that was read back.
  abbrev pub check_stored : ℕ → Value → Value → Result Value
  check_stored = check_links failed_closed failed_closed

  unfoldable pub check_all : ℕ → Value → List Value → Result (Unit {0})
  check_all sequence previous [] = ok tt
  check_all sequence previous (r ∷ rs) = do
    hash ← check_stored sequence previous r
    check_all (suc sequence) hash rs

  unfoldable pub reconstruct_agent_activities : String → Database → Result (List Value)
  reconstruct_agent_activities run_id db = do
    let records = documents (rows_of run_id db)
    check_all 0 null records
    ok records
