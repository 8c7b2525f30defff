-- ===== src/ControlPlane/EffectRecords.antt =====
-- persist_effect_records and load_effect_records of
-- src/provable_agent_reference/control_plane/store.py: receipts and their reconciliations. Each is
-- one transaction: where it raises, the database stays as it was.
pub mod Known
pub mod Intact
pub mod Replay
use provable_agent_reference.Base.{
  ℕ, String, Bool, true, false, ◌&&◌, ◌==◌, nat_eq, List, [], ◌∷◌, Option, none, some, ◌<>◌,
}
use provable_agent_reference.Errors.{
  Result, ok, err, runtime_error, database_error, require_that, ◌>>=◌, ◌>>◌,
}
use provable_agent_reference.Json.{Value, str, obj, end, ◌⇒◌⨾◌}
use provable_agent_reference.Json.Entries.{item, payload_of}
use provable_agent_reference.Json.Equality.{py_eq}
use provable_agent_reference.Canonical.{Sha256, sha256_uri, value}
use provable_agent_reference.Contracts.Validation.{is_hash_uri}
use provable_agent_reference.ControlPlane.Table.{
  select, rowcount, order_by, insert_row, first, time_then_text,
}
use provable_agent_reference.ControlPlane.Database.{
  Database, Run, EffectRow, text_column, jsonb, enqueue,
}
use provable_agent_reference.ControlPlane.Activities.{run_of}

abbrev pub scope_message : String
scope_message = "effect record scope or integrity is invalid"

abbrev pub load_message : String
load_message = "persisted effect record failed integrity verification"

abbrev pub effect_run : Option Run → Result Run
effect_run none = err runtime_error "effect run does not exist"
effect_run (some run) = ok run

abbrev pub identified : String → EffectRow → Bool
identified record_id r = r.record_id == record_id

-- A row with no conflict on its identifier, under the other constraint of the table.
unfoldable pub insert_effect : EffectRow → List EffectRow → Result (List EffectRow)
insert_effect row rows = do
  require_that
      (nat_eq
        (rowcount (λ r. r.record_type == row.record_type && r.record_hash == row.record_hash) rows)
        0)
      database_error "effect_records: the type and hash are taken"
  require_that (is_hash_uri row.record_hash) database_error "effect_records: the hash is invalid"
  ok (insert_row row rows)

abbrev pub effect_event : EffectRow → Value
effect_event row = obj ("record_id" ⇒ str row.record_id ⨾ "record_hash" ⇒ str row.record_hash ⨾ end)

-- `INSERT ... ON CONFLICT (record_id) DO NOTHING`, and what follows it.
unfoldable pub record_effect : Option EffectRow → EffectRow → Database → Result Database
record_effect none row db = do
  effects ← insert_effect row db.effects
  payload ← jsonb (effect_event row)
  outbox ←
      enqueue row.created_at ("outbox_" <> row.record_id) row.tenant_id "effect_record"
        row.record_id ("effect." <> (row.record_type <> ".recorded")) payload db.outbox
  ok (record db { effects = effects; outbox = outbox })
record_effect (some existing) row db = do
  require_that (existing.record_type == row.record_type && existing.record_hash == row.record_hash)
      runtime_error "effect record identity collision or mismatched replay"
  ok db

abbrev pub order : EffectRow → EffectRow → Bool
order r s = time_then_text r.created_at r.record_id s.created_at s.record_id

abbrev pub effects_of : String → Database → List EffectRow
effects_of run_id db = order_by order (select (λ r. r.run_id == run_id) db.effects)

abbrev pub effect_documents : List EffectRow → List Value
effect_documents [] = []
effect_documents (r ∷ rs) = r.document ∷ effect_documents rs

module _ ⦃H : Sha256⦄ where
  -- `document["record_hash"] != sha256_uri(payload)`, with the message of the failure
  unfoldable pub check_hash : String → Value → Result (Unit {0})
  check_hash message d = do
    given ← item "record_hash" d
    expected ← sha256_uri (value (payload_of d))
    require_that (py_eq given (str expected)) runtime_error message

  unfoldable pub check_document : Run → Value → Result (Unit {0})
  check_document run d = do
    run_id ← item "run_id" d
    require_that (py_eq run_id (str run.run_id)) runtime_error scope_message
    tenant_id ← item "tenant_id" d
    case_id ← item "case_id" d
    require_that (py_eq tenant_id (str run.tenant_id) && py_eq case_id (str run.case_id))
        runtime_error scope_message
    check_hash scope_message d

  -- The row of a document that was tested.
  unfoldable pub effect_row : ℕ → Run → String → String → Value → Result EffectRow
  effect_row now run record_type identity_field d = do
    identity ← item identity_field d
    document ← jsonb d
    record_id ← text_column identity
    record_hash ← item "record_hash" d >>= text_column
    ok (record {
      record_id = record_id;
      record_type = record_type;
      tenant_id = run.tenant_id;
      case_id = run.case_id;
      run_id = run.run_id;
      document = document;
      record_hash = record_hash;
      created_at = now;
    })

  -- One round of the loop over the two records.
  unfoldable pub persist_record : ℕ → Run → String → String → Value → Database → Result Database
  persist_record now run record_type identity_field d db = do
    check_document run d
    row ← effect_row now run record_type identity_field d
    record_effect (first (identified row.record_id) db.effects) row db

  -- The tests that bind the reconciliation to the receipt.
  unfoldable pub check_pair : Value → Value → Result (Unit {0})
  check_pair receipt reconciliation = do
    bound_id ← item "receipt_id" reconciliation
    receipt_id ← item "receipt_id" receipt
    require_that (py_eq bound_id receipt_id) runtime_error
        "reconciliation is bound to a different receipt"
    bound_hash ← item "receipt_hash" reconciliation
    receipt_hash ← item "record_hash" receipt
    require_that (py_eq bound_hash receipt_hash) runtime_error
        "reconciliation receipt hash is invalid"

  -- With the times of the two insertions.
  unfoldable pub persist_effect_records : ℕ → ℕ → Value → Value → Database → Result Database
  persist_effect_records now later receipt reconciliation db = do
    run_id ← item "run_id" receipt >>= text_column
    run ← effect_run (run_of run_id db)
    check_pair receipt reconciliation
    with_receipt ← persist_record now run "execution_receipt" "receipt_id" receipt db
    persist_record later run "reconciliation" "reconciliation_id" reconciliation with_receipt

  unfoldable pub check_hashes : List Value → Result (Unit {0})
  check_hashes [] = ok tt
  check_hashes (d ∷ ds) = do check_hash load_message d; check_hashes ds

  unfoldable pub load_effect_records : String → Database → Result (List Value)
  load_effect_records run_id db = do
    let records = effect_documents (effects_of run_id db)
    check_hashes records
    ok records
