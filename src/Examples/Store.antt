-- ===== src/Examples/Store.antt =====
-- The theorems about the control plane's store at concrete tables.
use provable_agent_reference.Base.{
  All, ℕ, ◌+◌, ◌≡◌, refl, String, List, [], ◌∷◌, ◌++◌, none, some, arith, false, ◌==◌,
}
use provable_agent_reference.Errors.{Result, ok, err}
use provable_agent_reference.Json.{Value, str, int, obj, null, end, pos, ◌⇒◌⨾◌}
use provable_agent_reference.Canonical.{
  sha256_uri, canonical_json, require_string_keys, serializable,
}
use provable_agent_reference.Canonical.Utf8.{encode, encode_char}
use provable_agent_reference.Json.Order.{sort_keys}
use provable_agent_reference.Json.Print.{print}
use provable_agent_reference.Json.Equality.{py_eq, int_eq, key_eq, lookup}
use provable_agent_reference.ControlPlane.Table.{
  select, update, rowcount, insert_row, order_by, first, place,
}
use provable_agent_reference.ControlPlane.Outbox.{OutboxItem, complete_outbox, completed, leased}
use provable_agent_reference.ControlPlane.Outbox.Published.{
  Call, claims, completes, retries, publications, pending, run, publications-pending,
}
use provable_agent_reference.ControlPlane.Outbox.Lease.{lease-completes}
use provable_agent_reference.ControlPlane.Database.{Database, Run, empty_database, enqueue}
use provable_agent_reference.ControlPlane.Activities.{
  append_agent_activities, append_to_run, append_records, append_record,
  reconstruct_agent_activities, documents, rows_of, last_row, check_record, check_links, row_of,
  insert_activity,
}
use provable_agent_reference.ControlPlane.Activities.Reconstruct.{append-reconstructs, IsStored}
use provable_agent_reference.ControlPlane.EffectRecords.{
  persist_effect_records, persist_record, check_document, check_hash, check_pair, effect_row,
  record_effect, insert_effect, load_effect_records, effect_documents, effects_of,
}
use provable_agent_reference.ControlPlane.EffectRecords.Replay.{
  Submission, submit, submit_all, persist_effect_records-replays,
}
use provable_agent_reference.ControlPlane.EffectRecords.Intact.{
  IsHashed, persist_effect_records-loads,
}
use provable_agent_reference.Examples.Data.{toy}

-- An item that the worker "w1" has claimed at the time 5.
abbrev waiting : OutboxItem
waiting = record {
  outbox_id = "outbox_1";
  tenant_id = "tenant_demo";
  aggregate_type = "run";
  aggregate_id = "run_demo";
  event_type = "run.requested";
  payload = null;
  created_at = 1;
  available_at = 1;
  claimed_at = some 5;
  claimed_by = some "w1";
  published_at = none;
  attempts = 1;
  last_error = none;
}

abbrev calls : List (ℕ × Call)
calls =
    (7, claims (λ s. false) "w2" 10)
    ∷ (8, completes "outbox_1" "w2")
    ∷ (9, retries "outbox_1" "w3" "late" 5)
    ∷ []

publications-pending_example :
    publications "outbox_1" (calls ++ ((10, completes "outbox_1" "w1") ∷ [])) (waiting ∷ [])
      + pending "outbox_1" (run (calls ++ ((10, completes "outbox_1" "w1") ∷ [])) (waiting ∷ []))
    ≡ pending "outbox_1" (waiting ∷ [])
publications-pending_example =
    publications-pending "outbox_1" (calls ++ ((10, completes "outbox_1" "w1") ∷ [])) (waiting ∷ [])

lease-completes_example :
    complete_outbox 10 "outbox_1" "w1" (run calls (waiting ∷ []))
    ≡ ok (update (leased "outbox_1" "w1") (completed 10) (run calls (waiting ∷ [])))
unfolding rowcount
lease-completes_example =
    lease-completes "outbox_1" "w1" 5 10 calls (waiting ∷ []) (omega arith, (refl, (refl, tt)))
      (omega arith) refl

abbrev demo_run : Run
demo_run = record {
  run_id = "run_demo";
  tenant_id = "tenant_demo";
  case_id = "case_demo";
  requester_subject = "user:demo";
  purpose = "Prepare a statement.";
  audience = "reviewer";
  risk_tier = pos 1;
  policy_version = "policy-1";
  status = "pending";
}

abbrev database : Database
database = record empty_database { runs = demo_run ∷ [] }

abbrev even : String
even = "sha256:0123456789abcdef0123456789abcdef0123456789abcdef0123456789abcdef"

abbrev odd : String
odd = "sha256:fedcba9876543210fedcba9876543210fedcba9876543210fedcba9876543210"

abbrev activity : Value
activity = obj (
    "event_id"
    ⇒ str "event_1" ⨾ "run_id"
    ⇒ str "run_demo" ⨾ "tenant_id"
    ⇒ str "tenant_demo" ⨾ "case_id"
    ⇒ str "case_demo" ⨾ "sequence"
    ⇒ int (pos 0) ⨾ "previous_event_hash"
    ⇒ null ⨾ "event_type"
    ⇒ str "run.started" ⨾ "body"
    ⇒ obj end ⨾ "body_hash"
    ⇒ str even ⨾ "record_hash"
    ⇒ str even ⨾ end)

abbrev stored_or_empty : Result Database → Database
stored_or_empty (ok db) = db
stored_or_empty (err e m) = empty_database

abbrev after : Database
after = stored_or_empty (append_agent_activities 20 (activity ∷ []) database)

appended : append_agent_activities 20 (activity ∷ []) database ≡ ok after
unfolding append_agent_activities append_to_run append_records append_record check_record
    check_links row_of insert_activity enqueue select first last_row order_by place rowcount
    insert_row sha256_uri canonical_json serializable require_string_keys sort_keys print encode
    encode_char py_eq int_eq key_eq lookup
appended = refl

append-reconstructs_example :
    IsStored after
    × (reconstruct_agent_activities "run_demo" after
        ≡ ok (documents (rows_of "run_demo" database) ++ (activity ∷ [])))
    × ((other : String)
        → ("run_demo" == other) ≡ false
        → reconstruct_agent_activities other after ≡ reconstruct_agent_activities other database)
unfolding key_eq select lookup
append-reconstructs_example =
    append-reconstructs 20 "run_demo" activity [] database after (λ run_id. tt) refl appended

abbrev receipt : Value
receipt = obj (
    "receipt_id"
    ⇒ str "receipt_1" ⨾ "run_id"
    ⇒ str "run_demo" ⨾ "tenant_id"
    ⇒ str "tenant_demo" ⨾ "case_id"
    ⇒ str "case_demo" ⨾ "record_hash"
    ⇒ str even ⨾ end)

abbrev reconciliation : Value
reconciliation = obj (
    "reconciliation_id"
    ⇒ str "reconciliation_1" ⨾ "receipt_id"
    ⇒ str "receipt_1" ⨾ "receipt_hash"
    ⇒ str even ⨾ "run_id"
    ⇒ str "run_demo" ⨾ "tenant_id"
    ⇒ str "tenant_demo" ⨾ "case_id"
    ⇒ str "case_demo" ⨾ "record_hash"
    ⇒ str even ⨾ end)

abbrev submission : Submission
submission = record { now = 30; later = 31; receipt = receipt; reconciliation = reconciliation }

abbrev with_effects : Database
with_effects = stored_or_empty (submit submission database)

persisted : submit submission database ≡ ok with_effects
unfolding persist_effect_records persist_record check_document check_hash check_pair effect_row
    record_effect insert_effect enqueue select first order_by place rowcount insert_row sha256_uri
    canonical_json serializable require_string_keys sort_keys print encode encode_char py_eq int_eq
    key_eq lookup
persisted = refl

persist_effect_records-replays_example :
    submit (record submission { now = 40; later = 41 }) (submit_all (submission ∷ []) with_effects)
    ≡ ok (submit_all (submission ∷ []) with_effects)
persist_effect_records-replays_example =
    persist_effect_records-replays submission 40 41 (submission ∷ []) database with_effects
      persisted

persist_effect_records-loads_example :
    All IsHashed with_effects.effects
    × (load_effect_records "run_demo" with_effects
        ≡ ok (effect_documents (effects_of "run_demo" with_effects)))
persist_effect_records-loads_example =
    persist_effect_records-loads 30 31 receipt reconciliation database with_effects "run_demo" tt
      persisted
