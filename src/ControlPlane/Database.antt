-- ===== src/ControlPlane/Database.antt =====
-- The tables of migrations/*.sql that src/provable_agent_reference/control_plane/store.py keeps, and
-- the values of their columns. A jsonb column gives back the value that was written: the order in
-- which PostgreSQL keeps a dict's entries shows neither in an entry nor in a content hash. What
-- PostgreSQL refuses is a `database_error`.
use provable_agent_reference.Base.{
  ℕ, zero, suc, String, Bool, true, false, ◌==◌, nat_eq, List, [], Option, none, some,
}
use provable_agent_reference.Errors.{Result, ok, err, database_error, require_that, ◌>>=◌, ◌>>◌}
use provable_agent_reference.Json.{ℤ, Value, str, int, pos}
use provable_agent_reference.Canonical.{canonical_json}
use provable_agent_reference.Contracts.Validation.{is_hash_uri}
use provable_agent_reference.ControlPlane.Table.{rowcount, insert_row}
use provable_agent_reference.ControlPlane.Outbox.{OutboxItem}

pub record Run : Type 0 where
  pub run_id : String
  pub tenant_id : String
  pub case_id : String
  pub requester_subject : String
  pub purpose : String
  pub audience : String
  pub risk_tier : ℤ
  pub policy_version : String
  pub status : String

pub record IdempotencyKey : Type 0 where
  pub tenant_id : String
  pub subject : String
  pub operation : String
  pub key_commitment : String
  pub request_hash : String
  pub result_ref : Option String

-- A row of `journal_records`.
pub record JournalRecord : Type 0 where
  pub event_id : String
  pub tenant_id : String
  pub case_id : String
  pub run_id : String
  pub sequence : ℕ
  pub previous_event_hash : Option String
  pub body : Value
  pub body_hash : String
  pub record_hash : String

-- A row of `agent_activity_records`; `document` is its column `record`.
pub record ActivityRow : Type 0 where
  pub event_id : String
  pub tenant_id : String
  pub case_id : String
  pub run_id : String
  pub sequence : ℕ
  pub previous_event_hash : Option String
  pub event_type : String
  pub body : Value
  pub body_hash : String
  pub document : Value
  pub record_hash : String

pub record EffectRow : Type 0 where
  pub record_id : String
  pub record_type : String
  pub tenant_id : String
  pub case_id : String
  pub run_id : String
  pub document : Value
  pub record_hash : String
  pub created_at : ℕ

-- A row of `capability_grants`; a time with a zone is its instant.
pub record GrantRow : Type 0 where
  pub grant_id : String
  pub tenant_id : String
  pub case_id : String
  pub run_id : String
  pub parent_grant_id : Option String
  pub grant_document : Value
  pub grant_hash : String
  pub valid_until : ℕ
  pub revoked_at : Option ℕ

pub record Database : Type 0 where
  pub runs : List Run
  pub idempotency_keys : List IdempotencyKey
  pub journal : List JournalRecord
  pub activities : List ActivityRow
  pub effects : List EffectRow
  pub grants : List GrantRow
  pub outbox : List OutboxItem

abbrev pub empty_database : Database
empty_database = record {
  runs = [];
  idempotency_keys = [];
  journal = [];
  activities = [];
  effects = [];
  grants = [];
  outbox = [];
}

-- A parameter for a text column.
abbrev pub text_column : Value → Result String
text_column (str s) = ok s
text_column v = err database_error "the column is of type text"

-- A parameter for a bigint column with `CHECK (sequence >= 0)`.
abbrev pub sequence_column : Value → Result ℕ
sequence_column (int (pos n)) = ok n
sequence_column v = err database_error "the column is of type bigint"

-- `canonical_json(v)`, read as jsonb
abbrev pub jsonb : Value → Result Value
jsonb v = canonical_json v >>= λ text. ok v

abbrev pub is_hash_or_null : Option String → Bool
is_hash_or_null none = false
is_hash_or_null (some h) = is_hash_uri h

-- The CHECK on the sequence and the previous hash of a chained record.
abbrev pub chain_check : ℕ → Option String → Bool
chain_check zero none = true
chain_check zero (some h) = false
chain_check (suc n) h = is_hash_or_null h

-- `INSERT INTO outbox`, with the defaults of its columns.
unfoldable pub enqueue :
    ℕ
    → String
    → String
    → String
    → String
    → String
    → Value
    → List OutboxItem
    → Result (List OutboxItem)
enqueue now outbox_id tenant_id aggregate_type aggregate_id event_type payload rows = do
  require_that (nat_eq (rowcount (λ r. r.outbox_id == outbox_id) rows) 0) database_error
      "outbox: the primary key is taken"
  ok (
      insert_row
        (record {
          outbox_id = outbox_id;
          tenant_id = tenant_id;
          aggregate_type = aggregate_type;
          aggregate_id = aggregate_id;
          event_type = event_type;
          payload = payload;
          created_at = now;
          available_at = now;
          claimed_at = none;
          claimed_by = none;
          published_at = none;
          attempts = 0;
          last_error = none;
        })
        rows)
