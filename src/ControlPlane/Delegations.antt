-- ===== src/ControlPlane/Delegations.antt =====
-- create_delegation of src/provable_agent_reference/control_plane/store.py: one transaction that
-- writes an attenuated child grant with its journal record and its outbox item. Where it raises, the
-- database stays as it was. `datetime.isoformat` and `datetime.fromisoformat` are a parameter.
pub mod Attenuated
use provable_agent_reference.Base.{
  ℕ, String, Bool, true, false, not, ◌&&◌, ◌||◌, ◌==◌, nat_eq, leb, List, [], ◌∷◌, Option, none,
  some, ◌<>◌, ◌+◌, ◌≡◌,
}
use provable_agent_reference.Errors.{
  Result, ok, err, type_error, runtime_error, permission_error, require_that, raise_if, ◌>>=◌, ◌>>◌,
}
use provable_agent_reference.Errors.{database_error}
use provable_agent_reference.Json.{ℤ, Value, Items, nil, cons, str, int, arr, obj, end, pos, ◌⇒◌⨾◌}
use provable_agent_reference.Json.Entries.{item}
use provable_agent_reference.Canonical.{Sha256, sha256_uri, value}
use provable_agent_reference.Contracts.Validation.{is_hash_uri}
use provable_agent_reference.ControlPlane.Models.{
  CapabilityGrant, Datetime, post_init, permits_child,
}
use provable_agent_reference.ControlPlane.Table.{select, insert_row, order_by, first}
use provable_agent_reference.ControlPlane.Database.{
  Database, Run, JournalRecord, GrantRow, jsonb, enqueue,
}
use provable_agent_reference.ControlPlane.Outbox.{is_null}
use provable_agent_reference.ControlPlane.Activities.{run_of, optional}
use provable_agent_reference.ControlPlane.Runs.{insert_journal}

-- `datetime.isoformat` and `datetime.fromisoformat`, which read back each other's times.
pub record IsoFormat : Type 0 where
  pub isoformat : Datetime → String
  pub fromisoformat : String → Result Datetime
  pub round_trip : (t : Datetime) → fromisoformat (isoformat t) ≡ ok t

-- The dict `grant_record`.
pub record GrantRecord : Type 0 where
  pub grant_id : String
  pub tenant_id : String
  pub case_id : String
  pub run_id : String
  pub parent_grant_id : String
  pub grant_document : Value
  pub grant_hash : String
  pub valid_until : Datetime

-- The entries of a grant document, at the types that CapabilityGrant declares. Another type raises.
unfoldable pub text_items : Items → Result (List String)
text_items nil = ok []
text_items (cons (str s) vs) = do texts ← text_items vs; ok (s ∷ texts)
text_items (cons v vs) = err type_error "the set holds something else than texts"

abbrev pub text_set : Value → Result (List String)
text_set (arr vs) = text_items vs
text_set v = err type_error "the entry is not a list"

abbrev pub text_entry : Value → Result String
text_entry (str s) = ok s
text_entry v = err type_error "the entry is not a text"

abbrev pub int_entry : Value → Result ℤ
int_entry (int n) = ok n
int_entry v = err type_error "the entry is not an integer"

-- `_capability_grant`
unfoldable pub capability_grant : IsoFormat → Value → Result CapabilityGrant
capability_grant iso d = do
  capabilities ← item "capabilities" d >>= text_set
  tenant_id ← item "tenant_id" d >>= text_entry
  case_id ← item "case_id" d >>= text_entry
  allowed_effects ← item "allowed_effects" d >>= text_set
  max_tool_calls ← item "max_tool_calls" d >>= int_entry
  max_model_calls ← item "max_model_calls" d >>= int_entry
  valid_until ← (item "valid_until" d >>= text_entry) >>= iso.fromisoformat
  delegation_depth ← item "delegation_depth" d >>= int_entry
  let grant : CapabilityGrant = record {
    capabilities = capabilities;
    tenant_id = tenant_id;
    case_id = case_id;
    allowed_effects = allowed_effects;
    max_tool_calls = max_tool_calls;
    max_model_calls = max_model_calls;
    valid_until = valid_until;
    delegation_depth = delegation_depth;
  }
  post_init grant
  ok grant

abbrev pub run_scope : CapabilityGrant → Option Run → Bool
run_scope child none = false
run_scope child (some run) = run.tenant_id == child.tenant_id && run.case_id == child.case_id

abbrev pub existing_parent : Option GrantRow → Result GrantRow
existing_parent none = err permission_error "parent capability grant does not exist"
existing_parent (some row) = ok row

-- `revoked_at is not None or valid_until <= now`
abbrev pub is_ended : ℕ → GrantRow → Bool
is_ended now row = not (is_null row.revoked_at) || leb row.valid_until now

abbrev pub is_named : String → GrantRow → Bool
is_named grant_id row = row.grant_id == grant_id

abbrev pub names_parent : String → Option String → Bool
names_parent grant_id none = false
names_parent grant_id (some parent) = parent == grant_id

-- The journal's last record of a run.
abbrev pub event_le : JournalRecord → JournalRecord → Bool
event_le e f = leb e.sequence f.sequence

abbrev pub later_event : JournalRecord → Option JournalRecord → JournalRecord
later_event e none = e
later_event e (some f) = f

unfoldable pub last_event : List JournalRecord → Option JournalRecord
last_event [] = none
last_event (e ∷ es) = some (later_event e (last_event es))

abbrev pub journal_of : String → Database → List JournalRecord
journal_of run_id db = order_by event_le (select (λ e. e.run_id == run_id) db.journal)

abbrev pub next_sequence : Option JournalRecord → ℕ
next_sequence none = 0
next_sequence (some e) = e.sequence + 1

abbrev pub next_previous : Option JournalRecord → Option String
next_previous none = none
next_previous (some e) = some e.record_hash

abbrev pub delegation_body : GrantRecord → Value
delegation_body g = obj (
    "event_type"
    ⇒ str "capability.delegated" ⨾ "grant_hash"
    ⇒ str g.grant_hash ⨾ "grant_id"
    ⇒ str g.grant_id ⨾ "parent_grant_id"
    ⇒ str g.parent_grant_id ⨾ end)

abbrev pub delegation_event :
    GrantRecord → CapabilityGrant → String → ℕ → Option String → String → Value
delegation_event g child event_id sequence previous body_hash = obj (
    "event_id"
    ⇒ str event_id ⨾ "tenant_id"
    ⇒ str child.tenant_id ⨾ "case_id"
    ⇒ str child.case_id ⨾ "run_id"
    ⇒ str g.run_id ⨾ "sequence"
    ⇒ int (pos sequence) ⨾ "previous_event_hash"
    ⇒ optional previous ⨾ "body"
    ⇒ delegation_body g ⨾ "body_hash"
    ⇒ str body_hash ⨾ end)

-- The row of a grant record.
abbrev pub grant_row : GrantRecord → GrantRow
grant_row g = record {
  grant_id = g.grant_id;
  tenant_id = g.tenant_id;
  case_id = g.case_id;
  run_id = g.run_id;
  parent_grant_id = some g.parent_grant_id;
  grant_document = g.grant_document;
  grant_hash = g.grant_hash;
  valid_until = g.valid_until.instant;
  revoked_at = none;
}

module _ ⦃H : Sha256⦄ (iso : IsoFormat) where
  -- The tests of the parent's row: it may delegate the child.
  unfoldable pub check_parent : ℕ → GrantRecord → CapabilityGrant → GrantRow → Result (Unit {0})
  check_parent now g child parent = do
    expected ← sha256_uri (value parent.grant_document)
    require_that (parent.grant_hash == expected) runtime_error
        "persisted parent grant failed integrity verification"
    raise_if (is_ended now parent) permission_error "parent capability grant is revoked or expired"
    require_that
        (parent.tenant_id == child.tenant_id
          && (parent.case_id == child.case_id && parent.run_id == g.run_id))
        permission_error "parent capability grant is outside the run scope"
    grant ← capability_grant iso parent.grant_document
    require_that (permits_child grant child) permission_error
        "child capability grant expands parent authority"

  -- A grant with a new identifier: the row, its journal record and its outbox item.
  unfoldable pub insert_grant :
      ℕ → GrantRecord → CapabilityGrant → String → String → Database → Result (String × Database)
  insert_grant now g child event_id outbox_id db = do
    require_that (is_hash_uri g.grant_hash) database_error "capability_grants: the hash is invalid"
    let previous = last_event (journal_of g.run_id db)
    let sequence = next_sequence previous
    let body = delegation_body g
    body_hash ← sha256_uri (value body)
    record_hash ←
        sha256_uri
          (value (delegation_event g child event_id sequence (next_previous previous) body_hash))
    journal ←
        insert_journal
          (record {
            event_id = event_id;
            tenant_id = child.tenant_id;
            case_id = child.case_id;
            run_id = g.run_id;
            sequence = sequence;
            previous_event_hash = next_previous previous;
            body = body;
            body_hash = body_hash;
            record_hash = record_hash;
          })
          db.runs db.journal
    payload ← jsonb body
    outbox ←
        enqueue now outbox_id child.tenant_id "capability_grant" g.grant_id "capability.delegated"
          payload db.outbox
    ok (
      g.grant_id,
      record db { grants = insert_row (grant_row g) db.grants; journal = journal; outbox = outbox },
    )

  -- `ON CONFLICT (grant_id) DO NOTHING`, and what follows it.
  abbrev pub insert_unless :
      Option GrantRow
      → ℕ
      → GrantRecord
      → CapabilityGrant
      → String
      → String
      → Database
      → Result (String × Database)
  insert_unless none now g child event_id outbox_id db =
      insert_grant now g child event_id outbox_id db
  insert_unless (some existing) now g child event_id outbox_id db =
      require_that
        (names_parent g.parent_grant_id existing.parent_grant_id
          && existing.grant_hash == g.grant_hash)
        runtime_error "grant identity collision or mismatched replay"
      >> ok (g.grant_id, db)

  unfoldable pub create_delegation :
      ℕ → GrantRecord → String → String → Database → Result (String × Database)
  create_delegation now g event_id outbox_id db = do
    child ← capability_grant iso g.grant_document
    require_that (run_scope child (run_of g.run_id db)) permission_error
        "child grant is outside the persisted run scope"
    parent ← existing_parent (first (is_named g.parent_grant_id) db.grants)
    check_parent now g child parent
    document ← jsonb g.grant_document
    insert_unless (first (is_named g.grant_id) db.grants) now
        (record g { grant_document = document }) child event_id outbox_id db
