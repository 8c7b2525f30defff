-- ===== src/ControlPlane/Outbox.antt =====
-- The outbox of src/provable_agent_reference/control_plane/store.py: events that wait for a worker,
-- and the leases under which workers publish them. Times are in microseconds; each call reads the
-- clock once. A call that raises rolls its transaction back.
pub mod Candidates
pub mod Lease
pub mod Published
use provable_agent_reference.Base.{
  ℕ, suc, ◌+◌, ◌*◌, String, Bool, true, false, not, ◌&&◌, ◌||◌, ◌==◌, List, [], ◌∷◌, Option, none,
  some, leb, ltb, nat_eq, take, map, member, is_empty, count,
}
use provable_agent_reference.Errors.{
  Result, ok, value_error, runtime_error, raise_if, require_that, ◌>>=◌, ◌>>◌,
}
use provable_agent_reference.Json.{Value}
use provable_agent_reference.ControlPlane.Table.{select, update, rowcount, order_by, time_then_text}

pub record OutboxItem : Type 0 where
  pub outbox_id : String
  pub tenant_id : String
  pub aggregate_type : String
  pub aggregate_id : String
  pub event_type : String
  pub payload : Value
  pub created_at : ℕ
  pub available_at : ℕ
  pub claimed_at : Option ℕ
  pub claimed_by : Option String
  pub published_at : Option ℕ
  pub attempts : ℕ
  pub last_error : Option String

abbrev pub second : ℕ
second = 1000000

-- `interval '60 seconds'`
abbrev pub lease : ℕ
lease = 60 * second

-- `column IS NULL`
abbrev pub is_null {ℓ} : {A : Type ℓ} → Option A → Bool
is_null none = true
is_null (some a) = false

-- `claimed_at IS NULL OR claimed_at < clock_timestamp() - interval '60 seconds'`
abbrev pub lease_free : ℕ → Option ℕ → Bool
lease_free now none = true
lease_free now (some t) = ltb (t + lease) now

-- `claimed_by = worker_id`, which NULL is not
abbrev pub held_by : String → Option String → Bool
held_by worker_id none = false
held_by worker_id (some w) = w == worker_id

-- What `claim_outbox` may take; `locked` says which rows other transactions hold (SKIP LOCKED).
abbrev pub claimable : ℕ → (String → Bool) → OutboxItem → Bool
claimable now locked r =
    is_null r.published_at
    && (leb r.available_at now && (lease_free now r.claimed_at && not (locked r.outbox_id)))

abbrev pub ids : List OutboxItem → List String
ids [] = []
ids (r ∷ rs) = r.outbox_id ∷ ids rs

abbrev pub item_le : OutboxItem → OutboxItem → Bool
item_le r s = time_then_text r.created_at r.outbox_id s.created_at s.outbox_id

-- The identifiers of the candidates, oldest first.
unfoldable pub candidates : ℕ → (String → Bool) → ℕ → List OutboxItem → List String
candidates now locked limit rows =
    ids (take limit (order_by item_le (select (claimable now locked) rows)))

abbrev pub claimed : ℕ → String → OutboxItem → OutboxItem
claimed now worker_id r = record r {
  claimed_at = some now;
  claimed_by = some worker_id;
  attempts = suc r.attempts;
}

-- The rows that were updated, in the table's order, and the table.
unfoldable pub claim_outbox :
    ℕ → (String → Bool) → String → ℕ → List OutboxItem → Result (List OutboxItem × List OutboxItem)
claim_outbox now locked worker_id limit rows = do
  raise_if (is_empty worker_id || not (leb 1 limit && leb limit 500)) value_error
      "worker_id and limit are invalid"
  let chosen = candidates now locked limit rows
  let taken = λ (r : OutboxItem). member r.outbox_id chosen
  ok (map (claimed now worker_id) (select taken rows), update taken (claimed now worker_id) rows)

-- `outbox_id = %s AND claimed_by = %s AND published_at IS NULL`
abbrev pub leased : String → String → OutboxItem → Bool
leased outbox_id worker_id r =
    r.outbox_id == outbox_id && (held_by worker_id r.claimed_by && is_null r.published_at)

abbrev pub completed : ℕ → OutboxItem → OutboxItem
completed now r = record r {
  published_at = some now;
  claimed_at = none;
  claimed_by = none;
  last_error = none;
}

unfoldable pub complete_outbox : ℕ → String → String → List OutboxItem → Result (List OutboxItem)
complete_outbox now outbox_id worker_id rows = do
  require_that (nat_eq (rowcount (leased outbox_id worker_id) rows) 1) runtime_error
      "outbox lease is missing, stale, or already completed"
  ok (update (leased outbox_id worker_id) (completed now) rows)

abbrev pub retried : ℕ → String → ℕ → OutboxItem → OutboxItem
retried now error delay_seconds r = record r {
  available_at = now + delay_seconds * second;
  claimed_at = none;
  claimed_by = none;
  last_error = some error;
}

unfoldable pub retry_outbox :
    ℕ → String → String → String → ℕ → List OutboxItem → Result (List OutboxItem)
retry_outbox now outbox_id worker_id error delay_seconds rows = do
  raise_if
      (is_empty error
        || (ltb 2000 (count error) || not (leb 1 delay_seconds && leb delay_seconds 3600)))
      value_error "bounded retry error and delay are required"
  require_that (nat_eq (rowcount (leased outbox_id worker_id) rows) 1) runtime_error
      "outbox lease is missing, stale, or already completed"
  ok (update (leased outbox_id worker_id) (retried now error delay_seconds) rows)
