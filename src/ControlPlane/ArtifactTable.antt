-- ===== src/ControlPlane/ArtifactTable.antt =====
-- The artifact table of src/provable_agent_reference/control_plane/store.py: metadata that is staged
-- and then reconciled with the artifact store under leases. Times are in microseconds. A call that
-- raises leaves the table as it was.
use provable_agent_reference.Base.{
  ℕ, suc, ◌+◌, ◌*◌, String, Bool, not, ◌&&◌, ◌||◌, ◌==◌, List, [], ◌∷◌, Option, none, some, leb,
  ltb, nat_eq, take, map, member, is_empty, count,
}
use provable_agent_reference.Errors.{
  Result, ok, value_error, runtime_error, database_error, raise_if, require_that, ◌>>◌,
}
use provable_agent_reference.Contracts.Validation.{is_hash_uri}
use provable_agent_reference.ControlPlane.Table.{
  select, update, rowcount, order_by, insert_row, time_then_text,
}
use provable_agent_reference.ControlPlane.Database.{Run}
use provable_agent_reference.ControlPlane.Outbox.{second, lease_free, held_by}

pub record ArtifactRow : Type 0 where
  pub digest : String
  pub tenant_id : String
  pub case_id : String
  pub run_id : String
  pub media_type : String
  pub byte_length : ℕ
  pub storage_key : String
  pub status : String
  pub claimed_at : Option ℕ
  pub claimed_by : Option String
  pub attempts : ℕ
  pub available_at : ℕ
  pub last_error : Option String
  pub created_at : ℕ
  pub finalized_at : Option ℕ

-- The dict `metadata`.
pub record Metadata : Type 0 where
  pub digest : String
  pub tenant_id : String
  pub case_id : String
  pub run_id : String
  pub media_type : String
  pub byte_length : ℕ
  pub storage_key : String

abbrev pub staged_row : ℕ → Metadata → ArtifactRow
staged_row now m = record {
  digest = m.digest;
  tenant_id = m.tenant_id;
  case_id = m.case_id;
  run_id = m.run_id;
  media_type = m.media_type;
  byte_length = m.byte_length;
  storage_key = m.storage_key;
  status = "staged";
  claimed_at = none;
  claimed_by = none;
  attempts = 0;
  available_at = now;
  last_error = none;
  created_at = now;
  finalized_at = none;
}

-- `INSERT INTO artifacts`, under the constraints of the table.
unfoldable pub stage_artifact :
    ℕ → Metadata → List Run → List ArtifactRow → Result (List ArtifactRow)
stage_artifact now m runs rows = do
  require_that (is_hash_uri m.digest) database_error "artifacts: the digest is invalid"
  require_that
      (nat_eq (rowcount (λ r. r.digest == m.digest || r.storage_key == m.storage_key) rows) 0)
      database_error "artifacts: the digest or the storage key is taken"
  raise_if (nat_eq (rowcount (λ r. r.run_id == m.run_id) runs) 0) database_error
      "artifacts: the run does not exist"
  ok (insert_row (staged_row now m) rows)

abbrev pub is_staged : ArtifactRow → Bool
is_staged r = r.status == "staged"

-- What `claim_artifacts` may take; `locked` says which rows other transactions hold (SKIP LOCKED).
abbrev pub claimable : ℕ → (String → Bool) → ArtifactRow → Bool
claimable now locked r =
    is_staged r
    && (leb r.available_at now && (lease_free now r.claimed_at && not (locked r.digest)))

abbrev pub digests : List ArtifactRow → List String
digests [] = []
digests (r ∷ rs) = r.digest ∷ digests rs

abbrev pub row_le : ArtifactRow → ArtifactRow → Bool
row_le r s = time_then_text r.created_at r.digest s.created_at s.digest

unfoldable pub candidates : ℕ → (String → Bool) → ℕ → List ArtifactRow → List String
candidates now locked limit rows =
    digests (take limit (order_by row_le (select (claimable now locked) rows)))

abbrev pub claimed : ℕ → String → ArtifactRow → ArtifactRow
claimed now worker_id r = record r {
  claimed_at = some now;
  claimed_by = some worker_id;
  attempts = suc r.attempts;
}

-- The rows that were claimed, in the table's order, and the table.
unfoldable pub claim_artifacts :
    ℕ
    → (String → Bool)
    → String
    → ℕ
    → List ArtifactRow
    → Result (List ArtifactRow × List ArtifactRow)
claim_artifacts now locked worker_id limit rows = do
  raise_if (is_empty worker_id || not (leb 1 limit && leb limit 500)) value_error
      "worker_id and limit are invalid"
  let chosen = candidates now locked limit rows
  let taken = λ (r : ArtifactRow). member r.digest chosen
  ok (map (claimed now worker_id) (select taken rows), update taken (claimed now worker_id) rows)

-- `digest = %s AND status = 'staged' AND reconcile_claimed_by = %s`
abbrev pub leased : String → String → ArtifactRow → Bool
leased digest worker_id r = r.digest == digest && (is_staged r && held_by worker_id r.claimed_by)

abbrev pub finalized : ℕ → ArtifactRow → ArtifactRow
finalized now r = record r {
  status = "available";
  finalized_at = some now;
  claimed_at = none;
  claimed_by = none;
  last_error = none;
}

unfoldable pub finalize_artifact :
    ℕ → String → String → String → List ArtifactRow → Result (List ArtifactRow)
finalize_artifact now digest storage_key worker_id rows = do
  let test = λ (r : ArtifactRow). r.storage_key == storage_key && leased digest worker_id r
  require_that (nat_eq (rowcount test rows) 1) runtime_error
      "artifact lease is missing, stale, mismatched, or finalized"
  ok (update test (finalized now) rows)

abbrev pub dismissed : String → ArtifactRow → ArtifactRow
dismissed reason r = record r {
  status = "unavailable";
  claimed_at = none;
  claimed_by = none;
  last_error = some reason;
}

unfoldable pub unavailable_artifact :
    String → String → String → List ArtifactRow → Result (List ArtifactRow)
unavailable_artifact digest worker_id reason rows = do
  raise_if (is_empty reason || ltb 500 (count reason)) value_error
      "a bounded unavailability reason is required"
  require_that (nat_eq (rowcount (leased digest worker_id) rows) 1) runtime_error
      "artifact lease is missing, stale, or already reconciled"
  ok (update (leased digest worker_id) (dismissed reason) rows)

abbrev pub postponed : ℕ → String → ℕ → ArtifactRow → ArtifactRow
postponed now error delay_seconds r = record r {
  available_at = now + delay_seconds * second;
  claimed_at = none;
  claimed_by = none;
  last_error = some error;
}

unfoldable pub retry_artifact :
    ℕ → String → String → String → ℕ → List ArtifactRow → Result (List ArtifactRow)
retry_artifact now digest worker_id error delay_seconds rows = do
  raise_if
      (is_empty error
        || (ltb 500 (count error) || not (leb 1 delay_seconds && leb delay_seconds 3600)))
      value_error "bounded retry error and delay are required"
  require_that (nat_eq (rowcount (leased digest worker_id) rows) 1) runtime_error
      "artifact lease is missing, stale, or already reconciled"
  ok (update (leased digest worker_id) (postponed now error delay_seconds) rows)
