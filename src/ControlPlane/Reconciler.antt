-- ===== src/ControlPlane/Reconciler.antt =====
-- ArtifactReconciler of src/provable_agent_reference/control_plane/artifacts.py. Each call of the
-- store is a transaction of its own, so that run_once gives back the table also where it raises.
-- Nobody else works on the table meanwhile, and the artifact files stay as they are; the `Disk` says
-- which reads of them fail. The n-th call reads the time `clock n`.
pub mod Verified
use provable_agent_reference.Base.{
  ℕ, suc, ◌^◌, min, String, Bool, not, ◌==◌, nat_eq, is_empty, List, [], ◌∷◌, length,
}
use provable_agent_reference.Errors.{
  ErrorClass, Result, ok, err, value_error, runtime_error, recursion_error, permission_error,
  file_not_found, os_error, raise_if, require_that, ◌>>=◌, ◌>>◌,
}
use provable_agent_reference.Canonical.{Sha256}
use provable_agent_reference.ControlPlane.Artifacts.{Disk, Files, read}
use provable_agent_reference.ControlPlane.ArtifactTable.{
  ArtifactRow, claim_artifacts, finalize_artifact, unavailable_artifact, retry_artifact,
}

-- `ArtifactReconciler.__init__`
unfoldable pub init : String → Result (Unit {0})
init worker_id = raise_if (is_empty worker_id) value_error "worker_id is required"

-- `min(2 ** min(attempts, 10), 3600)`
abbrev pub delay : ℕ → ℕ
delay attempts = min (2 ^ min attempts 10) 3600

-- The numbers of available, unavailable and retried items.
pub record Tally : Type 0 where
  pub available : ℕ
  pub unavailable : ℕ
  pub retried : ℕ

abbrev pub verify_length : ℕ → List ℕ → Result (List ℕ)
verify_length byte_length content = do
  require_that (nat_eq (length content) byte_length) runtime_error "artifact byte length mismatch"
  ok content

-- Which handler takes an exception: RecursionError is a RuntimeError, and PermissionError an OSError.
pub data Handler : Type 0 where
  dismisses postpones raises : Handler

abbrev pub handler : ErrorClass → Handler
handler file_not_found = dismisses
handler runtime_error = dismisses
handler recursion_error = dismisses
handler os_error = postpones
handler permission_error = postpones
handler c = raises

-- The bytes of an item, with its length.
abbrev pub fetch : ⦃H : Sha256⦄ → Disk → Files → ArtifactRow → Result (List ℕ)
fetch disk fs item = read disk item.digest fs >>= verify_length item.byte_length

module _ (worker_id : String) where
  -- The handlers of an item that could not be read.
  unfoldable pub handle :
      ℕ
      → ArtifactRow
      → Tally
      → Handler
      → ErrorClass
      → String
      → List ArtifactRow
      → Result (Tally × List ArtifactRow)
  handle now item tally dismisses c m rows = do
    after ←
        unavailable_artifact item.digest worker_id "artifact bytes missing or failed verification"
          rows
    ok (record tally { unavailable = suc tally.unavailable }, after)
  handle now item tally postpones c m rows = do
    after ←
        retry_artifact now item.digest worker_id "artifact storage temporarily unavailable"
          (delay item.attempts) rows
    ok (record tally { retried = suc tally.retried }, after)
  handle now item tally raises c m rows = err c m

  -- What follows the read of an item.
  unfoldable pub settle :
      ℕ
      → ArtifactRow
      → Tally
      → Result (List ℕ)
      → List ArtifactRow
      → Result (Tally × List ArtifactRow)
  settle now item tally (ok content) rows = do
    after ← finalize_artifact now item.digest item.storage_key worker_id rows
    ok (record tally { available = suc tally.available }, after)
  settle now item tally (err c m) rows = handle now item tally (handler c) c m rows

  -- The table, and the exception or what the rest of the loop returns.
  abbrev pub go_on :
      List ArtifactRow
      → Result (Tally × List ArtifactRow)
      → (Tally → List ArtifactRow → List ArtifactRow × Result Tally)
      → List ArtifactRow × Result Tally
  go_on rows (ok (tally, after)) rest = rest tally after
  go_on rows (err c m) rest = (rows, err c m)

  module _ ⦃H : Sha256⦄ (clock : ℕ → ℕ) (disk : Disk) (fs : Files) where
    unfoldable pub reconcile :
        ℕ → List ArtifactRow → Tally → List ArtifactRow → List ArtifactRow × Result Tally
    reconcile n [] tally rows = (rows, ok tally)
    reconcile n (item ∷ items) tally rows =
        go_on rows (settle (clock n) item tally (fetch disk fs item) rows) (reconcile (suc n) items)

    abbrev pub reconcile_claimed :
        List ArtifactRow
        → Result (List ArtifactRow × List ArtifactRow)
        → List ArtifactRow × Result Tally
    reconcile_claimed rows (err c m) = (rows, err c m)
    reconcile_claimed rows (ok (items, after)) =
        reconcile 1 items (record { available = 0; unavailable = 0; retried = 0 }) after

    unfoldable pub run_once :
        (String → Bool) → ℕ → List ArtifactRow → List ArtifactRow × Result Tally
    run_once locked limit rows =
        reconcile_claimed rows (claim_artifacts (clock 0) locked worker_id limit rows)
