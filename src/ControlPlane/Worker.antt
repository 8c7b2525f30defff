-- ===== src/ControlPlane/Worker.antt =====
-- OutboxWorker of src/provable_agent_reference/control_plane/outbox.py. `publish` is the callback: an
-- exception's class name, or none where it returns. Each call of the store is a transaction of its
-- own, so that run_once gives back the table also where it raises. Nobody else works on the table
-- meanwhile. The n-th call reads the time `clock n`.
pub mod Claimed
pub mod Outcome
pub mod Untouched
pub mod Settled
use provable_agent_reference.Base.{
  ℕ, suc, ◌^◌, min, String, Bool, List, [], ◌∷◌, Option, none, some, ◌<>◌,
}
use provable_agent_reference.Errors.{Result, ok, err, ◌>>=◌}
use provable_agent_reference.Json.{Value}
use provable_agent_reference.ControlPlane.Outbox.{
  OutboxItem, claim_outbox, complete_outbox, retry_outbox,
}

-- `min(2 ** min(attempts, 10), 3600)`
abbrev pub delay : ℕ → ℕ
delay attempts = min (2 ^ min attempts 10) 3600

-- The numbers of completed and of failed items.
pub record Tally : Type 0 where
  pub completed : ℕ
  pub failed : ℕ

module _ (worker_id : String) (clock : ℕ → ℕ) (publish : String → Value → Option String) where
  -- What follows the publication of an item.
  unfoldable pub settle :
      ℕ → OutboxItem → Tally → Option String → List OutboxItem → Result (Tally × List OutboxItem)
  settle now item tally none rows = do
    after ← complete_outbox now item.outbox_id worker_id rows
    ok (record tally { completed = suc tally.completed }, after)
  settle now item tally (some class) rows = do
    after ←
        retry_outbox now item.outbox_id worker_id (class <> ": publication failed")
          (delay item.attempts) rows
    ok (record tally { failed = suc tally.failed }, after)

  -- The table, and the exception or what the rest of the loop returns.
  abbrev pub go_on :
      List OutboxItem
      → Result (Tally × List OutboxItem)
      → (Tally → List OutboxItem → List OutboxItem × Result Tally)
      → List OutboxItem × Result Tally
  go_on rows (ok (tally, after)) rest = rest tally after
  go_on rows (err c m) rest = (rows, err c m)

  unfoldable pub publish_all :
      ℕ → List OutboxItem → Tally → List OutboxItem → List OutboxItem × Result Tally
  publish_all n [] tally rows = (rows, ok tally)
  publish_all n (item ∷ items) tally rows =
      go_on rows (settle (clock n) item tally (publish item.event_type item.payload) rows)
        (publish_all (suc n) items)

  abbrev pub publish_claimed :
      List OutboxItem → Result (List OutboxItem × List OutboxItem) → List OutboxItem × Result Tally
  publish_claimed rows (err c m) = (rows, err c m)
  publish_claimed rows (ok (items, after)) =
      publish_all 1 items (record { completed = 0; failed = 0 }) after

  unfoldable pub run_once : (String → Bool) → ℕ → List OutboxItem → List OutboxItem × Result Tally
  run_once locked limit rows =
      publish_claimed rows (claim_outbox (clock 0) locked worker_id limit rows)
