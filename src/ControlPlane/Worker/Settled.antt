-- ===== src/ControlPlane/Worker/Settled.antt =====
-- The run of OutboxWorker in src/provable_agent_reference/control_plane/outbox.py, from the claim to
-- the table that it leaves.
use provable_agent_reference.Base.{ℕ, ◌≡◌, String, Bool, not, ◌&&◌, List, All, Option}
use provable_agent_reference.Json.{Value}
use provable_agent_reference.ControlPlane.Table.{rowcount}
use provable_agent_reference.ControlPlane.Outbox.{OutboxItem}
use provable_agent_reference.ControlPlane.Outbox.Candidates.{named}
use provable_agent_reference.ControlPlane.Worker.Claimed.{IsApart}
use provable_agent_reference.ControlPlane.Worker.Outcome.{looks_settled, succeeds, outcome}

module _ (worker_id : String) (clock : ℕ → ℕ) (publish : String → Value → Option String) where
  -- The table has one row of the item's identifier, and that is settled by some call of the run.
  abbrev pub IsSettled : List OutboxItem → OutboxItem → Type 0
  IsSettled rows item =
      (n : ℕ) × (rowcount
          (λ r.
            named item.outbox_id r
            && looks_settled (clock n) item (outcome worker_id clock publish item) r)
          rows
        ≡ 1)

  -- What is said of an identifier that no item has is as it was.
  abbrev pub IsUntouched : List OutboxItem → List OutboxItem → List OutboxItem → Type 0
  IsUntouched items rows after =
      (j : OutboxItem) (q : OutboxItem → Bool)
      → All (IsApart j) items
      → rowcount (λ r. named j.outbox_id r && q r) after
        ≡ rowcount (λ r. named j.outbox_id r && q r) rows

  abbrev failed_by : OutboxItem → Bool
  failed_by item = not (succeeds worker_id clock publish item)
