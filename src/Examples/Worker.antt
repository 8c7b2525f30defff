-- ===== src/Examples/Worker.antt =====
-- The theorem about the outbox worker at a concrete table.
use provable_agent_reference.Base.{ℕ, ◌+◌, String, List, [], ◌∷◌, Option, none, some}
use provable_agent_reference.Json.{Value, null}
use provable_agent_reference.ControlPlane.Outbox.{OutboxItem}

abbrev item : String → OutboxItem
item identity = record {
  outbox_id = identity;
  tenant_id = "tenant_demo";
  aggregate_type = "run";
  aggregate_id = "run_demo";
  event_type = identity;
  payload = null;
  created_at = 1;
  available_at = 1;
  claimed_at = none;
  claimed_by = none;
  published_at = none;
  attempts = 0;
  last_error = none;
}

abbrev rows : List OutboxItem
rows = item "outbox_1" ∷ item "outbox_2" ∷ []

-- Every publication fails.
abbrev failing : String → Value → Option String
failing event_type payload = some "OSError"

abbrev ticking : ℕ → ℕ
ticking n = n + 10
