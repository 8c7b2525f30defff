-- ===== src/Examples/Delegations.antt =====
-- The theorem about delegation at a concrete database.
use provable_agent_reference.Base.{
  false, ℕ, suc, zero, ◌≡◌, refl, ap, String, Bool, true, [], ◌∷◌, inl, none, some, All, code,
  nat_eq, if◌then◌else◌, Bool-cases, inr, count,
}
use provable_agent_reference.Errors.{Result, ok, err, value_error}
use provable_agent_reference.Json.{pos}
use provable_agent_reference.Json.Equality.{lookup, key_eq}
use provable_agent_reference.Canonical.{
  sha256_uri, canonical_json, require_string_keys, serializable, short_id, value,
}
use provable_agent_reference.Canonical.Utf8.{encode, encode_char}
use provable_agent_reference.Json.Order.{sort_keys}
use provable_agent_reference.Json.Print.{print}
use provable_agent_reference.ControlPlane.Models.{
  CapabilityGrant, Datetime, post_init, permits_child, bounded,
}
use provable_agent_reference.ControlPlane.Table.{
  select, place, order_by, rowcount, insert_row, first,
}
use provable_agent_reference.ControlPlane.Database.{
  Database, Run, GrantRow, empty_database, enqueue,
}
use provable_agent_reference.ControlPlane.Runs.{insert_journal}
use provable_agent_reference.ControlPlane.Delegations.{
  IsoFormat, GrantRecord, capability_grant, text_items, last_event, check_parent, insert_grant,
  create_delegation, is_named,
}
use provable_agent_reference.ControlPlane.Delegations.Attenuated.{
  IsGranted, IsActive, create_delegation-attenuates,
}
use provable_agent_reference.ControlPlane.Service.Delegate.{grant_document, sorted, place_name}
use provable_agent_reference.Examples.Data.{toy}

-- A time as a text: its zone, then as many characters as its instant.
abbrev ticks : ℕ → String
ticks zero = ""
ticks (suc n) = String.◌∷◌ "0" (ticks n)

count-ticks : (n : ℕ) → count (ticks n) ≡ n
count-ticks zero = refl
count-ticks (suc n) = ap (λ m. suc m) (count-ticks n)

abbrev write_time : Datetime → String
write_time t = String.◌∷◌ (if t.aware then "Z" else "N") (ticks t.instant)

abbrev read_time : String → Result Datetime
read_time String.[] = err value_error "no time"
read_time (String.◌∷◌ c s) = ok (record { instant = count s; aware = nat_eq (code c) b'Z' })

abbrev time_at : ℕ → Bool → Result Datetime
time_at n zoned = ok (record { instant = n; aware = zoned })

read_time-write_time : (t : Datetime) → read_time (write_time t) ≡ ok t
read_time-write_time t = elim (Bool-cases t.aware) [
  | inl zoned ↦ rw zoned (λ i. time_at (count-ticks t.instant i) true)
  | inr naive ↦ rw naive (λ i. time_at (count-ticks t.instant i) false)
]

abbrev iso : IsoFormat
iso = record {
  isoformat = write_time;
  fromisoformat = read_time;
  round_trip = read_time-write_time;
}

abbrev root_grant : CapabilityGrant
root_grant = record {
  capabilities = "memory.read" ∷ "tool.control_lookup" ∷ [];
  tenant_id = "tenant_demo";
  case_id = "case_demo";
  allowed_effects = [];
  max_tool_calls = pos 3;
  max_model_calls = pos 2;
  valid_until = record { instant = 9; aware = true };
  delegation_depth = pos 1;
}

abbrev child_grant : CapabilityGrant
child_grant = record root_grant {
  capabilities = "memory.read" ∷ [];
  max_tool_calls = pos 1;
  delegation_depth = pos 0;
}

abbrev hash_or_empty : Result String → String
hash_or_empty (ok h) = h
hash_or_empty (err e m) = ""

abbrev root_row : GrantRow
root_row = record {
  grant_id = "grant_root";
  tenant_id = "tenant_demo";
  case_id = "case_demo";
  run_id = "run_demo";
  parent_grant_id = none;
  grant_document = grant_document iso root_grant;
  grant_hash = hash_or_empty (sha256_uri (value (grant_document iso root_grant)));
  valid_until = 9;
  revoked_at = none;
}

abbrev demo_run : Run
demo_run = record {
  run_id = "run_demo";
  tenant_id = "tenant_demo";
  case_id = "case_demo";
  requester_subject = "user:demo";
  purpose = "Prepare a statement.";
  audience = "reviewer";
  risk_tier = pos 1;
  policy_version = "policy-1";
  status = "requested";
}

abbrev database : Database
database = record empty_database { runs = demo_run ∷ []; grants = root_row ∷ [] }

abbrev child_record : GrantRecord
child_record = record {
  grant_id = "grant_child";
  tenant_id = "tenant_demo";
  case_id = "case_demo";
  run_id = "run_demo";
  parent_grant_id = "grant_root";
  grant_document = grant_document iso child_grant;
  grant_hash = hash_or_empty (sha256_uri (value (grant_document iso child_grant)));
  valid_until = record { instant = 9; aware = true };
}

abbrev answer_or_empty : Result (String × Database) → String × Database
answer_or_empty (ok answer) = answer
answer_or_empty (err e m) = ("", empty_database)

abbrev delegated : String × Database
delegated = answer_or_empty (create_delegation iso 5 child_record "evt_1" "outbox_1" database)

created : create_delegation iso 5 child_record "evt_1" "outbox_1" database ≡ ok delegated
unfolding create_delegation check_parent insert_grant insert_journal enqueue capability_grant
    text_items post_init permits_child bounded last_event select first order_by place rowcount
    insert_row sha256_uri short_id canonical_json serializable require_string_keys sort_keys print
    encode encode_char lookup key_eq sorted place_name
created = refl

create_delegation-attenuates_example :
    All (IsGranted iso delegated.1.grants) delegated.1.grants
    × ((parent : GrantRow) × (first (is_named "grant_root") database.grants ≡ some parent)
        × IsActive iso 5 parent)
create_delegation-attenuates_example =
    create_delegation-attenuates iso 5 child_record "evt_1" "outbox_1" database delegated.1
      delegated.0 (inl refl, tt) created
