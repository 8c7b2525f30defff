-- ===== src/Json/Entries.antt =====
-- Reading the entries of a Python dict: `record[name]`, and a dict without one of its entries.
use provable_agent_reference.Base.{String, Option, none, some, ◌==◌, if◌then◌else◌}
use provable_agent_reference.Errors.{Result, ok, err, key_error, type_error}
use provable_agent_reference.Json.{Value, Fields, obj, field, end, text_key, other_key}
use provable_agent_reference.Json.Equality.{lookup}

-- `record.get(name)`, for a dict
abbrev pub entry : String → Value → Option Value
entry name (obj fs) = lookup (text_key name) fs
entry name v = none

abbrev pub found : String → Option Value → Result Value
found name (some v) = ok v
found name none = err key_error name

-- `record[name]`
abbrev pub item : String → Value → Result Value
item name (obj fs) = found name (lookup (text_key name) fs)
item name v = err type_error "the value has no entries"

-- The entries of a dict without those of one name.
abbrev pub without : String → Fields → Fields
without name end = end
without name (field (text_key k) v fs) =
    let rest = without name fs in if k == name then rest else field (text_key k) v rest
without name (field (other_key t) v fs) = field (other_key t) v (without name fs)

-- `{key: value for key, value in record.items() if key != "record_hash"}`
abbrev pub payload_of : Value → Value
payload_of (obj fs) = obj (without "record_hash" fs)
payload_of v = v
