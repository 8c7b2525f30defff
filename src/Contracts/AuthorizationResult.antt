-- ===== src/Contracts/AuthorizationResult.antt =====
-- The class AuthorizationResult of src/provable_agent_reference/contracts.py. It validates nothing.
use provable_agent_reference.Base.{String, Bool, ◌≡◌, refl, true, ◌==◌}
use provable_agent_reference.Errors.{Result, ok, ◌>>=◌}
use provable_agent_reference.Json.{Value, Fields, str, bool, obj, end, ◌⇒◌⨾◌, is_json}
use provable_agent_reference.Canonical.{Sha256, sha256_uri, value}
use provable_agent_reference.Canonical.Binding.{uri, sha256_uri-ok}

pub record AuthorizationResult : Type 0 where
  pub authorization_id : String
  pub candidate_id : String
  pub candidate_hash : String
  pub approval_id : String
  pub purpose : String
  pub audience : String
  pub output_hash : String
  pub authorized : Bool
  pub reason : String
  pub authorized_at : String
  pub record_hash : String

abbrev entries : AuthorizationResult → Fields → Fields
entries z rest =
    "authorization_id"
    ⇒ str z.authorization_id ⨾ "candidate_id"
    ⇒ str z.candidate_id ⨾ "candidate_hash"
    ⇒ str z.candidate_hash ⨾ "approval_id"
    ⇒ str z.approval_id ⨾ "purpose"
    ⇒ str z.purpose ⨾ "audience"
    ⇒ str z.audience ⨾ "output_hash"
    ⇒ str z.output_hash ⨾ "authorized"
    ⇒ bool z.authorized ⨾ "reason"
    ⇒ str z.reason ⨾ "authorized_at"
    ⇒ str z.authorized_at ⨾ rest

abbrev pub payload : AuthorizationResult → Value
payload z = obj (entries z end)

abbrev pub to_dict : AuthorizationResult → Value
to_dict z = obj (entries z ("record_hash" ⇒ str z.record_hash ⨾ end))

unfoldable pub verify_hash : ⦃H : Sha256⦄ → AuthorizationResult → Result Bool
verify_hash z = do expected ← sha256_uri (value (payload z)); ok (z.record_hash == expected)

pub payload-json : (z : AuthorizationResult) → is_json (payload z) ≡ true
unfolding is_json
payload-json z = refl

pub verify_hash-eq :
    ⦃H : Sha256⦄ (z : AuthorizationResult) → verify_hash z ≡ ok (z.record_hash == uri (payload z))
unfolding verify_hash
verify_hash-eq z = rw (sha256_uri-ok (payload z) (payload-json z))
