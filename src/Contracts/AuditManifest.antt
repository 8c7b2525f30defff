-- ===== src/Contracts/AuditManifest.antt =====
-- The class AuditManifest of src/provable_agent_reference/contracts.py. It validates nothing.
use provable_agent_reference.Base.{String, Bool, ◌≡◌, refl, true, ◌==◌}
use provable_agent_reference.Errors.{Result, ok, ◌>>=◌}
use provable_agent_reference.Json.{Value, Fields, str, obj, end, ◌⇒◌⨾◌, is_json}
use provable_agent_reference.Canonical.{Sha256, sha256_uri, value}
use provable_agent_reference.Canonical.Binding.{uri, sha256_uri-ok}

pub record AuditManifest : Type 0 where
  pub manifest_id : String
  pub candidate_hash : String
  pub verification_result_hash : String
  pub approval_record_hash : String
  pub authorization_record_hash : String
  pub generated_at : String
  pub manifest_hash : String

abbrev entries : AuditManifest → Fields → Fields
entries m rest =
    "manifest_id"
    ⇒ str m.manifest_id ⨾ "candidate_hash"
    ⇒ str m.candidate_hash ⨾ "verification_result_hash"
    ⇒ str m.verification_result_hash ⨾ "approval_record_hash"
    ⇒ str m.approval_record_hash ⨾ "authorization_record_hash"
    ⇒ str m.authorization_record_hash ⨾ "generated_at"
    ⇒ str m.generated_at ⨾ rest

abbrev pub payload : AuditManifest → Value
payload m = obj (entries m end)

abbrev pub to_dict : AuditManifest → Value
to_dict m = obj (entries m ("manifest_hash" ⇒ str m.manifest_hash ⨾ end))

unfoldable pub verify_hash : ⦃H : Sha256⦄ → AuditManifest → Result Bool
verify_hash m = do expected ← sha256_uri (value (payload m)); ok (m.manifest_hash == expected)

pub payload-json : (m : AuditManifest) → is_json (payload m) ≡ true
unfolding is_json
payload-json m = refl

pub verify_hash-eq :
    ⦃H : Sha256⦄ (m : AuditManifest) → verify_hash m ≡ ok (m.manifest_hash == uri (payload m))
unfolding verify_hash
verify_hash-eq m = rw (sha256_uri-ok (payload m) (payload-json m))
