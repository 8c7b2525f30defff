-- ===== src/Contracts/ApprovalRecord.antt =====
-- The class ApprovalRecord of src/provable_agent_reference/contracts.py. It validates nothing.
use provable_agent_reference.Base.{String, Bool, ◌≡◌, refl, true, ◌==◌}
use provable_agent_reference.Errors.{Result, ok, ◌>>=◌}
use provable_agent_reference.Json.{Value, Fields, str, obj, end, ◌⇒◌⨾◌, is_json}
use provable_agent_reference.Canonical.{Sha256, sha256_uri, value}
use provable_agent_reference.Canonical.Binding.{uri, sha256_uri-ok}

pub record ApprovalRecord : Type 0 where
  pub approval_id : String
  pub candidate_id : String
  pub candidate_hash : String
  pub verification_result_hash : String
  pub decision : String
  pub approver_id : String
  pub rationale : String
  pub decided_at : String
  pub record_hash : String

abbrev entries : ApprovalRecord → Fields → Fields
entries a rest =
    "approval_id"
    ⇒ str a.approval_id ⨾ "candidate_id"
    ⇒ str a.candidate_id ⨾ "candidate_hash"
    ⇒ str a.candidate_hash ⨾ "verification_result_hash"
    ⇒ str a.verification_result_hash ⨾ "decision"
    ⇒ str a.decision ⨾ "approver_id"
    ⇒ str a.approver_id ⨾ "rationale"
    ⇒ str a.rationale ⨾ "decided_at"
    ⇒ str a.decided_at ⨾ rest

abbrev pub payload : ApprovalRecord → Value
payload a = obj (entries a end)

abbrev pub to_dict : ApprovalRecord → Value
to_dict a = obj (entries a ("record_hash" ⇒ str a.record_hash ⨾ end))

unfoldable pub verify_hash : ⦃H : Sha256⦄ → ApprovalRecord → Result Bool
verify_hash a = do expected ← sha256_uri (value (payload a)); ok (a.record_hash == expected)

pub payload-json : (a : ApprovalRecord) → is_json (payload a) ≡ true
unfolding is_json
payload-json a = refl

pub verify_hash-eq :
    ⦃H : Sha256⦄ (a : ApprovalRecord) → verify_hash a ≡ ok (a.record_hash == uri (payload a))
unfolding verify_hash
verify_hash-eq a = rw (sha256_uri-ok (payload a) (payload-json a))
