-- ===== src/Contracts/EvidenceBundle.antt =====
-- The class EvidenceBundle of src/provable_agent_reference/contracts.py.
pub mod Lookup
use provable_agent_reference.Base.{
  String, ◌≡◌, refl, true, false, not, ◌&&◌, ◌==◌, Bool, List, [], ◌∷◌, is_nil, member, map,
  if◌then◌else◌,
}
use provable_agent_reference.Errors.{
  Result, ok, err, contract_error, raise_if, require_that, ◌>>=◌, ◌>>◌,
}
use provable_agent_reference.Json.{
  Value, Items, str, arr, obj, nil, cons, end, ◌⇒◌⨾◌, is_json, all_json,
}
use provable_agent_reference.Canonical.{Sha256, sha256_uri, value}
use provable_agent_reference.Contracts.EvidenceRecord
use provable_agent_reference.Contracts.EvidenceRecord.{EvidenceRecord}
use provable_agent_reference.Contracts.Validation.{identifier, hash_uri}

pub record EvidenceBundle : Type 0 where
  pub bundle_id : String
  pub tenant_id : String
  pub case_id : String
  pub records : List EvidenceRecord
  pub bundle_hash : String

-- `[record.to_dict() for record in records]`
abbrev pub record_dicts : List EvidenceRecord → Items
record_dicts [] = nil
record_dicts (r ∷ rs) = cons (EvidenceRecord.to_dict r) (record_dicts rs)

-- What `compute_hash` and `create` hash.
abbrev pub payload : EvidenceBundle → Value
payload b = obj (
    "bundle_id"
    ⇒ str b.bundle_id ⨾ "tenant_id"
    ⇒ str b.tenant_id ⨾ "case_id"
    ⇒ str b.case_id ⨾ "records"
    ⇒ arr (record_dicts b.records) ⨾ end)

abbrev pub to_dict : EvidenceBundle → Value
to_dict b = obj (
    "bundle_id"
    ⇒ str b.bundle_id ⨾ "tenant_id"
    ⇒ str b.tenant_id ⨾ "case_id"
    ⇒ str b.case_id ⨾ "records"
    ⇒ arr (record_dicts b.records) ⨾ "bundle_hash"
    ⇒ str b.bundle_hash ⨾ end)

-- The loop over the records, with the identifiers that it has met.
unfoldable pub check_records :
    String → String → List String → List EvidenceRecord → Result (Unit {0})
check_records tenant_id case_id identities [] = ok tt
check_records tenant_id case_id identities (r ∷ rs) = do
  raise_if (member r.evidence_id identities) contract_error
      "evidence bundle contains duplicate evidence identifiers"
  require_that (r.tenant_id == tenant_id && r.case_id == case_id) contract_error
      "evidence bundle contains a cross-scope record"
  check_records tenant_id case_id (r.evidence_id ∷ identities) rs

unfoldable pub find : String → List EvidenceRecord → Result EvidenceRecord
find evidence_id [] = err contract_error "selected evidence is not present in the authorized bundle"
find evidence_id (r ∷ rs) =
    let rest = find evidence_id rs in if r.evidence_id == evidence_id then ok r else rest

-- `require`
abbrev pub require : EvidenceBundle → String → Result EvidenceRecord
require b evidence_id = find evidence_id b.records

module _ ⦃H : Sha256⦄ where
  unfoldable pub compute_hash : EvidenceBundle → Result String
  compute_hash b = sha256_uri (value (payload b))

  unfoldable pub post_init : EvidenceBundle → Result (Unit {0})
  post_init b = do
    identifier b.bundle_id "bundle_id"
    identifier b.tenant_id "tenant_id"
    identifier b.case_id "case_id"
    hash_uri b.bundle_hash "bundle_hash"
    raise_if (is_nil b.records) contract_error "evidence bundle must contain at least one record"
    check_records b.tenant_id b.case_id [] b.records
    expected ← compute_hash b
    require_that (b.bundle_hash == expected) contract_error "evidence bundle hash mismatch"

  abbrev pub make : EvidenceBundle → Result EvidenceBundle
  make b = post_init b >> ok b

  unfoldable pub create : String → String → String → List EvidenceRecord → Result EvidenceBundle
  create bundle_id tenant_id case_id records = do
    bundle_hash ← sha256_uri (
        value (
          obj (
            "bundle_id"
            ⇒ str bundle_id ⨾ "tenant_id"
            ⇒ str tenant_id ⨾ "case_id"
            ⇒ str case_id ⨾ "records"
            ⇒ arr (record_dicts records) ⨾ end)))
    make (record {
      bundle_id = bundle_id;
      tenant_id = tenant_id;
      case_id = case_id;
      records = records;
      bundle_hash = bundle_hash;
    })

record_dicts-json : (rs : List EvidenceRecord) → all_json (record_dicts rs) ≡ true
unfolding is_json all_json
record_dicts-json [] = refl
record_dicts-json (r ∷ rs) = record_dicts-json rs

pub payload-json : (b : EvidenceBundle) → is_json (payload b) ≡ true
unfolding is_json
payload-json b = rw (record_dicts-json b.records)
