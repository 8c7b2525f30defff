-- ===== src/Contracts/EvidenceRecord.antt =====
-- The class EvidenceRecord of src/provable_agent_reference/contracts.py.
use provable_agent_reference.Base.{
  String, ◌≡◌, ◌↔◌, refl, true, ◌&&◌, ◌==◌, Bool, codes, eq_iff, arith,
}
use provable_agent_reference.Errors.{Result, ok, ◌>>=◌, ◌>>◌}
use provable_agent_reference.Json.{Value, str, obj, end, ◌⇒◌⨾◌, is_json}
use provable_agent_reference.Canonical.{Sha256, sha256_uri, bytes}
use provable_agent_reference.Canonical.Utf8.{encode}
use provable_agent_reference.Contracts.Validation.{identifier, hash_uri, bounded}

pub record EvidenceRecord : Type 0 where
  pub evidence_id : String
  pub tenant_id : String
  pub case_id : String
  pub content_hash : String
  pub source_uri : String
  pub classification : String
  pub summary : String

unfoldable pub post_init : EvidenceRecord → Result (Unit {0})
post_init r = do
  identifier r.evidence_id "evidence_id"
  identifier r.tenant_id "tenant_id"
  identifier r.case_id "case_id"
  hash_uri r.content_hash "content_hash"
  bounded r.source_uri "source_uri" 2000
  bounded r.summary "summary" 2000

abbrev pub make : EvidenceRecord → Result EvidenceRecord
make r = post_init r >> ok r

-- `==` of the dataclass: field by field.
abbrev pub same_record : EvidenceRecord → EvidenceRecord → Bool
same_record r q =
    r.evidence_id == q.evidence_id
    && r.tenant_id == q.tenant_id
    && r.case_id == q.case_id
    && r.content_hash == q.content_hash
    && r.source_uri == q.source_uri
    && r.classification == q.classification
    && r.summary == q.summary

-- The arguments of `from_text`, with the content where the record has its hash.
unfoldable pub from_text :
    ⦃H : Sha256⦄
    → (evidence_id tenant_id case_id text source_uri classification summary : String)
    → Result EvidenceRecord
from_text evidence_id tenant_id case_id text source_uri classification summary = do
  content_hash ← sha256_uri (bytes (encode (codes text)))
  make (record {
    evidence_id = evidence_id;
    tenant_id = tenant_id;
    case_id = case_id;
    content_hash = content_hash;
    source_uri = source_uri;
    classification = classification;
    summary = summary;
  })

abbrev pub to_dict : EvidenceRecord → Value
to_dict r = obj (
    "evidence_id"
    ⇒ str r.evidence_id ⨾ "tenant_id"
    ⇒ str r.tenant_id ⨾ "case_id"
    ⇒ str r.case_id ⨾ "content_hash"
    ⇒ str r.content_hash ⨾ "source_uri"
    ⇒ str r.source_uri ⨾ "classification"
    ⇒ str r.classification ⨾ "summary"
    ⇒ str r.summary ⨾ end)

pub to_dict-json : (r : EvidenceRecord) → is_json (to_dict r) ≡ true
unfolding is_json
to_dict-json r = refl

pub same_record_iff : (r q : EvidenceRecord) → (same_record r q ≡ true) ↔ (r ≡ q)
same_record_iff r q = ground (
  arith,
  eq_iff r.evidence_id q.evidence_id,
  eq_iff r.tenant_id q.tenant_id,
  eq_iff r.case_id q.case_id,
  eq_iff r.content_hash q.content_hash,
  eq_iff r.source_uri q.source_uri,
  eq_iff r.classification q.classification,
  eq_iff r.summary q.summary,
)
