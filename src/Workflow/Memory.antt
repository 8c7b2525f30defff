-- ===== src/Workflow/Memory.antt =====
-- PrivacyBoundedMemory of src/provable_agent_reference/synthetic_workflow.py: it releases references
-- to the evidence of one case, and no text.
pub mod Scoped
use provable_agent_reference.Base.{
  ℕ, String, Bool, true, false, not, ◌&&◌, ◌||◌, ◌==◌, if◌then◌else◌, List, [], ◌∷◌, take, length,
  leb, ltb, is_empty, ◌<>◌,
}
use provable_agent_reference.Errors.{Result, ok, value_error, raise_if, ◌>>=◌, ◌>>◌}
use provable_agent_reference.Json.{
  Value, Items, bool, int, str, arr, obj, nil, cons, end, pos, ◌⇒◌⨾◌, texts,
}
use provable_agent_reference.Canonical.{Sha256, sha256_uri, value}
use provable_agent_reference.Contracts.TrustedRunContext.{TrustedRunContext}
use provable_agent_reference.Contracts.EvidenceRecord
use provable_agent_reference.Contracts.EvidenceRecord.{EvidenceRecord}
use provable_agent_reference.ControlPlane.Models.{CapabilityGrant}
use provable_agent_reference.Workflow.Grant.{require_grant}

pub record SyntheticMemoryRecord : Type 0 where
  pub evidence_id : String
  pub tenant_id : String
  pub case_id : String
  pub text : String
  pub summary : String
  pub classification : String

-- The records of the context's tenant and case.
unfoldable pub scoped : TrustedRunContext → List SyntheticMemoryRecord → List SyntheticMemoryRecord
scoped context [] = []
scoped context (r ∷ rs) =
    let rest = scoped context rs in
    if r.tenant_id == context.tenant_id && r.case_id == context.case_id then r ∷ rest else rest

abbrev pub reference_of : EvidenceRecord → Value
reference_of e = obj (
    "reference_id"
    ⇒ str e.evidence_id ⨾ "content_commitment"
    ⇒ str e.content_hash ⨾ "source_ref"
    ⇒ str e.source_uri ⨾ "provenance_ref"
    ⇒ str ("synthetic:fixture:" <> e.evidence_id) ⨾ "classification"
    ⇒ str e.classification ⨾ "freshness_status"
    ⇒ str "current" ⨾ "integrity_status"
    ⇒ str "verified" ⨾ end)

abbrev pub references_of : List EvidenceRecord → Items
references_of [] = nil
references_of (e ∷ es) = cons (reference_of e) (references_of es)

abbrev pub evidence_ids : List EvidenceRecord → List String
evidence_ids [] = []
evidence_ids (e ∷ es) = e.evidence_id ∷ evidence_ids es

-- The activity's three commitments: of the filters, the query and the results.
abbrev pub memory_activity :
    TrustedRunContext
    → ℕ
    → List SyntheticMemoryRecord
    → List EvidenceRecord
    → String
    → String
    → String
    → Value
memory_activity context limit in_scope evidence filters query results = obj (
    "body_type"
    ⇒ str "memory_access" ⨾ "memory_provider"
    ⇒ str "embedded synthetic fixture" ⨾ "store_id"
    ⇒ str "store_synthetic_vendor_assurance" ⨾ "namespace"
    ⇒ str (context.tenant_id <> ("/" <> context.case_id)) ⨾ "adapter"
    ⇒ obj ("adapter_id" ⇒ str "adapter.synthetic_memory" ⨾ "adapter_version" ⇒ str "0.1.0" ⨾ end) ⨾
      "access_purpose"
    ⇒ str context.purpose ⨾ "allowed_classifications"
    ⇒ arr (texts (context.classification ∷ [])) ⨾ "filters_commitment"
    ⇒ str filters ⨾ "result_limit"
    ⇒ int (pos limit) ⨾ "query_commitment"
    ⇒ str query ⨾ "commitment_key_ref"
    ⇒ str "synthetic:unkeyed-development-commitment" ⨾ "result_set_commitment"
    ⇒ str results ⨾ "result_count"
    ⇒ int (pos (length evidence)) ⨾ "truncated"
    ⇒ bool (ltb limit (length in_scope)) ⨾ "results"
    ⇒ arr (references_of evidence) ⨾ "disclosure_mode"
    ⇒ str "reference" ⨾ "minimization_decision"
    ⇒ str "minimized" ⨾ "retention_class"
    ⇒ str "synthetic_ephemeral" ⨾ "access_decision"
    ⇒ str "allow" ⨾ "evidence_object_refs"
    ⇒ arr (texts (evidence_ids evidence)) ⨾ "errors"
    ⇒ arr nil ⨾ end)

module _ ⦃H : Sha256⦄ where
  -- The evidence record of each selected record.
  unfoldable pub evidence_of : List SyntheticMemoryRecord → Result (List EvidenceRecord)
  evidence_of [] = ok []
  evidence_of (r ∷ rs) = do
    first ←
        EvidenceRecord.from_text r.evidence_id r.tenant_id r.case_id r.text
          ("synthetic://memory/" <> r.evidence_id) r.classification r.summary
    rest ← evidence_of rs
    ok (first ∷ rest)

  -- A negative limit is refused with 0, so the limit is a natural number.
  unfoldable pub query :
      List SyntheticMemoryRecord
      → ℕ
      → TrustedRunContext
      → CapabilityGrant
      → String
      → ℕ
      → Result (List EvidenceRecord × Value)
  query records now context grant question limit = do
    require_grant now context grant "memory.read"
    raise_if (is_empty question || not (leb 1 limit && leb limit 100)) value_error
        "a bounded memory query is required"
    let in_scope = scoped context records
    evidence ← evidence_of (take limit in_scope)
    filters ←
        sha256_uri (
          value (obj ("tenant_id" ⇒ str context.tenant_id ⨾ "case_id" ⇒ str context.case_id ⨾ end)))
    commitment ← sha256_uri (value (obj ("query" ⇒ str question ⨾ end)))
    results ← sha256_uri (value (arr (references_of evidence)))
    ok (evidence, memory_activity context limit in_scope evidence filters commitment results)
