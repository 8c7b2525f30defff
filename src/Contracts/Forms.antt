-- ===== src/Contracts/Forms.antt =====
-- Reading a record back from the canonical form of its payload.
use provable_agent_reference.Base.{
  ◌≡◌, refl, sym, ap, ◌∙◌, String, Bool, false, List, [], ◌∷◌, ◌==◌, if◌then◌else◌,
}
use provable_agent_reference.Json.{
  Key, text_key, other_key, Value, Items, Fields, null, bool, str, arr, obj, nil, cons, end, field,
  texts,
}
use provable_agent_reference.Json.Order.{sort_keys, sort_items}
use provable_agent_reference.Contracts.TrustedRunContext
use provable_agent_reference.Contracts.TrustedRunContext.{TrustedRunContext}
use provable_agent_reference.Contracts.EvidenceRecord
use provable_agent_reference.Contracts.EvidenceRecord.{EvidenceRecord}
use provable_agent_reference.Contracts.CanonicalCandidate
use provable_agent_reference.Contracts.CanonicalCandidate.{CanonicalCandidate}
use provable_agent_reference.Contracts.VerificationFinding.{VerificationFinding, finding_dicts}
use provable_agent_reference.Contracts.VerificationResult
use provable_agent_reference.Contracts.VerificationResult.{VerificationResult}
use provable_agent_reference.Contracts.ApprovalRecord
use provable_agent_reference.Contracts.ApprovalRecord.{ApprovalRecord}
use provable_agent_reference.Contracts.AuthorizationResult
use provable_agent_reference.Contracts.AuthorizationResult.{AuthorizationResult}
use provable_agent_reference.Contracts.AuditManifest
use provable_agent_reference.Contracts.AuditManifest.{AuditManifest}

-- Readers of a canonical form, total by a default that no payload meets.
abbrev named : String → Key → Bool
named name (text_key k) = name == k
named name (other_key t) = false

abbrev entry_in : String → Fields → Value
entry_in name end = null
entry_in name (field k v fs) = if named name k then v else entry_in name fs

abbrev entry : String → Value → Value
entry name (obj fs) = entry_in name fs
entry name _ = null

abbrev text_of : Value → String
text_of (str s) = s
text_of _ = ""

abbrev flag_of : Value → Bool
flag_of (bool b) = b
flag_of _ = false

abbrev items_of : Value → Items
items_of (arr vs) = vs
items_of _ = nil

abbrev texts_of : Items → List String
texts_of nil = []
texts_of (cons v vs) = text_of v ∷ texts_of vs

abbrev finding_of : Value → VerificationFinding
finding_of v = record {
  code = text_of (entry "code" v);
  severity = text_of (entry "severity" v);
  passed = flag_of (entry "passed" v);
  message = text_of (entry "message" v);
}

abbrev findings_of : Items → List VerificationFinding
findings_of nil = []
findings_of (cons v vs) = finding_of v ∷ findings_of vs

texts_of-sort : (xs : List String) → texts_of (sort_items (texts xs)) ≡ xs
unfolding sort_keys sort_items
texts_of-sort [] = refl
texts_of-sort (x ∷ xs) = λ i. x ∷ texts_of-sort xs i

findings_of-sort :
    (fs : List VerificationFinding) → findings_of (sort_items (finding_dicts fs)) ≡ fs
unfolding sort_keys sort_items
findings_of-sort [] = refl
findings_of-sort (f ∷ fs) = λ i. f ∷ findings_of-sort fs i

texts-determined : (xs ys : List String) → sort_items (texts xs) ≡ sort_items (texts ys) → xs ≡ ys
texts-determined xs ys h = sym (texts_of-sort xs) ∙ ap texts_of h ∙ texts_of-sort ys

findings-determined :
    (fs gs : List VerificationFinding)
    → sort_items (finding_dicts fs) ≡ sort_items (finding_dicts gs)
    → fs ≡ gs
findings-determined fs gs h = sym (findings_of-sort fs) ∙ ap findings_of h ∙ findings_of-sort gs

pub context-fields :
    (m n : TrustedRunContext)
    → sort_keys (TrustedRunContext.to_dict m) ≡ sort_keys (TrustedRunContext.to_dict n)
    → m ≡ n
unfolding sort_keys
context-fields m n h = λ i. record {
  tenant_id = text_of (entry "tenant_id" (h i));
  case_id = text_of (entry "case_id" (h i));
  run_id = text_of (entry "run_id" (h i));
  agent_id = text_of (entry "agent_id" (h i));
  purpose = text_of (entry "purpose" (h i));
  audience = text_of (entry "audience" (h i));
  classification = text_of (entry "classification" (h i));
  created_at = text_of (entry "created_at" (h i));
}

pub evidence-fields :
    (m n : EvidenceRecord)
    → sort_keys (EvidenceRecord.to_dict m) ≡ sort_keys (EvidenceRecord.to_dict n)
    → m ≡ n
unfolding sort_keys
evidence-fields m n h = λ i. record {
  evidence_id = text_of (entry "evidence_id" (h i));
  tenant_id = text_of (entry "tenant_id" (h i));
  case_id = text_of (entry "case_id" (h i));
  content_hash = text_of (entry "content_hash" (h i));
  source_uri = text_of (entry "source_uri" (h i));
  classification = text_of (entry "classification" (h i));
  summary = text_of (entry "summary" (h i));
}

pub approval-fields :
    (m n : ApprovalRecord)
    → sort_keys (ApprovalRecord.payload m) ≡ sort_keys (ApprovalRecord.payload n)
    → m.record_hash ≡ n.record_hash
    → m ≡ n
unfolding sort_keys
approval-fields m n h e = λ i. record {
  approval_id = text_of (entry "approval_id" (h i));
  candidate_id = text_of (entry "candidate_id" (h i));
  candidate_hash = text_of (entry "candidate_hash" (h i));
  verification_result_hash = text_of (entry "verification_result_hash" (h i));
  decision = text_of (entry "decision" (h i));
  approver_id = text_of (entry "approver_id" (h i));
  rationale = text_of (entry "rationale" (h i));
  decided_at = text_of (entry "decided_at" (h i));
  record_hash = e i;
}

pub authorization-fields :
    (m n : AuthorizationResult)
    → sort_keys (AuthorizationResult.payload m) ≡ sort_keys (AuthorizationResult.payload n)
    → m.record_hash ≡ n.record_hash
    → m ≡ n
unfolding sort_keys
authorization-fields m n h e = λ i. record {
  authorization_id = text_of (entry "authorization_id" (h i));
  candidate_id = text_of (entry "candidate_id" (h i));
  candidate_hash = text_of (entry "candidate_hash" (h i));
  approval_id = text_of (entry "approval_id" (h i));
  purpose = text_of (entry "purpose" (h i));
  audience = text_of (entry "audience" (h i));
  output_hash = text_of (entry "output_hash" (h i));
  authorized = flag_of (entry "authorized" (h i));
  reason = text_of (entry "reason" (h i));
  authorized_at = text_of (entry "authorized_at" (h i));
  record_hash = e i;
}

pub manifest-fields :
    (m n : AuditManifest)
    → sort_keys (AuditManifest.payload m) ≡ sort_keys (AuditManifest.payload n)
    → m.manifest_hash ≡ n.manifest_hash
    → m ≡ n
unfolding sort_keys
manifest-fields m n h e = λ i. record {
  manifest_id = text_of (entry "manifest_id" (h i));
  candidate_hash = text_of (entry "candidate_hash" (h i));
  verification_result_hash = text_of (entry "verification_result_hash" (h i));
  approval_record_hash = text_of (entry "approval_record_hash" (h i));
  authorization_record_hash = text_of (entry "authorization_record_hash" (h i));
  generated_at = text_of (entry "generated_at" (h i));
  manifest_hash = e i;
}

pub candidate-fields :
    (m n : CanonicalCandidate)
    → sort_keys (CanonicalCandidate.payload m) ≡ sort_keys (CanonicalCandidate.payload n)
    → m.candidate_hash ≡ n.candidate_hash
    → m ≡ n
unfolding sort_keys
candidate-fields m n h e =
    let run = context-fields m.run_context n.run_context (λ i. entry "run_context" (h i)) in
    let cited = evidence-fields m.evidence n.evidence (λ i. entry "evidence" (h i)) in
    let limits =
      texts-determined m.limitations n.limitations (λ i. items_of (entry "limitations" (h i))) in
    let categories =
      texts-determined m.content_categories n.content_categories
        (λ i. items_of (entry "content_categories" (h i))) in
    λ i. record {
      schema_version = text_of (entry "schema_version" (h i));
      candidate_id = text_of (entry "candidate_id" (h i));
      compiler_id = text_of (entry "compiler_id" (h i));
      compiler_version = text_of (entry "compiler_version" (h i));
      run_context = run i;
      claim_id = text_of (entry "claim_id" (h i));
      claim_text = text_of (entry "claim_text" (h i));
      evidence = cited i;
      evidence_bundle_hash = text_of (entry "evidence_bundle_hash" (h i));
      limitations = limits i;
      assurance_statement = text_of (entry "assurance_statement" (h i));
      content_categories = categories i;
      redacted = flag_of (entry "redacted" (h i));
      created_at = text_of (entry "created_at" (h i));
      candidate_hash = e i;
    }

pub verification-fields :
    (m n : VerificationResult)
    → sort_keys (VerificationResult.payload m) ≡ sort_keys (VerificationResult.payload n)
    → m.result_hash ≡ n.result_hash
    → m ≡ n
unfolding sort_keys
verification-fields m n h e =
    let found =
      findings-determined m.findings n.findings (λ i. items_of (entry "findings" (h i))) in
    λ i. record {
      result_id = text_of (entry "result_id" (h i));
      candidate_id = text_of (entry "candidate_id" (h i));
      candidate_hash = text_of (entry "candidate_hash" (h i));
      verifier_id = text_of (entry "verifier_id" (h i));
      verifier_version = text_of (entry "verifier_version" (h i));
      status = text_of (entry "status" (h i));
      findings = found i;
      evaluated_at = text_of (entry "evaluated_at" (h i));
      result_hash = e i;
    }
