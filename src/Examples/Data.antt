-- ===== src/Examples/Data.antt =====
-- A digest that meets the interface, and the records of a small case.
use provable_agent_reference.Base.{
  ℕ, ◌+◌, ◌%◌, ◌≡◌, refl, String, inr, arith, true, List, [], ◌∷◌, nat_eq, Bool-cases, inl,
  if◌then◌else◌,
}
use provable_agent_reference.Canonical.{Sha256, is_hex64}
use provable_agent_reference.Canonical.Binding.{uri}
use provable_agent_reference.Errors.{ok}
use provable_agent_reference.Json.Order.{sort_keys}
use provable_agent_reference.Json.Print.{print}
use provable_agent_reference.Canonical.{
  sha256_uri, canonical_json, require_string_keys, serializable,
}
use provable_agent_reference.Canonical.Utf8.{encode, encode_char}
use provable_agent_reference.Contracts.Validation.{
  classification_order, identifier, bounded, hash_uri,
}
use provable_agent_reference.Contracts.TrustedRunContext
use provable_agent_reference.Compiler.Acceptance.{IsCompilable}
use provable_agent_reference.Contracts.TrustedRunContext.{TrustedRunContext}
use provable_agent_reference.Contracts.SemanticDraft.{SemanticDraft}
use provable_agent_reference.Contracts.EvidenceRecord.{EvidenceRecord}
use provable_agent_reference.Contracts.EvidenceBundle
use provable_agent_reference.Contracts.EvidenceBundle.{EvidenceBundle}
use provable_agent_reference.Pipeline.{PipelineResult}
use provable_agent_reference.Pipeline.Returned.{result}

abbrev pub parity : List ℕ → ℕ
parity [] = 0
parity (b ∷ bs) = (b + parity bs) % 2

abbrev pub toy_digest : List ℕ → String
toy_digest bs =
    if nat_eq (parity bs) 0
    then "0123456789abcdef0123456789abcdef0123456789abcdef0123456789abcdef"
    else "fedcba9876543210fedcba9876543210fedcba9876543210fedcba9876543210"

pub toy_digest-hex : (bs : List ℕ) → is_hex64 (toy_digest bs) ≡ true
toy_digest-hex bs = elim (Bool-cases (nat_eq (parity bs) 0)) [
  | inl even ↦ rw even
  | inr odd ↦ rw odd
]

instance abbrev pub toy : Sha256
toy = record { hexdigest = toy_digest; hex = toy_digest-hex }

abbrev pub context : TrustedRunContext
context = record {
  tenant_id = "tenant_demo";
  case_id = "case_demo";
  run_id = "run_demo";
  agent_id = "agent_demo";
  purpose = "Prepare a statement.";
  audience = "reviewer";
  classification = "internal";
  created_at = "2026-01-01T00:00:00Z";
}

abbrev pub draft : SemanticDraft
draft = record {
  claim_text = "The control was tested.";
  selected_evidence_id = "evidence_001";
  limitations = "Synthetic." ∷ "One \"quoted\" limit." ∷ [];
  assurance_statement = "The control passed.";
  content_categories = "pii" ∷ [];
  redacted = true;
}

abbrev pub evidence : EvidenceRecord
evidence = record {
  evidence_id = "evidence_001";
  tenant_id = "tenant_demo";
  case_id = "case_demo";
  content_hash = "sha256:0123456789abcdef0123456789abcdef0123456789abcdef0123456789abcdef";
  source_uri = "synthetic://control-test/001";
  classification = "public";
  summary = "A control test.";
}

abbrev unhashed_bundle : EvidenceBundle
unhashed_bundle = record {
  bundle_id = "bundle_demo";
  tenant_id = "tenant_demo";
  case_id = "case_demo";
  records = evidence ∷ [];
  bundle_hash = "";
}

abbrev pub bundle : EvidenceBundle
bundle = record unhashed_bundle { bundle_hash = uri (EvidenceBundle.payload unhashed_bundle) }

-- The result of the pipeline on these inputs.
abbrev pub completed : PipelineResult
completed = result context draft bundle evidence "approver_1"

pub context_constructed : TrustedRunContext.post_init context ≡ ok tt
unfolding TrustedRunContext.post_init identifier bounded
context_constructed = refl

pub bundle_constructed : EvidenceBundle.post_init bundle ≡ ok tt
unfolding EvidenceBundle.post_init EvidenceBundle.check_records EvidenceBundle.compute_hash
    sha256_uri canonical_json require_string_keys serializable print sort_keys encode encode_char
    identifier hash_uri
bundle_constructed = refl

pub draft-IsCompilable : IsCompilable context draft bundle evidence
unfolding classification_order EvidenceBundle.find
draft-IsCompilable = record {
  tenant = refl;
  case_scope = refl;
  found = refl;
  evidence_rank = 0;
  ceiling = 1;
  ranked = refl;
  ceiling_ranked = refl;
  within = omega arith;
}
