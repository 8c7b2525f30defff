-- ===== src/Examples/Authority.antt =====
-- The theorems about delegated grants and simulated effects at concrete values.
use provable_agent_reference.Base.{
  All, length, ◌≡◌, refl, ◌↔◌, ◌≤◌, ◌+◌, String, List, [], ◌∷◌, none, true, arith, ℕ, codes,
}
use provable_agent_reference.Errors.{Result, ok, err}
use provable_agent_reference.Json.{Value, str, obj, end, pos, ◌⇒◌⨾◌, is_json}
use provable_agent_reference.Authorization.{expected_output}
use provable_agent_reference.ControlPlane.Models.{
  CapabilityGrant, post_init, permits_child, bounded, int_leb,
}
use provable_agent_reference.ControlPlane.Attenuation.{
  Descends, itself, delegated, IsWithin, Descends-attenuates,
}
use provable_agent_reference.Effects.Lifecycle.{authorization_lifecycle}
use provable_agent_reference.Effects.Consumption.{Request, consumptions, consumptions-bound}
use provable_agent_reference.Effects.Execution.{
  synthetic_effect_executor, synthetic_target, execute,
}
use provable_agent_reference.Effects.Execution.Acceptance.{IsExecutable, execute-returns_iff}
use provable_agent_reference.Contracts.EvidenceRecord
use provable_agent_reference.Contracts.EvidenceRecord.{EvidenceRecord}
use provable_agent_reference.Contracts.Validation.{identifier, bounded as bounded_text, hash_uri}
use provable_agent_reference.Canonical.{
  sha256_uri, canonical_json, require_string_keys, serializable,
}
use provable_agent_reference.Json.Order.{sort_keys}
use provable_agent_reference.Json.Print.{print}
use provable_agent_reference.Workflow.Grant.{require_grant}
use provable_agent_reference.Workflow.Memory.{SyntheticMemoryRecord, scoped, evidence_of, query}
use provable_agent_reference.Workflow.Memory.Scoped.{IsReleased, query-IsReleased}
use provable_agent_reference.Workflow.Gateway.{Invocation, tool_gateway, calls_of}
use provable_agent_reference.Workflow.Gateway.Budget.{returned, returned-bound}
use provable_agent_reference.Workflow.Activity.{Activity, activity_record_builder, append_all}
use provable_agent_reference.Workflow.Activity.Linked.{IsLinked, append_all-IsLinked}
use provable_agent_reference.Canonical.Utf8.{encode, encode_char}
use provable_agent_reference.Dsse.{pae, pae_bytes, pae-injective}
use provable_agent_reference.Examples.Data.{toy, context, completed}

abbrev orchestrator : CapabilityGrant
orchestrator = record {
  capabilities = "memory.read" ∷ "tool.control_lookup" ∷ [];
  tenant_id = "tenant_demo";
  case_id = "case_demo";
  allowed_effects = [];
  max_tool_calls = pos 3;
  max_model_calls = pos 2;
  valid_until = record { instant = 2000; aware = true };
  delegation_depth = pos 1;
}

abbrev specialist : CapabilityGrant
specialist = record orchestrator {
  capabilities = "memory.read" ∷ [];
  max_tool_calls = pos 1;
  delegation_depth = pos 0;
}

specialist-Descends : Descends orchestrator 1 specialist
unfolding post_init permits_child bounded
specialist-Descends = delegated (itself refl) refl refl

Descends-attenuates_example : IsWithin specialist orchestrator × int_leb (pos 1) (pos 1) ≡ true
Descends-attenuates_example = Descends-attenuates specialist-Descends

abbrev consume : Request
consume = record {
  authorization = completed.authorization;
  status = "consumed";
  effective_at = "2026-01-01T00:00:00Z";
  successor_ref = none;
}

consumptions-bound_example :
    consumptions completed.authorization.authorization_id authorization_lifecycle
      (consume ∷ consume ∷ [])
    ≤ 1
consumptions-bound_example =
    consumptions-bound completed.authorization.authorization_id authorization_lifecycle
      (consume ∷ consume ∷ [])

execute-returns_iff_example :
    ((r : Value) × (execute synthetic_effect_executor context completed.authorization
          (expected_output completed.candidate)
          synthetic_target
          "observed"
        ≡ ok r))
    ↔ IsExecutable completed.authorization
        (expected_output completed.candidate)
        synthetic_target
        "observed"
execute-returns_iff_example =
    execute-returns_iff synthetic_effect_executor context completed.authorization
      (expected_output completed.candidate) synthetic_target "observed"

abbrev lookups : Invocation
lookups = record {
  now = 1000;
  context = context;
  grant = orchestrator;
  tool_id = "control_lookup";
  request = "control_id" ⇒ str "CTL-1" ⨾ end;
  idempotency_key = "run_demo:control-lookup";
}

abbrev blank : Value → String
blank v = ""

returned-bound_example :
    calls_of tool_gateway ("run_demo", "agent_demo")
      + returned blank ("run_demo", "agent_demo") tool_gateway (lookups ∷ lookups ∷ [])
    ≤ 3
returned-bound_example =
    returned-bound blank ("run_demo", "agent_demo") 3 tool_gateway (lookups ∷ lookups ∷ [])
      (refl, (refl, tt)) (omega arith)

abbrev delegation : Activity
delegation = record {
  event_type = "delegation.granted";
  body = obj ("body_type" ⇒ str "delegation" ⨾ end);
  actor_subject = "agent:synthetic-orchestrator";
  actor_type = "agent";
}

append_all-IsLinked_example :
    (rs : List Value) × (append_all (activity_record_builder context) (delegation ∷ delegation ∷ [])
      ≡ ok rs)
    × IsLinked none 0 rs
unfolding is_json
append_all-IsLinked_example =
    append_all-IsLinked (activity_record_builder context) (delegation ∷ delegation ∷ [])
      (refl, (refl, tt))

abbrev plain : String
plain = "text/plain"

abbrev two_bytes : List ℕ
two_bytes = 1 ∷ 2 ∷ []

pae-plain : pae plain two_bytes ≡ ok (pae_bytes (encode (codes plain)) two_bytes)
unfolding pae
pae-plain = refl

pae-injective_example : (plain ≡ plain) × (two_bytes ≡ two_bytes)
pae-injective_example = pae-injective plain plain two_bytes two_bytes pae-plain pae-plain

abbrev memory_record : SyntheticMemoryRecord
memory_record = record {
  evidence_id = "evidence_1";
  tenant_id = "tenant_demo";
  case_id = "case_demo";
  text = "Reviewed.";
  summary = "A review.";
  classification = "internal";
}

abbrev foreign_record : SyntheticMemoryRecord
foreign_record = record memory_record { tenant_id = "tenant_other" }

-- What the query below answers.
answer_of : Result (List EvidenceRecord × Value) → List EvidenceRecord × Value
answer_of (ok a) = a
answer_of (err e m) = ([], obj end)

abbrev answered : Result (List EvidenceRecord × Value)
answered = query (foreign_record ∷ memory_record ∷ []) 1000 context orchestrator "Which control?" 10

returned_evidence : answered ≡ ok ((answer_of answered).0, (answer_of answered).1)
unfolding query require_grant scoped evidence_of EvidenceRecord.from_text EvidenceRecord.post_init
    identifier bounded_text hash_uri sha256_uri canonical_json require_string_keys serializable
    sort_keys print encode encode_char answer_of
returned_evidence = refl

query-IsReleased_example :
    All (IsReleased context) (answer_of answered).0 × length (answer_of answered).0 ≤ 10
query-IsReleased_example =
    query-IsReleased (foreign_record ∷ memory_record ∷ []) 1000 context orchestrator
      "Which control?" 10 returned_evidence
