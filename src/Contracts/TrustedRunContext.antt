-- ===== src/Contracts/TrustedRunContext.antt =====
-- The class TrustedRunContext of src/provable_agent_reference/contracts.py.
use provable_agent_reference.Base.{String, ◌≡◌, refl, true}
use provable_agent_reference.Errors.{Result, ok, ◌>>◌, >>-eq-ok, require_that-ok}
use provable_agent_reference.Json.{Value, str, obj, end, ◌⇒◌⨾◌, is_json}
use provable_agent_reference.Contracts.Validation.{identifier, bounded, is_bounded}

pub record TrustedRunContext : Type 0 where
  pub tenant_id : String
  pub case_id : String
  pub run_id : String
  pub agent_id : String
  pub purpose : String
  pub audience : String
  pub classification : String
  pub created_at : String

unfoldable pub post_init : TrustedRunContext → Result (Unit {0})
post_init c = do
  identifier c.tenant_id "tenant_id"
  identifier c.case_id "case_id"
  identifier c.run_id "run_id"
  identifier c.agent_id "agent_id"
  bounded c.purpose "purpose" 1000
  bounded c.audience "audience" 500
  bounded c.created_at "created_at" 100

abbrev pub to_dict : TrustedRunContext → Value
to_dict c = obj (
    "tenant_id"
    ⇒ str c.tenant_id ⨾ "case_id"
    ⇒ str c.case_id ⨾ "run_id"
    ⇒ str c.run_id ⨾ "agent_id"
    ⇒ str c.agent_id ⨾ "purpose"
    ⇒ str c.purpose ⨾ "audience"
    ⇒ str c.audience ⨾ "classification"
    ⇒ str c.classification ⨾ "created_at"
    ⇒ str c.created_at ⨾ end)

pub to_dict-json : (c : TrustedRunContext) → is_json (to_dict c) ≡ true
unfolding is_json
to_dict-json c = refl

-- The time of a context that was constructed is bounded.
pub post_init-created_at :
    (c : TrustedRunContext) → post_init c ≡ ok tt → is_bounded c.created_at 100 ≡ true
unfolding post_init bounded
post_init-created_at c h =
    let (_, h₁) = >>-eq-ok (identifier c.tenant_id "tenant_id") _ h in
    let (_, h₂) = >>-eq-ok (identifier c.case_id "case_id") _ h₁ in
    let (_, h₃) = >>-eq-ok (identifier c.run_id "run_id") _ h₂ in
    let (_, h₄) = >>-eq-ok (identifier c.agent_id "agent_id") _ h₃ in
    let (_, h₅) = >>-eq-ok (bounded c.purpose "purpose" 1000) _ h₄ in
    let (_, h₆) = >>-eq-ok (bounded c.audience "audience" 500) _ h₅ in
    require_that-ok (is_bounded c.created_at 100) _ _ h₆
