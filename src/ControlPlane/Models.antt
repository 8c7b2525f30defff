-- ===== src/ControlPlane/Models.antt =====
-- src/provable_agent_reference/control_plane/models.py: capability grants and run requests.
use provable_agent_reference.Base.{
  ℕ, String, Bool, true, false, not, ◌&&◌, ◌||◌, ◌==◌, List, is_nil, all, any, member, is_empty,
  count, ltb, leb, show, ◌<>◌,
}
use provable_agent_reference.Errors.{Result, value_error, raise_if, require_that, ◌>>◌}
use provable_agent_reference.Json.{ℤ, pos, negsuc, Value, str, int, obj, end, ◌⇒◌⨾◌}

-- `a <= b` on Python's integers
abbrev pub int_leb : ℤ → ℤ → Bool
int_leb (pos a) (pos b) = leb a b
int_leb (pos a) (negsuc b) = false
int_leb (negsuc a) (pos b) = true
int_leb (negsuc a) (negsuc b) = leb b a

-- `a < b`
abbrev pub int_ltb : ℤ → ℤ → Bool
int_ltb a b = not (int_leb b a)

-- A `datetime`: its instant, in microseconds since the first year, and whether it has a zone.
pub record Datetime : Type 0 where
  pub instant : ℕ
  pub aware : Bool

unfoldable pub bounded : String → String → ℕ → Result (Unit {0})
bounded text name maximum =
    raise_if (is_empty text || ltb maximum (count text)) value_error
      (name <> " must contain 1.." <> show maximum <> " characters")

-- The two frozen sets are lists, of which only membership is used.
pub record CapabilityGrant : Type 0 where
  pub capabilities : List String
  pub tenant_id : String
  pub case_id : String
  pub allowed_effects : List String
  pub max_tool_calls : ℤ
  pub max_model_calls : ℤ
  pub valid_until : Datetime
  pub delegation_depth : ℤ

abbrev pub is_negative : ℤ → Bool
is_negative n = int_ltb n (pos 0)

unfoldable pub post_init : CapabilityGrant → Result (Unit {0})
post_init g = do
  bounded g.tenant_id "tenant_id" 200
  bounded g.case_id "case_id" 200
  raise_if (is_nil g.capabilities || any is_empty g.capabilities) value_error
      "capabilities must not be empty"
  raise_if
      (is_negative g.max_tool_calls
        || is_negative g.max_model_calls
        || is_negative g.delegation_depth)
      value_error "budgets and delegation_depth must be non-negative"
  require_that g.valid_until.aware value_error "valid_until must be timezone-aware"

-- `xs <= ys` on sets
abbrev pub is_subset : List String → List String → Bool
is_subset xs ys = all (λ x. member x ys) xs

-- On grants that were constructed, whose times both have a zone.
unfoldable pub permits_child : CapabilityGrant → CapabilityGrant → Bool
permits_child g child =
    is_subset child.capabilities g.capabilities
    && (child.tenant_id == g.tenant_id
        && (child.case_id == g.case_id
            && (is_subset child.allowed_effects g.allowed_effects
                && (int_leb child.max_tool_calls g.max_tool_calls
                    && (int_leb child.max_model_calls g.max_model_calls
                        && (leb child.valid_until.instant g.valid_until.instant
                            && int_ltb child.delegation_depth g.delegation_depth))))))

pub record RunRequest : Type 0 where
  pub tenant_id : String
  pub case_id : String
  pub requester_subject : String
  pub purpose : String
  pub audience : String
  pub risk_tier : ℤ
  pub policy_version : String

unfoldable pub check_request : RunRequest → Result (Unit {0})
check_request r = do
  bounded r.tenant_id "tenant_id" 500
  bounded r.case_id "case_id" 500
  bounded r.requester_subject "requester_subject" 500
  bounded r.policy_version "policy_version" 500
  bounded r.purpose "purpose" 2000
  bounded r.audience "audience" 1000
  require_that (int_leb (pos 0) r.risk_tier && int_ltb r.risk_tier (pos 5)) value_error
      "risk_tier must be between 0 and 4"

abbrev pub journal_body : RunRequest → Value
journal_body r = obj (
    "audience"
    ⇒ str r.audience ⨾ "policy_version"
    ⇒ str r.policy_version ⨾ "purpose"
    ⇒ str r.purpose ⨾ "requester_subject"
    ⇒ str r.requester_subject ⨾ "risk_tier"
    ⇒ int r.risk_tier ⨾ end)
