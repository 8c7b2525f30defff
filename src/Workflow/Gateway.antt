-- ===== src/Workflow/Gateway.antt =====
-- PolicyEnforcingToolGateway of src/provable_agent_reference/synthetic_workflow.py. `str_of` is
-- Python's `str` on a value that is not a text, which depends on the Unicode database.
pub mod Budget
use provable_agent_reference.Base.{
  ℕ, suc, String, Bool, ◌&&◌, ◌||◌, ◌==◌, List, [], Option, none, some, get, put, ◌<>◌, ltb,
  is_empty, count,
}
use provable_agent_reference.Errors.{
  Result, ok, err, permission_error, value_error, raise_if, require_that, ◌>>=◌, ◌>>◌,
}
use provable_agent_reference.Json.{Value, Fields, str, obj, end, pos, text_key, ◌⇒◌⨾◌}
use provable_agent_reference.Json.Equality.{lookup}
use provable_agent_reference.Canonical.{Sha256, sha256_uri, value}
use provable_agent_reference.Contracts.TrustedRunContext.{TrustedRunContext}
use provable_agent_reference.ControlPlane.Models.{CapabilityGrant, int_leb}
use provable_agent_reference.Workflow.Grant.{require_grant}

-- `(run_id, agent_id)`
abbrev pub pair_eq : String × String → String × String → Bool
pair_eq (a, b) (c, d) = a == c && b == d

-- `_calls`: the calls that each agent of a run has made.
pub record PolicyEnforcingToolGateway : Type 0 where
  pub calls : List ((String × String) × ℕ)

abbrev pub tool_gateway : PolicyEnforcingToolGateway
tool_gateway = record { calls = [] }

abbrev pub budget_key : TrustedRunContext → String × String
budget_key context = (context.run_id, context.agent_id)

abbrev pub count_of : Option ℕ → ℕ
count_of none = 0
count_of (some n) = n

-- `self._calls.get(key, 0)`
abbrev pub calls_of : PolicyEnforcingToolGateway → String × String → ℕ
calls_of self key = count_of (get pair_eq key self.calls)

-- `str(request.get("control_id", "CTL-SYNTHETIC-UNKNOWN"))`
abbrev pub control_id : (Value → String) → Option Value → String
control_id str_of none = "CTL-SYNTHETIC-UNKNOWN"
control_id str_of (some (str s)) = s
control_id str_of (some v) = str_of v

abbrev pub tool_result : (Value → String) → Fields → Value
tool_result str_of request = obj (
    "control_id"
    ⇒ str (control_id str_of (lookup (text_key "control_id") request)) ⨾ "status"
    ⇒ str "synthetic_pass" ⨾ "source"
    ⇒ str "embedded_synthetic_fixture" ⨾ end)

abbrev pub tool_activity : String → String → String → String → Value
tool_activity tool_id request_hash commitment result_hash = obj (
    "body_type"
    ⇒ str "tool_activity" ⨾ "phase"
    ⇒ str "completed" ⨾ "tool_id"
    ⇒ str "control_lookup" ⨾ "tool_version"
    ⇒ str "0.1.0" ⨾ "capability_id"
    ⇒ str ("tool." <> tool_id) ⨾ "request_hash"
    ⇒ str request_hash ⨾ "idempotency_key_commitment"
    ⇒ str commitment ⨾ "result_hash"
    ⇒ str result_hash ⨾ "result_status"
    ⇒ str "succeeded" ⨾ "completeness"
    ⇒ str "complete" ⨾ end)

-- One call of `invoke`, with the time at which it is made.
pub record Invocation : Type 0 where
  pub now : ℕ
  pub context : TrustedRunContext
  pub grant : CapabilityGrant
  pub tool_id : String
  pub request : Fields
  pub idempotency_key : String

-- The guards of `invoke`, before the budget is charged.
unfoldable pub invoke_allowed : PolicyEnforcingToolGateway → Invocation → Result (Unit {0})
invoke_allowed self i = do
  require_grant i.now i.context i.grant ("tool." <> i.tool_id)
  require_that (i.tool_id == "control_lookup") permission_error
      "tool is not on the synthetic allowlist"
  raise_if (is_empty i.idempotency_key || ltb 500 (count i.idempotency_key)) value_error
      "a bounded idempotency key is required"
  raise_if (int_leb i.grant.max_tool_calls (pos (calls_of self (budget_key i.context))))
      permission_error "tool-call budget exhausted"

abbrev pub charged : PolicyEnforcingToolGateway → Invocation → PolicyEnforcingToolGateway
charged self i =
    let key = budget_key i.context in
    record self { calls = put pair_eq key (suc (calls_of self key)) self.calls }

module _ ⦃H : Sha256⦄ (str_of : Value → String) where
  -- The result and the activity, which may raise after the budget is charged.
  unfoldable pub answer : Invocation → Result (Value × Value)
  answer i = do
    request_hash ← sha256_uri (value (obj i.request))
    commitment ← sha256_uri (value (obj ("key" ⇒ str i.idempotency_key ⨾ end)))
    result_hash ← sha256_uri (value (tool_result str_of i.request))
    ok (tool_result str_of i.request, tool_activity i.tool_id request_hash commitment result_hash)

  abbrev pub invoked :
      PolicyEnforcingToolGateway
      → Invocation
      → Result (Unit {0})
      → PolicyEnforcingToolGateway × Result (Value × Value)
  invoked self i (ok tt) = (charged self i, answer i)
  invoked self i (err e m) = (self, err e m)

  unfoldable pub invoke :
      PolicyEnforcingToolGateway → Invocation → PolicyEnforcingToolGateway × Result (Value × Value)
  invoke self i = invoked self i (invoke_allowed self i)
