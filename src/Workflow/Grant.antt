-- ===== src/Workflow/Grant.antt =====
-- `_require_grant` of src/provable_agent_reference/synthetic_workflow.py. The time that the clock
-- shows is an argument.
use provable_agent_reference.Base.{ℕ, String, ◌&&◌, ◌==◌, leb, member}
use provable_agent_reference.Errors.{Result, permission_error, raise_if, require_that, ◌>>◌}
use provable_agent_reference.Contracts.TrustedRunContext.{TrustedRunContext}
use provable_agent_reference.ControlPlane.Models.{CapabilityGrant}

unfoldable pub require_grant : ℕ → TrustedRunContext → CapabilityGrant → String → Result (Unit {0})
require_grant now context grant capability = do
  raise_if (leb grant.valid_until.instant now) permission_error "capability grant is expired"
  require_that (grant.tenant_id == context.tenant_id && grant.case_id == context.case_id)
      permission_error "capability grant is outside the trusted run scope"
  require_that (member capability grant.capabilities) permission_error
      "required capability is not granted"
