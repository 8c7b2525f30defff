-- ===== src/Examples/Chain.antt =====
-- The theorems about the chain at the concrete records.
use provable_agent_reference.Base.{◌≡◌, refl, ◌↔◌, inr}
use provable_agent_reference.Errors.{ok}
use provable_agent_reference.Pipeline.{PipelineResult, provable_agent_pipeline, run}
use provable_agent_reference.Pipeline.Completion.{
  IsRunnable, IsComplete, run-returns_iff, run-IsComplete,
}
use provable_agent_reference.Pipeline.Returned.{run-result}
use provable_agent_reference.Examples.Data.{
  toy, context, draft, bundle, evidence, completed, context_constructed, bundle_constructed,
  draft-IsCompilable,
}

runs : run provable_agent_pipeline context draft bundle "approver_1" ≡ ok completed
runs =
    run-result context draft bundle evidence "approver_1" context_constructed bundle_constructed
      draft-IsCompilable (inr refl) refl

run-returns_iff_example :
    ((r : PipelineResult) × (run provable_agent_pipeline context draft bundle "approver_1" ≡ ok r))
    ↔ IsRunnable context draft bundle "approver_1"
run-returns_iff_example =
    run-returns_iff context draft bundle "approver_1" context_constructed bundle_constructed

run-IsComplete_example : IsComplete context draft completed
run-IsComplete_example =
    run-IsComplete context draft bundle "approver_1" context_constructed bundle_constructed runs
