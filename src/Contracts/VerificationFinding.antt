-- ===== src/Contracts/VerificationFinding.antt =====
-- The class VerificationFinding of src/provable_agent_reference/contracts.py. `passed` has its
-- declared type here, so the test of its type has no failing case.
use provable_agent_reference.Base.{
  String, Bool, ◌≡◌, refl, true, ◌&&◌, List, [], ◌∷◌, member, ◌==◌, Bool-cases, inl, inr,
  if◌then◌else◌,
}
use provable_agent_reference.Errors.{Result, ok, contract_error, require_that, ◌>>◌}
use provable_agent_reference.Json.{
  Value, Items, str, bool, obj, nil, cons, end, ◌⇒◌⨾◌, is_json, all_json,
}
use provable_agent_reference.Contracts.Validation.{bounded}

pub record VerificationFinding : Type 0 where
  pub code : String
  pub severity : String
  pub passed : Bool
  pub message : String

abbrev pub severities : List String
severities = "info" ∷ "warning" ∷ "error" ∷ []

unfoldable pub post_init : VerificationFinding → Result (Unit {0})
post_init f = do
  bounded f.code "code" 128
  require_that (member f.severity severities) contract_error
      "verification finding severity is not supported"
  bounded f.message "message" 2000

abbrev pub make : VerificationFinding → Result VerificationFinding
make f = post_init f >> ok f

abbrev pub to_dict : VerificationFinding → Value
to_dict f = obj (
    "code"
    ⇒ str f.code ⨾ "severity"
    ⇒ str f.severity ⨾ "passed"
    ⇒ bool f.passed ⨾ "message"
    ⇒ str f.message ⨾ end)

-- `[finding.to_dict() for finding in findings]`
abbrev pub finding_dicts : List VerificationFinding → Items
finding_dicts [] = nil
finding_dicts (f ∷ fs) = cons (to_dict f) (finding_dicts fs)

-- `all(f.passed for f in findings if f.severity == "error")`
abbrev pub errors_passed : List VerificationFinding → Bool
errors_passed [] = true
errors_passed (f ∷ fs) = (if f.severity == "error" then f.passed else true) && errors_passed fs

-- The status that the findings call for.
abbrev pub status_of : List VerificationFinding → String
status_of fs = if errors_passed fs then "pass" else "fail"

pub finding_dicts-json : (fs : List VerificationFinding) → all_json (finding_dicts fs) ≡ true
unfolding is_json all_json
finding_dicts-json [] = refl
finding_dicts-json (f ∷ fs) = finding_dicts-json fs

pub status_of-supported :
    (fs : List VerificationFinding) → member (status_of fs) ("pass" ∷ "fail" ∷ []) ≡ true
status_of-supported fs = elim (Bool-cases (errors_passed fs)) [
  | inl passed ↦ rw passed
  | inr failed ↦ rw failed
]
