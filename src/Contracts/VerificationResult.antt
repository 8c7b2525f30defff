-- ===== src/Contracts/VerificationResult.antt =====
-- The class VerificationResult of src/provable_agent_reference/contracts.py.
use provable_agent_reference.Base.{
  String, Bool, ◌≡◌, sym, ap, ◌∙◌, true, false, eq_iff, ◌==◌, List, [], ◌∷◌, is_nil, member,
}
use provable_agent_reference.Errors.{
  Result, ok, contract_error, raise_if, require_that, ◌>>=◌, ◌>>◌, ok-injective, >>-eq-ok,
}
use provable_agent_reference.Json.{Value, Fields, str, arr, obj, end, ◌⇒◌⨾◌, is_json}
use provable_agent_reference.Canonical.{Sha256, sha256_uri, value}
use provable_agent_reference.Canonical.Binding.{uri, sha256_uri-ok}
use provable_agent_reference.Contracts.Validation.{
  identifier, hash_uri, bounded, is_unique, is_identifier, is_hash_uri, is_bounded,
}
use provable_agent_reference.Contracts.VerificationFinding.{
  VerificationFinding, finding_dicts, finding_dicts-json, status_of, status_of-supported,
}

pub record VerificationResult : Type 0 where
  pub result_id : String
  pub candidate_id : String
  pub candidate_hash : String
  pub verifier_id : String
  pub verifier_version : String
  pub status : String
  pub findings : List VerificationFinding
  pub evaluated_at : String
  pub result_hash : String

unfoldable pub status_matches_findings : VerificationResult → Bool
status_matches_findings v = v.status == status_of v.findings

abbrev pub codes_of : List VerificationFinding → List String
codes_of [] = []
codes_of (f ∷ fs) = f.code ∷ codes_of fs

unfoldable pub post_init : VerificationResult → Result (Unit {0})
post_init v = do
  identifier v.result_id "result_id"
  identifier v.candidate_id "candidate_id"
  hash_uri v.candidate_hash "candidate_hash"
  identifier v.verifier_id "verifier_id"
  bounded v.verifier_version "verifier_version" 64
  require_that (member v.status ("pass" ∷ "fail" ∷ [])) contract_error
      "verification status is not supported"
  raise_if (is_nil v.findings) contract_error
      "verification result must contain at least one finding"
  require_that (is_unique (codes_of v.findings)) contract_error
      "verification result contains duplicate finding codes"
  require_that (status_matches_findings v) contract_error
      "verification status does not match error findings"
  bounded v.evaluated_at "evaluated_at" 100
  hash_uri v.result_hash "result_hash"

abbrev pub make : VerificationResult → Result VerificationResult
make v = post_init v >> ok v

abbrev entries : VerificationResult → Fields → Fields
entries v rest =
    "result_id"
    ⇒ str v.result_id ⨾ "candidate_id"
    ⇒ str v.candidate_id ⨾ "candidate_hash"
    ⇒ str v.candidate_hash ⨾ "verifier_id"
    ⇒ str v.verifier_id ⨾ "verifier_version"
    ⇒ str v.verifier_version ⨾ "status"
    ⇒ str v.status ⨾ "findings"
    ⇒ arr (finding_dicts v.findings) ⨾ "evaluated_at"
    ⇒ str v.evaluated_at ⨾ rest

abbrev pub payload : VerificationResult → Value
payload v = obj (entries v end)

abbrev pub to_dict : VerificationResult → Value
to_dict v = obj (entries v ("result_hash" ⇒ str v.result_hash ⨾ end))

unfoldable pub verify_hash : ⦃H : Sha256⦄ → VerificationResult → Result Bool
verify_hash v = do expected ← sha256_uri (value (payload v)); ok (v.result_hash == expected)

pub payload-json : (v : VerificationResult) → is_json (payload v) ≡ true
unfolding is_json
payload-json v = rw (finding_dicts-json v.findings)

pub verify_hash-eq :
    ⦃H : Sha256⦄ (v : VerificationResult) → verify_hash v ≡ ok (v.result_hash == uri (payload v))
unfolding verify_hash
verify_hash-eq v = rw (sha256_uri-ok (payload v) (payload-json v))

-- The constructor accepts a record whose status is that of its findings.
pub post_init-ok :
    (v : VerificationResult)
    → is_identifier v.result_id ≡ true
    → is_identifier v.candidate_id ≡ true
    → is_hash_uri v.candidate_hash ≡ true
    → is_identifier v.verifier_id ≡ true
    → is_bounded v.verifier_version 64 ≡ true
    → v.status ≡ status_of v.findings
    → is_nil v.findings ≡ false
    → is_unique (codes_of v.findings) ≡ true
    → is_bounded v.evaluated_at 100 ≡ true
    → is_hash_uri v.result_hash ≡ true
    → post_init v ≡ ok tt
unfolding post_init identifier hash_uri bounded status_matches_findings
post_init-ok v result candidate hash verifier version status some_finding distinct time own =
    rw result (
      rw candidate (
        rw hash (
          rw verifier (
            rw version (
              rw (ap (λ s. member s ("pass" ∷ "fail" ∷ [])) status ∙ status_of-supported v.findings)
                (rw some_finding (
                  rw distinct (
                    rw ((eq_iff v.status (status_of v.findings)).1 status)
                      (rw time (rw own))))))))))

pub make-inv : (v : VerificationResult) {w : VerificationResult} → make v ≡ ok w → w ≡ v
make-inv v h = sym (ok-injective (>>-eq-ok (post_init v) _ h).1)
