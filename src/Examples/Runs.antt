-- ===== src/Examples/Runs.antt =====
-- The theorems about run requests at a concrete database.
use provable_agent_reference.Base.{◌≡◌, refl, String, [], ◌∷◌, ◌⊎◌}
use provable_agent_reference.Errors.{Result, ok, err, runtime_error}
use provable_agent_reference.Json.{pos}
use provable_agent_reference.Canonical.{
  sha256_uri, canonical_json, require_string_keys, serializable, short_id,
}
use provable_agent_reference.Canonical.Binding.{Collision, canonical_bytes}
use provable_agent_reference.Canonical.Utf8.{encode, encode_char}
use provable_agent_reference.Json.Order.{sort_keys}
use provable_agent_reference.Json.Print.{print}
use provable_agent_reference.ControlPlane.Table.{update, rowcount, insert_row, first}
use provable_agent_reference.ControlPlane.Database.{Database, empty_database, enqueue}
use provable_agent_reference.ControlPlane.Models.{RunRequest}
use provable_agent_reference.ControlPlane.Runs as runs
use provable_agent_reference.ControlPlane.Runs.{
  insert_run, insert_journal, create_new, replay, reused,
}
use provable_agent_reference.ControlPlane.Service.{create_run, request_dict}
use provable_agent_reference.ControlPlane.Service.Replay.{
  Submission, submit, submit_all, create_run-replays, create_run-rejects,
}
use provable_agent_reference.Examples.Data.{toy}

abbrev request : RunRequest
request = record {
  tenant_id = "tenant_demo";
  case_id = "case_demo";
  requester_subject = "user:demo";
  purpose = "Prepare a statement.";
  audience = "reviewer";
  risk_tier = pos 1;
  policy_version = "policy-1";
}

abbrev submission : Submission
submission = record {
  now = 20;
  event_random = "0a";
  outbox_random = "0b";
  request = request;
  idempotency_key = "key-1";
}

-- The same key for another purpose.
abbrev other_submission : Submission
other_submission = record submission { request = record request { purpose = "Publish it." } }

abbrev answer_or_empty : Result (String × Database) → String × Database
answer_or_empty (ok answer) = answer
answer_or_empty (err e m) = ("", empty_database)

abbrev answer : String × Database
answer = answer_or_empty (submit submission empty_database)

submitted : submit submission empty_database ≡ ok answer
unfolding create_run runs.create_run create_new insert_run insert_journal enqueue update rowcount
    insert_row first sha256_uri short_id canonical_json serializable require_string_keys sort_keys
    print encode encode_char
submitted = refl

create_run-replays_example :
    submit
      (record submission { now = 30; event_random = "0c"; outbox_random = "0d" })
      (submit_all (other_submission ∷ []) answer.1)
    ≡ ok (answer.0, submit_all (other_submission ∷ []) answer.1)
create_run-replays_example =
    create_run-replays submission 30 "0c" "0d" (other_submission ∷ []) empty_database answer.1
      answer.0 submitted

create_run-rejects_example :
    (submit other_submission (submit_all (submission ∷ []) answer.1) ≡ err runtime_error reused)
    ⊎ ((other_submission.request ≡ submission.request)
        ⊎ Collision toy
            (canonical_bytes (request_dict other_submission.request))
            (canonical_bytes (request_dict submission.request)))
create_run-rejects_example =
    create_run-rejects submission other_submission (submission ∷ []) empty_database answer.1
      answer.0 submitted refl refl refl
