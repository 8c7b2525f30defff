-- ===== src/ControlPlane/Service/Replay.antt =====
-- Replays of create_run under one idempotency key.
use provable_agent_reference.Base.{
  ℕ, ◌≡◌, refl, sym, ap, ◌∙◌, String, Bool, false, ◌||◌, List, [], ◌∷◌, Option, some, ◌⊎◌, inl, inr,
  is_empty, ltb, count, ◌<>◌, prefix_of, Bool-cases, ◌==◌,
}
use provable_agent_reference.Errors.{
  Result, ok, err, runtime_error, raise_if, raise_if-ok, >>-eq-ok, >>=-ok,
}
use provable_agent_reference.Json.{Value, str, int, ℤ, pos, is_json}
use provable_agent_reference.Json.Entries.{entry}
use provable_agent_reference.Json.Equality.{lookup, key_eq}
use provable_agent_reference.Json.Order.{sort_keys}
use text.Mathlib.TextEquality.{eq_iff}
use provable_agent_reference.ControlPlane.Runs.{reused}
use provable_agent_reference.Canonical.{Sha256}
use provable_agent_reference.Canonical.Binding.{
  Collision, canonical_bytes, uri, digest, sha256_uri-ok, short_id-ok, uri-binds,
}
use provable_agent_reference.ControlPlane.Models.{RunRequest, journal_body}
use provable_agent_reference.ControlPlane.Database.{Database, IdempotencyKey}
use provable_agent_reference.ControlPlane.Runs as runs
use provable_agent_reference.ControlPlane.Runs.Remembered.{
  Remembers, create_run-Remembers, create_run-keeps, Remembers-create_run, create_run-refused,
  same_key_refl,
}
use provable_agent_reference.ControlPlane.Service.{
  create_run, run_identity, request_dict, event_without_hash, run_row, event_row, requested,
  key_dict, key_row,
}

-- A call of create_run, with the time and the two random identifiers.
pub record Submission : Type 0 where
  pub now : ℕ
  pub event_random : String
  pub outbox_random : String
  pub request : RunRequest
  pub idempotency_key : String

-- The database after a call; one that raises leaves it as it was.
abbrev pub committed : Database → Result (String × Database) → Database
committed db (ok answer) = answer.1
committed db (err e m) = db

abbrev text_value : Option Value → String
text_value (some (str s)) = s
text_value v = ""

abbrev int_value : Option Value → ℤ
int_value (some (int n)) = n
int_value v = pos 0

-- The entries of a request, read from its sorted dict.
abbrev entry_text : String → Value → String
entry_text name v = text_value (entry name v)

abbrev entry_int : String → Value → ℤ
entry_int name v = int_value (entry name v)

request_dict-injective :
    (r q : RunRequest) → sort_keys (request_dict r) ≡ sort_keys (request_dict q) → r ≡ q
unfolding sort_keys lookup key_eq
request_dict-injective r q h =
    let text : (name : String)
        → entry_text name (sort_keys (request_dict r))
          ≡ entry_text name (sort_keys (request_dict q)) =
      λ name. ap (entry_text name) h in
    let risk = ap (entry_int "risk_tier") h in
    λ i. record {
      tenant_id = text "tenant_id" i;
      case_id = text "case_id" i;
      requester_subject = text "requester_subject" i;
      purpose = text "purpose" i;
      audience = text "audience" i;
      risk_tier = risk i;
      policy_version = text "policy_version" i;
    }

module _ ⦃H : Sha256⦄ where
  abbrev pub submit : Submission → Database → Result (String × Database)
  submit s db = create_run s.now s.event_random s.outbox_random s.request s.idempotency_key db

  unfoldable pub submit_all : List Submission → Database → Database
  submit_all [] db = db
  submit_all (s ∷ ss) db = submit_all ss (committed db (submit s db))

  abbrev run_id_of : RunRequest → String → String
  run_id_of r key = "run_" <> prefix_of 24 (digest (run_identity r key))

  abbrev key_of : RunRequest → String → IdempotencyKey
  key_of r key = key_row r (uri (key_dict key)) (uri (request_dict r)) (run_id_of r key)

  abbrev is_unbounded : String → Bool
  is_unbounded key = is_empty key || ltb 500 (count key)

  abbrev stored_by : Submission → Database → Result (String × Database)
  stored_by s db =
      let r = s.request in
      let run_id = run_id_of r s.idempotency_key in
      let event_id = "evt_" <> s.event_random in
      let body_hash = uri (journal_body r) in
      let record_hash = uri (event_without_hash r event_id run_id body_hash) in
      runs.create_run s.now (run_row r run_id) (event_row r event_id run_id body_hash record_hash)
        (requested r s.outbox_random event_id run_id record_hash) (key_of r s.idempotency_key) db

  -- With a key of a proper length, the call is the store's transaction.
  submit-eq :
      (s : Submission) (db : Database)
      → is_unbounded s.idempotency_key ≡ false
      → submit s db ≡ stored_by s db
  unfolding create_run is_json
  submit-eq s db h =
      let r = s.request in
      let run_id = run_id_of r s.idempotency_key in
      rw h (
        >>=-ok _ (short_id-ok "run_" (run_identity r s.idempotency_key) refl)
        ∙ (>>=-ok _ (sha256_uri-ok (journal_body r) refl)
            ∙ (>>=-ok _ (
                  sha256_uri-ok
                    (event_without_hash r ("evt_" <> s.event_random) run_id (uri (journal_body r)))
                    refl)
                ∙ (>>=-ok _ (sha256_uri-ok (key_dict s.idempotency_key) refl)
                    ∙ >>=-ok _ (sha256_uri-ok (request_dict r) refl)))))

  submit-bounded :
      (s : Submission) (db : Database) {answer : String × Database}
      → submit s db ≡ ok answer
      → is_unbounded s.idempotency_key ≡ false
  unfolding create_run
  submit-bounded s db e =
      raise_if-ok _ _ _ (>>-eq-ok (raise_if (is_unbounded s.idempotency_key) _ _) _ e).0

  committed-Remembers :
      (key : IdempotencyKey) (s : Submission) (db : Database) (answer : Result (String × Database))
      {ref : String}
      → Remembers key ref db
      → submit s db ≡ answer
      → Remembers key ref (committed db answer)
  committed-Remembers key s db (err c m) kept e = kept
  committed-Remembers key s db (ok (answer, after)) kept e =
      create_run-keeps _ _ _ _ key (key_of s.request s.idempotency_key) db kept
        (sym (submit-eq s db (submit-bounded s db e)) ∙ e)

  submit_all-Remembers :
      (key : IdempotencyKey) (ss : List Submission) (db : Database) {ref : String}
      → Remembers key ref db
      → Remembers key ref (submit_all ss db)
  unfolding submit_all
  submit_all-Remembers key [] db kept = kept
  submit_all-Remembers key (s ∷ ss) db kept =
      submit_all-Remembers key ss (committed db (submit s db))
        (committed-Remembers key s db (submit s db) kept refl)

  submit-Remembers :
      (s : Submission) (ss : List Submission) (db : Database) {run_id : String} {after : Database}
      → submit s db ≡ ok (run_id, after)
      → Remembers (key_of s.request s.idempotency_key) run_id (submit_all ss after)
  submit-Remembers s ss db {run_id} {after} e =
      submit_all-Remembers (key_of s.request s.idempotency_key) ss after (
        create_run-Remembers _ _ _ _ (key_of s.request s.idempotency_key) db refl
          (sym (submit-eq s db (submit-bounded s db e)) ∙ e))

  -- When create_run of the service returned a run, then after any sequence of further calls,
  -- refused ones included, the same request under the same key returns the same run, whatever
  -- the time and the random identifiers, and leaves the database as it is.
  pub create_run-replays :
      (s : Submission) (now : ℕ) (event_random outbox_random : String) (ss : List Submission)
      (db after : Database) (run_id : String)
      → submit s db ≡ ok (run_id, after)
      → submit
          (record s { now = now; event_random = event_random; outbox_random = outbox_random })
          (submit_all ss after)
        ≡ ok (run_id, submit_all ss after)
  create_run-replays s now event_random outbox_random ss db after run_id e =
      submit-eq _ (submit_all ss after) (submit-bounded s db e)
      ∙ Remembers-create_run now _ _ _ (key_of s.request s.idempotency_key) (submit_all ss after)
          (submit-Remembers s ss db e)

  -- When create_run of the service returned a run, then after any sequence of further calls a
  -- request of the same tenant and requester under the same key is refused as a reuse of the
  -- key, or it is the same request, or the canonical texts of the two requests differ and
  -- have one digest.
  pub create_run-rejects :
      (s other : Submission) (ss : List Submission) (db after : Database) (run_id : String)
      → submit s db ≡ ok (run_id, after)
      → other.request.tenant_id ≡ s.request.tenant_id
      → other.request.requester_subject ≡ s.request.requester_subject
      → other.idempotency_key ≡ s.idempotency_key
      → (submit other (submit_all ss after) ≡ err runtime_error reused)
        ⊎ ((other.request ≡ s.request)
            ⊎ Collision H
                (canonical_bytes (request_dict other.request))
                (canonical_bytes (request_dict s.request)))
  unfolding is_json
  create_run-rejects s other ss db after run_id e tenant subject key =
      elim (Bool-cases (uri (request_dict s.request) == uri (request_dict other.request))) [
        | inl same ↦
            inr
              (elim (uri-binds (request_dict other.request) (request_dict s.request) refl refl
                (sym ((eq_iff _ _).0 same))) [
                  | inl sorted ↦ inl (request_dict-injective other.request s.request sorted)
                  | inr collision ↦ inr collision
                ])
        | inr apart ↦ inl (
            submit-eq other (submit_all ss after) (ap is_unbounded key ∙ submit-bounded s db e)
            ∙ create_run-refused _ _ _ _ (key_of s.request s.idempotency_key)
                (key_of other.request other.idempotency_key) (submit_all ss after)
                (submit-Remembers s ss db e)
                (rw (tenant, subject, key) (same_key_refl (key_of s.request s.idempotency_key)))
                apart)
      ]
