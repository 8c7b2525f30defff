-- ===== src/ControlPlane/Runs/Remembered.antt =====
-- What the store remembers of an idempotency key.
use text.Mathlib.TextEquality.{eq_iff}
use text.Mathlib.TextPositions.{eq_refl}
use provable_agent_reference.Base.{
  ℕ, ◌≡◌, refl, sym, ap, ◌∙◌, String, true, false, ◌==◌, List, [], ◌∷◌, none, some, Option-cases,
  Bool-cases, inl, inr, &&-eq-true, if◌then◌else◌,
}
use provable_agent_reference.Errors.{
  ok, err, runtime_error, require_that, >>=-eq-ok, >>-eq-ok, require_that-ok, ok-injective,
}
use provable_agent_reference.ControlPlane.Table.{update, insert_row, first}
use provable_agent_reference.ControlPlane.Database.{
  Database, Run, IdempotencyKey, JournalRecord, jsonb, enqueue,
}
use provable_agent_reference.ControlPlane.Runs.{
  OutboxEntry, same_key, committed_result, claimed_key, bind_result, create_new, replay,
  create_under, create_run, text_of, insert_run, insert_journal, reused,
}

-- A row with one key looks like that key to every test.
same_key-eq : (j k r : IdempotencyKey) → same_key k r ≡ true → same_key j r ≡ same_key j k
same_key-eq j k r h =
    let (a, h₁) = &&-eq-true {a = r.tenant_id == k.tenant_id} h in
    let (b, h₂) = &&-eq-true {a = r.subject == k.subject} h₁ in
    let (c, d) = &&-eq-true {a = r.operation == k.operation} h₂ in
    rw
      (
        (eq_iff r.tenant_id k.tenant_id).0 a,
        (eq_iff r.subject k.subject).0 b,
        (eq_iff r.operation k.operation).0 c,
        (eq_iff r.key_commitment k.key_commitment).0 d,
      )
      refl

same_key-same :
    (k r : IdempotencyKey)
    → same_key k r ≡ true
    → (j : IdempotencyKey) → same_key r j ≡ same_key k j
same_key-same k r h j =
    let (a, h₁) = &&-eq-true {a = r.tenant_id == k.tenant_id} h in
    let (b, h₂) = &&-eq-true {a = r.subject == k.subject} h₁ in
    let (c, d) = &&-eq-true {a = r.operation == k.operation} h₂ in
    rw
      (
        (eq_iff r.tenant_id k.tenant_id).0 a,
        (eq_iff r.subject k.subject).0 b,
        (eq_iff r.operation k.operation).0 c,
        (eq_iff r.key_commitment k.key_commitment).0 d,
      )
      refl

pub same_key_refl : (k : IdempotencyKey) → same_key k k ≡ true
same_key_refl k =
    rw (eq_refl k.tenant_id, eq_refl k.subject, eq_refl k.operation, eq_refl k.key_commitment) refl

first-same :
    (k r : IdempotencyKey) (rows : List IdempotencyKey)
    → same_key k r ≡ true
    → first (same_key k) rows ≡ first (same_key r) rows
unfolding first
first-same k r [] h = refl
first-same k r (s ∷ rows) h = rw (same_key-same k r h s, first-same k r rows h) refl

-- The rows of another key are not touched.
first-bound_apart :
    (j k : IdempotencyKey) (rows : List IdempotencyKey) {row : IdempotencyKey}
    → same_key j k ≡ false
    → first (same_key j) rows ≡ some row
    → first (same_key j) (update (same_key k) (bind_result k) (insert_row (claimed_key k) rows))
      ≡ some row
unfolding first update insert_row
first-bound_apart j k [] apart e = cc
first-bound_apart j k (r ∷ rows) {row} apart e = elim (Bool-cases (same_key k r)) [
  | inl mine ↦
      let other : same_key j r ≡ false = same_key-eq j k r mine ∙ apart in
      let skipped : first (same_key j) rows ≡ some row = sym (rw other refl) ∙ e in
      rw (mine, other) (first-bound_apart j k rows apart skipped)
  | inr away ↦ elim (Bool-cases (same_key j r)) [
    | inl found ↦ let here : some r ≡ some row = sym (rw found refl) ∙ e in rw (away, found) here
    | inr out ↦
        let skipped : first (same_key j) rows ≡ some row = sym (rw out refl) ∙ e in
        rw (away, out) (first-bound_apart j k rows apart skipped)
  ]
]

-- The row of a key that was not there before.
first-bound :
    (k : IdempotencyKey) (rows : List IdempotencyKey)
    → first (same_key k) rows ≡ none
    → first (same_key k) (update (same_key k) (bind_result k) (insert_row (claimed_key k) rows))
      ≡ some k
unfolding first update insert_row
first-bound k [] e = rw (same_key_refl k) (ap (λ b. if b then some k else none) (same_key_refl k))
first-bound k (r ∷ rows) e = elim (Bool-cases (same_key k r)) [
  | inl mine ↦ let found : some r ≡ none = sym (rw mine refl) ∙ e in cc
  | inr away ↦
      let skipped : first (same_key k) rows ≡ none = sym (rw away refl) ∙ e in
      rw away (rw away (first-bound k rows skipped))
]

-- The key has a row with its request hash and a result.
abbrev pub Remembers : IdempotencyKey → String → Database → Type 0
Remembers key ref db =
    (row : IdempotencyKey) × (first (same_key key) db.idempotency_keys ≡ some row)
    × (row.request_hash ≡ key.request_hash)
    × (row.result_ref ≡ some ref)

create_new-inv :
    (now : ℕ) (run : Run) (event : JournalRecord) (item : OutboxEntry) (key : IdempotencyKey)
    (db : Database) {ref : String} {after : Database}
    → create_new now run event item key db ≡ ok (ref, after)
    → (ref ≡ text_of key.result_ref)
      × (after.idempotency_keys
          ≡ update
              (same_key key)
              (bind_result key)
              (insert_row (claimed_key key) db.idempotency_keys))
unfolding create_new
create_new-inv now run event item key db e =
    let (runs, _, e₁) = >>=-eq-ok (insert_run run db.runs) _ e in
    let (journal, _, e₂) = >>=-eq-ok (insert_journal event runs db.journal) _ e₁ in
    let (payload, _, e₃) = >>=-eq-ok (jsonb item.payload) _ e₂ in
    let (outbox, _, e₄) =
      >>=-eq-ok
        (enqueue now item.outbox_id item.tenant_id item.aggregate_type item.aggregate_id
          item.event_type payload db.outbox)
        _ e₃ in
    let same = ok-injective e₄ in
    (ap (λ p. p.0) (sym same), ap (λ p. p.1.idempotency_keys) (sym same))

replay-inv :
    (key r : IdempotencyKey) (db : Database) {ref : String} {after : Database}
    → replay key r db ≡ ok (ref, after)
    → (r.request_hash ≡ key.request_hash) × (r.result_ref ≡ some ref) × (after ≡ db)
unfolding replay
replay-inv key r db {ref} {after} e =
    let (hash, e₁) = >>-eq-ok (require_that (r.request_hash == key.request_hash) _ _) _ e in
    let (given, e₂, e₃) = >>=-eq-ok (committed_result r.result_ref) _ e₁ in
    let same = ok-injective e₃ in
    (
      (eq_iff r.request_hash key.request_hash).0 (require_that-ok _ _ _ hash),
      elim (Option-cases r.result_ref) [
        | inl absent ↦
            let no : err runtime_error "idempotency operation has no committed result" ≡ ok given =
              sym (ap committed_result absent) ∙ e₂ in
            cc
        | inr (t, present) ↦
            present
            ∙ ap some (ok-injective (sym (ap committed_result present) ∙ e₂) ∙ ap (λ p. p.0) same)
      ],
      ap (λ p. p.1) (sym same),
    )

module _ (now : ℕ) (run : Run) (event : JournalRecord) (item : OutboxEntry) where
  -- What a call remembers.
  pub create_run-Remembers :
      (key : IdempotencyKey) (db : Database) {result ref : String} {after : Database}
      → key.result_ref ≡ some result
      → create_run now run event item key db ≡ ok (ref, after)
      → Remembers key ref after
  unfolding create_run
  create_run-Remembers key db {result} {ref} {after} bound e =
      elim (Option-cases (first (same_key key) db.idempotency_keys)) [
        | inl absent ↦
            let (answer, keys) =
              create_new-inv now run event item key db
                (sym (ap (λ o. create_under o now run event item key db) absent) ∙ e) in
            (
              key,
              ap (first (same_key key)) keys ∙ first-bound key db.idempotency_keys absent,
              refl,
              bound ∙ ap some (sym (answer ∙ ap text_of bound)),
            )
        | inr (r, present) ↦
            let (hash, given, same) =
              replay-inv key r db
                (sym (ap (λ o. create_under o now run event item key db) present) ∙ e) in
            (r, ap (λ d. first (same_key key) d.idempotency_keys) same ∙ present, hash, given)
      ]

  -- What another call leaves of it.
  pub create_run-keeps :
      (key other : IdempotencyKey) (db : Database) {ref answer : String} {after : Database}
      → Remembers key ref db
      → create_run now run event item other db ≡ ok (answer, after)
      → Remembers key ref after
  unfolding create_run
  create_run-keeps key other db {ref} {answer} {after} (row, found, hash, given) e =
      elim (Option-cases (first (same_key other) db.idempotency_keys)) [
        | inr (r, present) ↦
            let (_, _, same) =
              replay-inv other r db
                (sym (ap (λ o. create_under o now run event item other db) present) ∙ e) in
            (row, ap (λ d. first (same_key key) d.idempotency_keys) same ∙ found, hash, given)
        | inl absent ↦
            let (_, keys) =
              create_new-inv now run event item other db
                (sym (ap (λ o. create_under o now run event item other db) absent) ∙ e) in
            elim (Bool-cases (same_key key other)) [
              | inl same ↦
                  let clash : some row ≡ none =
                    sym found ∙ first-same key other db.idempotency_keys same ∙ absent in
                  cc
              | inr apart ↦ (
                row,
                ap (first (same_key key)) keys
                    ∙ first-bound_apart key other db.idempotency_keys apart found,
                hash,
                given,
              )
            ]
      ]

  -- The answer to a call under a key that is remembered.
  pub Remembers-create_run :
      (key : IdempotencyKey) (db : Database) {ref : String}
      → Remembers key ref db
      → create_run now run event item key db ≡ ok (ref, db)
  unfolding create_run replay
  Remembers-create_run key db {ref} (row, found, hash, given) =
      ap (λ o. create_under o now run event item key db) found
      ∙ rw ((eq_iff row.request_hash key.request_hash).1 hash, given) refl

  -- The refusal of another request under a key that is remembered.
  pub create_run-refused :
      (key other : IdempotencyKey) (db : Database) {ref : String}
      → Remembers key ref db
      → same_key key other ≡ true
      → (key.request_hash == other.request_hash) ≡ false
      → create_run now run event item other db ≡ err runtime_error reused
  unfolding create_run replay
  create_run-refused key other db (row, found, hash, given) same apart =
      ap (λ o. create_under o now run event item other db)
        (sym (first-same key other db.idempotency_keys same) ∙ found)
      ∙ rw (ap (λ t. t == other.request_hash) hash ∙ apart) refl
