-- ===== src/ControlPlane/Outbox/Published.antt =====
-- How often an item of the outbox is published, over any sequence of calls by any workers.
use text.Mathlib.TextEquality.{eq_iff}
use provable_agent_reference.Base.{
  ℕ, ◌+◌, ◌≡◌, refl, ap, String, Bool, true, false, not, ◌&&◌, ◌||◌, ◌==◌, if◌then◌else◌, List, [],
  ◌∷◌, nat_eq, nat_eq_iff, Bool-cases, inl, inr, arith, is_empty, leb, ltb, count,
}
use provable_agent_reference.Errors.{
  Result, ok, err, require_that, >>-eq-ok, require_that-ok, ok-injective, runtime_error,
}
use provable_agent_reference.ControlPlane.Table.{update, rowcount}
use provable_agent_reference.ControlPlane.Table.Counts.{
  rowcount-update_same, rowcount-update_out, rowcount-eq, rowcount-false,
}
use provable_agent_reference.ControlPlane.Outbox.{
  OutboxItem, claim_outbox, complete_outbox, retry_outbox, leased, is_null, completed, claimed,
  retried,
}

-- What a worker asks of the store.
pub data Call : Type 0 where
  claims : (String → Bool) → String → ℕ → Call
  completes : String → String → Call
  retries : String → String → String → ℕ → Call

-- The table after a call; one that raises leaves it as it was.
abbrev pub committed : List OutboxItem → Result (List OutboxItem) → List OutboxItem
committed rows (ok after) = after
committed rows (err e m) = rows

abbrev claim_committed :
    List OutboxItem → Result (List OutboxItem × List OutboxItem) → List OutboxItem
claim_committed rows (ok answer) = answer.1
claim_committed rows (err e m) = rows

abbrev pub perform : ℕ × Call → List OutboxItem → List OutboxItem
perform (now, claims locked worker_id limit) rows =
    claim_committed rows (claim_outbox now locked worker_id limit rows)
perform (now, completes outbox_id worker_id) rows =
    committed rows (complete_outbox now outbox_id worker_id rows)
perform (now, retries outbox_id worker_id error delay_seconds) rows =
    committed rows (retry_outbox now outbox_id worker_id error delay_seconds rows)

unfoldable pub run : List (ℕ × Call) → List OutboxItem → List OutboxItem
run [] rows = rows
run (c ∷ cs) rows = run cs (perform c rows)

abbrev answered : String → String → Result (List OutboxItem) → ℕ
answered identity outbox_id (ok after) = if outbox_id == identity then 1 else 0
answered identity outbox_id (err e m) = 0

-- 1 if the call marks the item as published.
abbrev pub publishes : String → ℕ × Call → List OutboxItem → ℕ
publishes identity (now, claims locked worker_id limit) rows = 0
publishes identity (now, completes outbox_id worker_id) rows =
    answered identity outbox_id (complete_outbox now outbox_id worker_id rows)
publishes identity (now, retries outbox_id worker_id error delay_seconds) rows = 0

unfoldable pub publications : String → List (ℕ × Call) → List OutboxItem → ℕ
publications identity [] rows = 0
publications identity (c ∷ cs) rows =
    publishes identity c rows + publications identity cs (perform c rows)

abbrev pub waits : String → OutboxItem → Bool
waits identity r = r.outbox_id == identity && is_null r.published_at

-- How many rows of an identifier wait to be published.
abbrev pub pending : String → List OutboxItem → ℕ
pending identity rows = rowcount (waits identity) rows

waits-completed :
    (identity : String) (now : ℕ) (r : OutboxItem) → waits identity (completed now r) ≡ false
waits-completed identity now r = ground arith

leased-waits :
    (identity outbox_id worker_id : String) (r : OutboxItem)
    → (outbox_id == identity) ≡ true
    → (leased outbox_id worker_id r && waits identity r) ≡ leased outbox_id worker_id r
leased-waits identity outbox_id worker_id r h =
    ground
      (arith, eq_iff r.outbox_id outbox_id, eq_iff r.outbox_id identity, eq_iff outbox_id identity)

leased-waits_other :
    (identity outbox_id worker_id : String) (r : OutboxItem)
    → (outbox_id == identity) ≡ false
    → (leased outbox_id worker_id r && waits identity r) ≡ false
leased-waits_other identity outbox_id worker_id r h =
    ground
      (arith, eq_iff r.outbox_id outbox_id, eq_iff r.outbox_id identity, eq_iff outbox_id identity)

complete-pending :
    (identity : String) (now : ℕ) (outbox_id worker_id : String) (rows : List OutboxItem)
    (answer : Result (List OutboxItem))
    → complete_outbox now outbox_id worker_id rows ≡ answer
    → answered identity outbox_id answer + pending identity (committed rows answer)
      ≡ pending identity rows
unfolding complete_outbox
complete-pending identity now outbox_id worker_id rows (err e m) h = omega arith
complete-pending identity now outbox_id worker_id rows (ok after) h =
    let (one, made) = >>-eq-ok (require_that _ runtime_error _) _ h in
    let single : rowcount (leased outbox_id worker_id) rows ≡ 1 =
      (nat_eq_iff _ 1).0 (require_that-ok _ _ _ one) in
    let counted =
      rowcount-update_out (waits identity) (leased outbox_id worker_id) (completed now) rows
        (waits-completed identity now) in
    let same : pending identity (update (leased outbox_id worker_id) (completed now) rows)
        ≡ pending identity (committed rows (ok after)) =
      ap (pending identity) (ok-injective made) in
    elim (Bool-cases (outbox_id == identity)) [
      | inl e ↦
          let all_wait =
            rowcount-eq (λ r. leased outbox_id worker_id r && waits identity r)
              (leased outbox_id worker_id) rows
              (λ r. leased-waits identity outbox_id worker_id r e) in
          let once : answered identity outbox_id (ok after) ≡ 1 = ap (λ b. if b then 1 else 0) e in
          omega arith
      | inr e ↦
          let none_waits =
            rowcount-false (λ r. leased outbox_id worker_id r && waits identity r) rows
              (λ r. leased-waits_other identity outbox_id worker_id r e) in
          let uncounted : answered identity outbox_id (ok after) ≡ 0 =
            ap (λ b. if b then 1 else 0) e in
          omega arith
    ]

claim-pending :
    (identity : String) (now : ℕ) (locked : String → Bool) (worker_id : String) (limit : ℕ)
    (rows : List OutboxItem)
    → pending identity (claim_committed rows (claim_outbox now locked worker_id limit rows))
      ≡ pending identity rows
unfolding claim_outbox
claim-pending identity now locked worker_id limit rows =
    elim (Bool-cases (is_empty worker_id || not (leb 1 limit && leb limit 500))) [
      | inl e ↦ rw e refl
      | inr e ↦
          rw e (rowcount-update_same (waits identity) _ (claimed now worker_id) rows (λ r e. refl))
    ]

retry-pending :
    (identity : String) (now : ℕ) (outbox_id worker_id error : String) (delay_seconds : ℕ)
    (rows : List OutboxItem)
    → pending identity
        (committed rows (retry_outbox now outbox_id worker_id error delay_seconds rows))
      ≡ pending identity rows
unfolding retry_outbox
retry-pending identity now outbox_id worker_id error delay_seconds rows =
    elim (Bool-cases (
      is_empty error
      || (ltb 2000 (count error) || not (leb 1 delay_seconds && leb delay_seconds 3600)))) [
        | inl e ↦ rw e refl
        | inr e ↦ rw e (elim (Bool-cases (nat_eq (rowcount (leased outbox_id worker_id) rows) 1)) [
          | inl f ↦ rw f (
              rowcount-update_same (waits identity) (leased outbox_id worker_id)
                (retried now error delay_seconds) rows (λ r e. refl))
          | inr f ↦ rw f refl
        ])
      ]

perform-pending :
    (identity : String) (c : ℕ × Call) (rows : List OutboxItem)
    → publishes identity c rows + pending identity (perform c rows) ≡ pending identity rows
perform-pending identity (now, claims locked worker_id limit) rows =
    omega (arith, claim-pending identity now locked worker_id limit rows)
perform-pending identity (now, completes outbox_id worker_id) rows =
    complete-pending identity now outbox_id worker_id rows _ refl
perform-pending identity (now, retries outbox_id worker_id error delay_seconds) rows =
    omega (arith, retry-pending identity now outbox_id worker_id error delay_seconds rows)

-- Over any sequence of calls of the outbox by any workers, refused calls included, the
-- publications of an identifier and its rows that then still wait are together the rows of it
-- that waited before.
pub publications-pending :
    (identity : String) (cs : List (ℕ × Call)) (rows : List OutboxItem)
    → publications identity cs rows + pending identity (run cs rows) ≡ pending identity rows
unfolding publications run
publications-pending identity [] rows = omega arith
publications-pending identity (c ∷ cs) rows =
    omega
      (arith, perform-pending identity c rows, publications-pending identity cs (perform c rows))
