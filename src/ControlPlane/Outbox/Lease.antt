-- ===== src/ControlPlane/Outbox/Lease.antt =====
-- What a lease on an item of the outbox excludes.
use text.Mathlib.TextEquality.{eq_iff}
use provable_agent_reference.Base.{
  ℕ, ◌+◌, ◌≤◌, ◌≡◌, refl, sym, ap, ◌∙◌, String, Bool, true, false, not, ◌&&◌, ◌||◌, ◌==◌, List, [],
  ◌∷◌, nat_eq, nat_eq_iff, Bool-cases, inl, inr, arith, &&-eq-true, member, leb, ltb, is_empty,
  count, All, Option, some, none,
}
use provable_agent_reference.Errors.{ok}
use provable_agent_reference.ControlPlane.Table.{update, rowcount}
use provable_agent_reference.ControlPlane.Table.Counts.{
  rowcount-update_same, rowcount_disjoint, rowcount_mono,
}
use provable_agent_reference.ControlPlane.Outbox.Published.{
  Call, claims, completes, retries, perform, run,
}
use provable_agent_reference.ControlPlane.Outbox.{
  OutboxItem, claim_outbox, complete_outbox, retry_outbox, leased, is_null, held_by, completed,
  claimed, retried, claimable, candidates, lease, lease_free,
}
use provable_agent_reference.ControlPlane.Outbox.Candidates.{named, &&-false, candidates-claimable}

-- Held by a worker since a time, and not yet published.
abbrev claimed_since : ℕ → Option ℕ → Bool
claimed_since t none = false
claimed_since t (some u) = nat_eq u t

abbrev pub holds : String → String → ℕ → OutboxItem → Bool
holds identity worker_id t r = leased identity worker_id r && claimed_since t r.claimed_at

claimed_since-lease_free :
    (t now : ℕ) (at : Option ℕ)
    → now ≤ t + lease
    → claimed_since t at ≡ true
    → lease_free now at ≡ false
claimed_since-lease_free t now none h k = cc
claimed_since-lease_free t now (some u) h k = ground arith

holds-named :
    (identity worker_id : String) (t : ℕ) (r : OutboxItem)
    → holds identity worker_id t r ≡ true
    → named identity r ≡ true
holds-named identity worker_id t r h = ground arith

-- While a lease runs, the row cannot be claimed.
holds-claimable :
    (identity worker_id : String) (t now : ℕ) (locked : String → Bool) (r : OutboxItem)
    → now ≤ t + lease
    → holds identity worker_id t r ≡ true
    → (named identity r && claimable now locked r) ≡ false
holds-claimable identity worker_id t now locked r h k =
    let (_, since) = &&-eq-true {a = leased identity worker_id r} k in
    let busy = claimed_since-lease_free t now r.claimed_at h since in ground arith

claim-holds :
    (identity worker_id : String) (t now : ℕ) (locked : String → Bool) (other : String) (limit : ℕ)
    (rows : List OutboxItem)
    → now ≤ t + lease
    → rowcount (named identity) rows ≤ 1
    → rowcount (holds identity worker_id t) rows ≡ 1
    → rowcount (holds identity worker_id t) (
        update
          (λ r. member r.outbox_id (candidates now locked limit rows))
          (claimed now other)
          rows)
      ≡ 1
claim-holds identity worker_id t now locked other limit rows soon unique held =
    elim (Bool-cases (member identity (candidates now locked limit rows))) [
      | inl e ↦
          let free = candidates-claimable identity now locked limit rows e in
          let apart =
            rowcount_disjoint (holds identity worker_id t)
              (λ r. named identity r && claimable now locked r) (named identity) rows
              (holds-named identity worker_id t) (λ r k. (&&-eq-true {a = named identity r} k).0)
              (λ r k. holds-claimable identity worker_id t now locked r soon k) in
          absurd (omega arith)
      | inr e ↦
          rowcount-update_same (holds identity worker_id t) _ (claimed now other) rows (λ r k.
            elim (Bool-cases (r.outbox_id == identity)) [
              | inl same ↦
                  let clash =
                    sym k
                    ∙ ap (λ x. member x (candidates now locked limit rows))
                        ((eq_iff r.outbox_id identity).0 same)
                    ∙ e in
                  cc
              | inr apart ↦ rw apart refl
            ])
          ∙ held
    ]

-- A call that another worker makes, or that is about another item, while the lease runs.
abbrev pub IsForeign : String → String → ℕ → ℕ × Call → Type 0
IsForeign identity worker_id t (now, claims locked other limit) = now ≤ t + lease
IsForeign identity worker_id t (now, completes outbox_id other) =
    (other == worker_id && outbox_id == identity) ≡ false
IsForeign identity worker_id t (now, retries outbox_id other error delay_seconds) =
    (other == worker_id && outbox_id == identity) ≡ false

apart_tests : (a b c : Bool) → (a && b) ≡ false → (b && (a && c)) ≡ false
apart_tests a b c h = ground arith

held_by_other :
    (worker_id other : String) (holder : Option String)
    → held_by other holder ≡ true
    → held_by worker_id holder ≡ (other == worker_id)
held_by_other worker_id other none h = cc
held_by_other worker_id other (some w) h = ap (λ x. x == worker_id) ((eq_iff w other).0 h)

-- A row that another worker gives up is not the row that is held.
leased_other :
    (identity outbox_id worker_id other : String) (r : OutboxItem)
    → (other == worker_id && outbox_id == identity) ≡ false
    → leased outbox_id other r ≡ true
    → leased identity worker_id r ≡ false
leased_other identity outbox_id worker_id other r foreign k =
    let (same, rest) = &&-eq-true {a = r.outbox_id == outbox_id} k in
    let (holder, _) = &&-eq-true {a = held_by other r.claimed_by} rest in
    ap (λ x. x == identity && (held_by worker_id r.claimed_by && is_null r.published_at))
      ((eq_iff r.outbox_id outbox_id).0 same)
    ∙ ap (λ b. outbox_id == identity && (b && is_null r.published_at))
        (held_by_other worker_id other r.claimed_by holder)
    ∙ apart_tests (other == worker_id) (outbox_id == identity) (is_null r.published_at) foreign

released :
    (identity outbox_id worker_id other : String) (t : ℕ) (change : OutboxItem → OutboxItem)
    (rows : List OutboxItem)
    → (other == worker_id && outbox_id == identity) ≡ false
    → ((r : OutboxItem) → leased identity worker_id (change r) ≡ false)
    → rowcount (holds identity worker_id t) (update (leased outbox_id other) change rows)
      ≡ rowcount (holds identity worker_id t) rows
released identity outbox_id worker_id other t change rows foreign gone =
    rowcount-update_same (holds identity worker_id t) (leased outbox_id other) change rows (λ r k.
      ap (λ b. b && claimed_since t (change r).claimed_at) (gone r)
      ∙ sym (
          ap (λ b. b && claimed_since t r.claimed_at)
            (leased_other identity outbox_id worker_id other r foreign k)))

perform-named :
    (identity : String) (c : ℕ × Call) (rows : List OutboxItem)
    → rowcount (named identity) (perform c rows) ≡ rowcount (named identity) rows
unfolding claim_outbox complete_outbox retry_outbox
perform-named identity (now, claims locked other limit) rows =
    elim (Bool-cases (is_empty other || not (leb 1 limit && leb limit 500))) [
      | inl e ↦ rw e refl
      | inr e ↦
          rw e (rowcount-update_same (named identity) _ (claimed now other) rows (λ r k. refl))
    ]
perform-named identity (now, completes outbox_id other) rows =
    elim (Bool-cases (nat_eq (rowcount (leased outbox_id other) rows) 1)) [
      | inl e ↦ rw e (rowcount-update_same (named identity) _ (completed now) rows (λ r k. refl))
      | inr e ↦ rw e refl
    ]
perform-named identity (now, retries outbox_id other error delay_seconds) rows =
    elim (Bool-cases (
      is_empty error
      || (ltb 2000 (count error) || not (leb 1 delay_seconds && leb delay_seconds 3600)))) [
        | inl e ↦ rw e refl
        | inr e ↦ rw e (elim (Bool-cases (nat_eq (rowcount (leased outbox_id other) rows) 1)) [
          | inl f ↦ rw f (
              rowcount-update_same (named identity) _ (retried now error delay_seconds) rows
                (λ r k. refl))
          | inr f ↦ rw f refl
        ])
      ]

perform-holds :
    (identity worker_id : String) (t : ℕ) (c : ℕ × Call) (rows : List OutboxItem)
    → IsForeign identity worker_id t c
    → rowcount (named identity) rows ≤ 1
    → rowcount (holds identity worker_id t) rows ≡ 1
    → rowcount (holds identity worker_id t) (perform c rows) ≡ 1
unfolding claim_outbox complete_outbox retry_outbox
perform-holds identity worker_id t (now, claims locked other limit) rows foreign unique held =
    elim (Bool-cases (is_empty other || not (leb 1 limit && leb limit 500))) [
      | inl e ↦ rw e held
      | inr e ↦
          rw e (claim-holds identity worker_id t now locked other limit rows foreign unique held)
    ]
perform-holds identity worker_id t (now, completes outbox_id other) rows foreign unique held =
    elim (Bool-cases (nat_eq (rowcount (leased outbox_id other) rows) 1)) [
      | inl e ↦ rw e (
          released identity outbox_id worker_id other t (completed now) rows foreign
            (λ r. &&-false (r.outbox_id == identity))
          ∙ held)
      | inr e ↦ rw e held
    ]
perform-holds identity worker_id t (now, retries outbox_id other error delay_seconds) rows foreign
      unique held =
    elim (Bool-cases (
      is_empty error
      || (ltb 2000 (count error) || not (leb 1 delay_seconds && leb delay_seconds 3600)))) [
        | inl e ↦ rw e held
        | inr e ↦ rw e (elim (Bool-cases (nat_eq (rowcount (leased outbox_id other) rows) 1)) [
          | inl f ↦ rw f (
              released identity outbox_id worker_id other t (retried now error delay_seconds) rows
                foreign (λ r. &&-false (r.outbox_id == identity))
              ∙ held)
          | inr f ↦ rw f held
        ])
      ]

run-holds :
    (identity worker_id : String) (t : ℕ) (cs : List (ℕ × Call)) (rows : List OutboxItem)
    → All (IsForeign identity worker_id t) cs
    → rowcount (named identity) rows ≤ 1
    → rowcount (holds identity worker_id t) rows ≡ 1
    → (rowcount (holds identity worker_id t) (run cs rows) ≡ 1)
      × (rowcount (named identity) (run cs rows) ≤ 1)
unfolding run
run-holds identity worker_id t [] rows foreign unique held = (held, unique)
run-holds identity worker_id t (c ∷ cs) rows (now, later) unique held =
    let same = perform-named identity c rows in
    run-holds identity worker_id t cs (perform c rows) later (omega arith)
      (perform-holds identity worker_id t c rows now unique held)

-- When an item, whose identifier no other row has, is held by a worker since a time, and then
-- any calls are made that are claims no later than the lease's end, or completions and retries
-- by another worker or of another item, the worker can complete the item: the call returns the
-- updated table.
pub lease-completes :
    (identity worker_id : String) (t now : ℕ) (cs : List (ℕ × Call)) (rows : List OutboxItem)
    → All (IsForeign identity worker_id t) cs
    → rowcount (named identity) rows ≤ 1
    → rowcount (holds identity worker_id t) rows ≡ 1
    → complete_outbox now identity worker_id (run cs rows)
      ≡ ok (update (leased identity worker_id) (completed now) (run cs rows))
unfolding complete_outbox
lease-completes identity worker_id t now cs rows foreign unique held =
    let (still, single) = run-holds identity worker_id t cs rows foreign unique held in
    let above =
      rowcount_mono (holds identity worker_id t) (leased identity worker_id) (run cs rows)
        (λ r k. (&&-eq-true {a = leased identity worker_id r} k).0) in
    let below =
      rowcount_mono (leased identity worker_id) (named identity) (run cs rows)
        (λ r k. (&&-eq-true {a = named identity r} k).0) in
    let one : rowcount (leased identity worker_id) (run cs rows) ≡ 1 = omega arith in
    rw ((nat_eq_iff (rowcount (leased identity worker_id) (run cs rows)) 1).1 one) refl
