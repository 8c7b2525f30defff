-- ===== src/ControlPlane/Worker/Outcome.antt =====
-- A settled item in the table, for one pass of the loop of OutboxWorker.run_once in
-- src/provable_agent_reference/control_plane/outbox.py.
use text.Mathlib.TextEquality.{eq_iff}
use text.Mathlib.TextPositions.{eq_refl}
use provable_agent_reference.Base.{
  ℕ, ◌≤◌, ◌*◌, nat_eq, Bool-cases, inl, inr, &&-intro, if◌then◌else◌, suc, ◌+◌, ◌≡◌, refl, sym, ap,
  ◌∙◌, String, Bool, true, false, not, ◌&&◌, ◌==◌, nat_eq_iff, List, [], ◌∷◌, All, Option, none,
  some, &&-eq-true, ltb, is_empty, count, arith, ◌<>◌,
}
use provable_agent_reference.Errors.{ok}
use provable_agent_reference.Json.{Value}
use provable_agent_reference.ControlPlane.Table.{update, rowcount}
use provable_agent_reference.ControlPlane.Table.Counts.{rowcount-update_same, rowcount_mono}
use provable_agent_reference.ControlPlane.Outbox.{
  OutboxItem, complete_outbox, retry_outbox, leased, completed, retried, is_null, held_by, second,
}
use provable_agent_reference.ControlPlane.Outbox.Candidates.{named}
use provable_agent_reference.ControlPlane.Worker.{Tally, delay, settle}
use provable_agent_reference.ControlPlane.Worker.Claimed.{IsApart, Holds, delay_small}

abbrev pub suffix : String
suffix = ": publication failed"

nonempty_suffix : (class : String) → is_empty (class <> suffix) ≡ false
nonempty_suffix String.[] = refl
nonempty_suffix (String.◌∷◌ c s) = refl

-- The exceptions' class names leave the retry's message within its bound.
abbrev pub IsBrief : (String → Value → Option String) → Type 0
IsBrief publish =
    (event_type : String) (payload : Value) (class : String)
    → publish event_type payload ≡ some class
    → ltb 2000 (count (class <> suffix)) ≡ false

abbrev is_at : ℕ → Option ℕ → Bool
is_at time none = false
is_at time (some t) = nat_eq t time

abbrev is_text : String → Option String → Bool
is_text text none = false
is_text text (some s) = s == text

-- The item's row, after a call at a time: published then, or free again with the error and the delay
-- that follow from its failure.
abbrev pub looks_settled : ℕ → OutboxItem → Option String → OutboxItem → Bool
looks_settled time item none r = is_at time r.published_at && is_null r.claimed_by
looks_settled time item (some class) r =
    is_null r.published_at
    && (is_null r.claimed_by
        && (is_text (class <> suffix) r.last_error
            && nat_eq r.available_at (time + delay item.attempts * second)))

nat_eq_refl : (n : ℕ) → nat_eq n n ≡ true
nat_eq_refl n = (nat_eq_iff n n).1 refl

-- At most one row has an identifier.
abbrev pub IsUnique : List OutboxItem → Type 0
IsUnique rows = (identity : String) → rowcount (named identity) rows ≤ 1

rowcount-update_in :
    (p test : OutboxItem → Bool) (change : OutboxItem → OutboxItem) (rows : List OutboxItem)
    → ((r : OutboxItem) → test r ≡ true → p (change r) ≡ true)
    → rowcount test rows ≤ rowcount p (update test change rows)
unfolding rowcount update
rowcount-update_in p test change [] into = omega arith
rowcount-update_in p test change (r ∷ rows) into =
    let rest = rowcount-update_in p test change rows into in
    elim (Bool-cases (test r)) [
      | inl e ↦ rw (e, into r e) (omega arith)
      | inr e ↦ rw e (omega arith)
    ]

module _ (worker_id : String) where
  -- The change of an item's row that keeps its identifier.
  abbrev pub IsKeeping : (OutboxItem → OutboxItem) → Type 0
  IsKeeping change = (r : OutboxItem) → (change r).outbox_id ≡ r.outbox_id

  -- Changing the item's row changes nothing that is said of another identifier.
  pub update-apart :
      (i j : OutboxItem) (q : OutboxItem → Bool) (change : OutboxItem → OutboxItem)
      (rows : List OutboxItem)
      → IsKeeping change
      → IsApart i j
      → rowcount
          (λ r. named j.outbox_id r && q r)
          (update (leased i.outbox_id worker_id) change rows)
        ≡ rowcount (λ r. named j.outbox_id r && q r) rows
  update-apart i j q change rows same apart =
      rowcount-update_same (λ r. named j.outbox_id r && q r) (leased i.outbox_id worker_id) change
        rows
        (λ r k.
          let (mine, _) = &&-eq-true {a = r.outbox_id == i.outbox_id} k in
          let out : (r.outbox_id == j.outbox_id) ≡ false =
            ap (λ x. x == j.outbox_id) ((eq_iff r.outbox_id i.outbox_id).0 mine) ∙ apart in
          let changed : ((change r).outbox_id == j.outbox_id) ≡ false =
            ap (λ x. x == j.outbox_id) (same r) ∙ out in
          ap (λ b. b && q (change r)) changed ∙ sym (ap (λ b. b && q r) out))

  pub update-Holds :
      (i : OutboxItem) (change : OutboxItem → OutboxItem) (rows items : List OutboxItem)
      → IsKeeping change
      → All (IsApart i) items
      → All (Holds worker_id rows) items
      → All (Holds worker_id (update (leased i.outbox_id worker_id) change rows)) items
  update-Holds i change rows [] same a h = tt
  update-Holds i change rows (j ∷ items) same (apart, a) (held, h) = (
    update-apart i j (λ r. held_by worker_id r.claimed_by && is_null r.published_at) change rows
          same apart
        ∙ held,
    update-Holds i change rows items same a h,
  )

  pub update-IsUnique :
      (i : OutboxItem) (change : OutboxItem → OutboxItem) (rows : List OutboxItem)
      → IsKeeping change
      → IsUnique rows
      → IsUnique (update (leased i.outbox_id worker_id) change rows)
  update-IsUnique i change rows same unique identity =
      let kept =
        rowcount-update_same (named identity) (leased i.outbox_id worker_id) change rows
          (λ r k. ap (λ x. x == identity) (same r)) in
      omega (arith, unique identity)

  -- The row of the item that is held becomes the one settled row.
  settled_once :
      (item : OutboxItem) (p : OutboxItem → Bool) (change : OutboxItem → OutboxItem)
      (rows : List OutboxItem)
      → IsKeeping change
      → IsUnique rows
      → Holds worker_id rows item
      → ((r : OutboxItem) → leased item.outbox_id worker_id r ≡ true → p (change r) ≡ true)
      → rowcount
          (λ r. named item.outbox_id r && p r)
          (update (leased item.outbox_id worker_id) change rows)
        ≡ 1
  settled_once item p change rows same unique held looks =
      let after = update (leased item.outbox_id worker_id) change rows in
      let enough =
        rowcount-update_in (λ r. named item.outbox_id r && p r) (leased item.outbox_id worker_id)
          change rows
          (λ r k.
            &&-intro
              (ap (λ x. x == item.outbox_id) (same r)
                ∙ (&&-eq-true {a = r.outbox_id == item.outbox_id} k).0)
              (looks r k)) in
      let few =
        rowcount_mono (λ r. named item.outbox_id r && p r) (named item.outbox_id) after
          (λ r k. (&&-eq-true {a = named item.outbox_id r} k).0) in
      let single = update-IsUnique item change rows same unique item.outbox_id in
      omega (arith, held)

  module _ (clock : ℕ → ℕ) (publish : String → Value → Option String) where
    abbrev pub outcome : OutboxItem → Option String
    outcome item = publish item.event_type item.payload

    abbrev pub succeeds : OutboxItem → Bool
    succeeds item = is_null (outcome item)

    -- An item that is held is settled, and counted by its outcome.
    pub settle-returns :
        (now : ℕ) (item : OutboxItem) (tally : Tally) (answer : Option String)
        (rows : List OutboxItem)
        → ((class : String) → answer ≡ some class → ltb 2000 (count (class <> suffix)) ≡ false)
        → IsUnique rows
        → Holds worker_id rows item
        → (change : OutboxItem → OutboxItem) × (after : Tally) × (settle worker_id clock publish now
              item tally answer rows
            ≡ ok (after, update (leased item.outbox_id worker_id) change rows))
          × IsKeeping change
          × (rowcount
                (λ r. named item.outbox_id r && looks_settled now item answer r)
                (update (leased item.outbox_id worker_id) change rows)
              ≡ 1)
          × (after.completed ≡ (if is_null answer then 1 else 0) + tally.completed)
          × (after.failed ≡ (if not (is_null answer) then 1 else 0) + tally.failed)
    unfolding settle complete_outbox retry_outbox
    settle-returns now item tally none rows brief unique held = (
      completed now,
      record tally { completed = suc tally.completed },
      rw ((nat_eq_iff (rowcount (leased item.outbox_id worker_id) rows) 1).1 held) refl,
      (λ r. refl),
      settled_once item (looks_settled now item none) (completed now) rows (λ r. refl) unique held
          (λ r k. ap (λ b. b && true) (nat_eq_refl now)),
      omega arith,
      omega arith,
    )
    settle-returns now item tally (some class) rows brief unique held = (
      retried now (class <> suffix) (delay item.attempts),
      record tally { failed = suc tally.failed },
      rw
          (
            nonempty_suffix class,
            brief class refl,
            delay_small item.attempts,
            (nat_eq_iff (rowcount (leased item.outbox_id worker_id) rows) 1).1 held,
          )
          refl,
      (λ r. refl),
      settled_once item (looks_settled now item (some class))
          (retried now (class <> suffix) (delay item.attempts)) rows (λ r. refl) unique held
          (λ r k.
            let (_, held_free) = &&-eq-true {a = r.outbox_id == item.outbox_id} k in
            let (_, free) = &&-eq-true {a = held_by worker_id r.claimed_by} held_free in
            &&-intro free (
              &&-intro (eq_refl (class <> suffix))
                (nat_eq_refl (now + delay item.attempts * second)))),
      omega arith,
      omega arith,
    )
