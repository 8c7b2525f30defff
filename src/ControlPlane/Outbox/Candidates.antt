-- ===== src/ControlPlane/Outbox/Candidates.antt =====
-- The candidates of claim_outbox: which rows their identifiers are of.
use text.Mathlib.TextEquality.{eq_iff}
use provable_agent_reference.Base.{
  ℕ, zero, suc, ◌+◌, ◌≤◌, ◌≡◌, refl, sym, ap, ◌∙◌, String, Bool, true, false, ◌&&◌, ◌||◌, ◌==◌,
  if◌then◌else◌, List, [], ◌∷◌, take, Bool-cases, inl, inr, arith, member,
}
use provable_agent_reference.ControlPlane.Table.{select, rowcount, place, order_by}
use provable_agent_reference.ControlPlane.Outbox.{OutboxItem, claimable, candidates, ids, item_le}

abbrev pub named : String → OutboxItem → Bool
named identity r = r.outbox_id == identity

-- An identifier among those of some rows is that of one of them.
member-ids :
    (identity : String) (rows : List OutboxItem)
    → member identity (ids rows) ≡ true
    → 1 ≤ rowcount (named identity) rows
unfolding rowcount
member-ids identity [] h = cc
member-ids identity (r ∷ rows) h = elim (Bool-cases (r.outbox_id == identity)) [
  | inl e ↦ rw e (omega arith)
  | inr e ↦
      let apart : (identity == r.outbox_id) ≡ false =
        ground (arith, eq_iff r.outbox_id identity, eq_iff identity r.outbox_id) in
      let later =
        member-ids identity rows (sym (ap (λ b. b || member identity (ids rows)) apart) ∙ h) in
      omega arith
]

rowcount-take :
    (p : OutboxItem → Bool) (n : ℕ) (rows : List OutboxItem)
    → rowcount p (take n rows) ≤ rowcount p rows
unfolding rowcount
rowcount-take p zero rows = omega arith
rowcount-take p (suc n) [] = omega arith
rowcount-take p (suc n) (r ∷ rows) = omega (arith, rowcount-take p n rows)

rowcount-place :
    (p : OutboxItem → Bool) (r : OutboxItem) (rows : List OutboxItem)
    → rowcount p (place item_le r rows) ≡ rowcount p (r ∷ rows)
unfolding rowcount place
rowcount-place p r [] = refl
rowcount-place p r (s ∷ rows) = elim (Bool-cases (item_le r s)) [
  | inl e ↦ rw e refl
  | inr e ↦ rw e (omega (arith, rowcount-place p r rows))
]

rowcount-order_by :
    (p : OutboxItem → Bool) (rows : List OutboxItem)
    → rowcount p (order_by item_le rows) ≡ rowcount p rows
unfolding rowcount order_by
rowcount-order_by p [] = refl
rowcount-order_by p (r ∷ rows) =
    rowcount-place p r (order_by item_le rows)
    ∙ ap (λ n. (if p r then 1 else 0) + n) (rowcount-order_by p rows)

&&-true : (b : Bool) → (b && true) ≡ b
&&-true true = refl
&&-true false = refl

pub &&-false : (b : Bool) → (b && false) ≡ false
&&-false true = refl
&&-false false = refl

rowcount-select :
    (p test : OutboxItem → Bool) (rows : List OutboxItem)
    → rowcount p (select test rows) ≡ rowcount (λ r. p r && test r) rows
unfolding rowcount select
rowcount-select p test [] = refl
rowcount-select p test (r ∷ rows) =
    let rest = rowcount-select p test rows in
    elim (Bool-cases (test r)) [
      | inl e ↦ rw (e, rest, &&-true (p r)) refl
      | inr e ↦ rw (e, rest, &&-false (p r)) (omega arith)
    ]

-- A candidate's identifier is that of a row that may be claimed.
pub candidates-claimable :
    (identity : String) (now : ℕ) (locked : String → Bool) (limit : ℕ) (rows : List OutboxItem)
    → member identity (candidates now locked limit rows) ≡ true
    → 1 ≤ rowcount (λ r. named identity r && claimable now locked r) rows
unfolding candidates
candidates-claimable identity now locked limit rows h =
    let fits = select (claimable now locked) rows in
    let found = member-ids identity (take limit (order_by item_le fits)) h in
    let within = rowcount-take (named identity) limit (order_by item_le fits) in
    let ordered = rowcount-order_by (named identity) fits in
    let selected = rowcount-select (named identity) (claimable now locked) rows in omega arith
