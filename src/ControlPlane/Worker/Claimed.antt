-- ===== src/ControlPlane/Worker/Claimed.antt =====
-- What the worker holds once it has claimed its items.
use native.Mathlib.Numerals.{unary_clauses}
use text.Mathlib.TextEquality.{eq_iff}
use text.Mathlib.TextPositions.{eq_refl}
use provable_agent_reference.Base.{
  ap, sym, ◌∙◌, ℕ, zero, suc, ◌≤◌, ◌≡◌, refl, String, Bool, true, false, ◌&&◌, ◌==◌, List, [], ◌∷◌,
  map, All, Bool-cases, inl, inr, leb, arith, min, ◌^◌,
}
use provable_agent_reference.ControlPlane.Table.{select, update, rowcount}
use provable_agent_reference.ControlPlane.Outbox.{OutboxItem, leased, is_null, claimed}
use provable_agent_reference.ControlPlane.Outbox.Candidates.{named}
use provable_agent_reference.ControlPlane.Worker.{delay}

abbrev pub IsApart : OutboxItem → OutboxItem → Type 0
IsApart r s = (r.outbox_id == s.outbox_id) ≡ false

-- The primary key of the table.
abbrev pub IsKeyed : List OutboxItem → Type 0
IsKeyed [] = Unit
IsKeyed (r ∷ rows) = All (IsApart r) rows × IsKeyed rows

pub IsApart-sym : (r s : OutboxItem) → IsApart r s → IsApart s r
IsApart-sym r s h = ground (arith, eq_iff r.outbox_id s.outbox_id, eq_iff s.outbox_id r.outbox_id)

-- A key that no row has.
rowcount-apart :
    (r : OutboxItem) (p : OutboxItem → Bool) (rows : List OutboxItem)
    → All (IsApart r) rows
    → rowcount (λ s. named r.outbox_id s && p s) rows ≡ 0
unfolding rowcount
rowcount-apart r p [] h = refl
rowcount-apart r p (s ∷ rows) (a, h) =
    let rest = rowcount-apart r p rows h in rw (IsApart-sym r s a) (omega arith)

rowcount-named :
    (r : OutboxItem) (rows : List OutboxItem)
    → All (IsApart r) rows
    → rowcount (named r.outbox_id) rows ≡ 0
unfolding rowcount
rowcount-named r [] h = refl
rowcount-named r (s ∷ rows) (a, h) =
    let rest = rowcount-named r rows h in rw (IsApart-sym r s a) (omega arith)

-- A key is that of one row at most.
pub IsKeyed-unique :
    (rows : List OutboxItem) (identity : String) → IsKeyed rows → rowcount (named identity) rows ≤ 1
unfolding rowcount
IsKeyed-unique [] identity h = omega arith
IsKeyed-unique (r ∷ rows) identity (apart, h) = elim (Bool-cases (r.outbox_id == identity)) [
  | inl same ↦
      let rest : rowcount (named identity) rows ≡ 0 =
        ap (λ x. rowcount (named x) rows) (sym ((eq_iff r.outbox_id identity).0 same))
        ∙ rowcount-named r rows apart in
      rw same (omega arith)
  | inr out ↦ let rest = IsKeyed-unique rows identity h in rw out (omega arith)
]

-- What a row meets that is found by its key.
abbrev pub Fits : List OutboxItem → OutboxItem → Type 0
Fits rows s =
    (p : OutboxItem → Bool) → 1 ≤ rowcount (λ r. named s.outbox_id r && p r) rows → p s ≡ true

Fits-later :
    (r : OutboxItem) (rows among : List OutboxItem)
    → All (IsApart r) among
    → All (Fits rows) among
    → All (Fits (r ∷ rows)) among
unfolding rowcount
Fits-later r rows [] a h = tt
Fits-later r rows (s ∷ among) (apart, a) (fits, h) = (
  λ p found. fits p (
      let skipped : rowcount (λ q. named s.outbox_id q && p q) (r ∷ rows)
          ≡ rowcount (λ q. named s.outbox_id q && p q) rows =
        rw apart (omega arith) in
      omega arith),
  Fits-later r rows among a h,
)

pub IsKeyed-Fits : (rows : List OutboxItem) → IsKeyed rows → All (Fits rows) rows
unfolding rowcount
IsKeyed-Fits [] h = tt
IsKeyed-Fits (r ∷ rows) (apart, h) = (
  λ p found. elim (Bool-cases (p r)) [
    | inl fits ↦ fits
    | inr out ↦
        let here : rowcount (λ s. named r.outbox_id s && p s) (r ∷ rows)
            ≡ rowcount (λ s. named r.outbox_id s && p s) rows =
          rw (eq_refl r.outbox_id, out) (omega arith) in
        let rest = rowcount-apart r p rows apart in absurd (omega arith)
  ],
  Fits-later r rows rows apart (IsKeyed-Fits rows h),
)

pow_positive : (n : ℕ) → 1 ≤ 2 ^ n
pow_positive zero = omega arith
pow_positive (suc n) = let rest = pow_positive n in simp unary_clauses (omega arith)

pub delay_small : (n : ℕ) → (leb 1 (delay n) && leb (delay n) 3600) ≡ true
delay_small n = let positive = pow_positive (min n 10) in ground arith

module _ (worker_id : String) where
  -- The worker holds exactly one row of the item's key.
  abbrev pub Holds : List OutboxItem → OutboxItem → Type 0
  Holds rows i = rowcount (leased i.outbox_id worker_id) rows ≡ 1

  leased_none :
      (r : OutboxItem) (test : OutboxItem → Bool) (now : ℕ) (rows : List OutboxItem)
      → All (IsApart r) rows
      → rowcount (leased r.outbox_id worker_id) (update test (claimed now worker_id) rows) ≡ 0
  unfolding rowcount update
  leased_none r test now [] h = refl
  leased_none r test now (s ∷ rows) (a, h) =
      let rest = leased_none r test now rows h in
      elim (Bool-cases (test s)) [
        | inl e ↦ rw (e, IsApart-sym r s a) (omega arith)
        | inr e ↦ rw (e, IsApart-sym r s a) (omega arith)
      ]

  -- A row of another key in front does not count.
  Holds-later :
      (r : OutboxItem) (rows items : List OutboxItem)
      → All (IsApart r) items
      → All (Holds rows) items
      → All (Holds (r ∷ rows)) items
  unfolding rowcount
  Holds-later r rows [] a h = tt
  Holds-later r rows (i ∷ items) (apart, a) (one, h) =
      (rw apart (omega arith), Holds-later r rows items a h)

  IsApart-select :
      (r : OutboxItem) (test : OutboxItem → Bool) (now : ℕ) (rows : List OutboxItem)
      → All (IsApart r) rows
      → All (IsApart r) (map (claimed now worker_id) (select test rows))
  unfolding select
  IsApart-select r test now [] h = tt
  IsApart-select r test now (s ∷ rows) (a, h) =
      let rest = IsApart-select r test now rows h in
      elim (Bool-cases (test s)) [ inl e ↦ rw e (a, rest) | inr e ↦ rw e rest ]

  -- After the claim, the worker holds what it claimed, each item once.
  pub claimed-Holds :
      (test : OutboxItem → Bool) (now : ℕ) (rows : List OutboxItem)
      → IsKeyed rows
      → All (λ s. test s ≡ true → is_null s.published_at ≡ true) rows
      → All
          (Holds (update test (claimed now worker_id) rows))
          (map (claimed now worker_id) (select test rows))
        × IsKeyed (map (claimed now worker_id) (select test rows))
  unfolding select update rowcount
  claimed-Holds test now [] keyed free = (tt, tt)
  claimed-Holds test now (r ∷ rows) (apart, keyed) (unpublished, free) =
      let (held, distinct) = claimed-Holds test now rows keyed free in
      let others = IsApart-select r test now rows apart in
      let none_left = leased_none r test now rows apart in
      elim (Bool-cases (test r)) [
        | inl e ↦
            let fresh : leased r.outbox_id worker_id (claimed now worker_id r) ≡ true =
              rw (eq_refl r.outbox_id, eq_refl worker_id, unpublished e) refl in
            rw e (
              (rw fresh (omega arith), Holds-later (claimed now worker_id r) _ _ others held),
              (others, distinct),
            )
        | inr e ↦ rw e (Holds-later r _ _ others held, distinct)
      ]
