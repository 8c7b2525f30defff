-- ===== src/ControlPlane/Worker/Untouched.antt =====
-- The rows that a claim of OutboxWorker in src/provable_agent_reference/control_plane/outbox.py does
-- not take.
use mathlib.Core.Path.{subst}
use text.Mathlib.TextEquality.{eq_iff}
use provable_agent_reference.Base.{
  ℕ, ◌≡◌, refl, sym, ap, ◌∙◌, String, Bool, true, ◌&&◌, ◌==◌, List, [], ◌∷◌, map, All, &&-eq-true,
  member, arith, Bool-cases, inl, inr, if◌then◌else◌,
}
use provable_agent_reference.ControlPlane.Table.{select, update, rowcount}
use provable_agent_reference.ControlPlane.Table.Counts.{rowcount-update_same, rowcount_mono}
use provable_agent_reference.ControlPlane.Outbox.{OutboxItem, candidates, claimable, claimed}
use provable_agent_reference.ControlPlane.Outbox.Candidates.{named, candidates-claimable}
use provable_agent_reference.ControlPlane.Worker.Claimed.{IsApart, IsApart-sym}

-- A key among the chosen ones that no claimed item has is that of no row.
chosen_absent :
    (worker_id : String) (now : ℕ) (chosen : String → Bool) (j : OutboxItem)
    (rows : List OutboxItem)
    → All (IsApart j) (map (claimed now worker_id) (select (λ r. chosen r.outbox_id) rows))
    → chosen j.outbox_id ≡ true
    → rowcount (named j.outbox_id) rows ≡ 0
unfolding rowcount select
chosen_absent worker_id now chosen j [] apart taken = refl
chosen_absent worker_id now chosen j (r ∷ rows) apart taken =
    let rest = select (λ s. chosen s.outbox_id) rows in
    let items_of : List OutboxItem → Type 0 =
      λ l. All (IsApart j) (map (claimed now worker_id) l) in
    elim (Bool-cases (chosen r.outbox_id)) [
      | inl e ↦
          let (first, others) = subst (λ b. items_of (if b then r ∷ rest else rest)) e apart in
          let out = IsApart-sym j r first in
          let later = chosen_absent worker_id now chosen j rows others taken in rw out (omega arith)
      | inr e ↦
          let others = subst (λ b. items_of (if b then r ∷ rest else rest)) e apart in
          let later = chosen_absent worker_id now chosen j rows others taken in
          elim (Bool-cases (r.outbox_id == j.outbox_id)) [
            | inl same ↦
                let clash = sym e ∙ ap chosen ((eq_iff r.outbox_id j.outbox_id).0 same) ∙ taken in
                cc
            | inr out ↦ rw out (omega arith)
          ]
    ]

-- A claim changes nothing that is said of an identifier that it does not take.
pub claim-untouched :
    (worker_id : String) (now : ℕ) (locked : String → Bool) (limit : ℕ) (rows : List OutboxItem)
    (j : OutboxItem) (q : OutboxItem → Bool)
    → All (IsApart j) (
        map
          (claimed now worker_id)
          (select (λ r. member r.outbox_id (candidates now locked limit rows)) rows))
    → rowcount
        (λ r. named j.outbox_id r && q r)
        (update
          (λ r. member r.outbox_id (candidates now locked limit rows))
          (claimed now worker_id)
          rows)
      ≡ rowcount (λ r. named j.outbox_id r && q r) rows
claim-untouched worker_id now locked limit rows j q apart =
    let chosen : String → Bool = λ s. member s (candidates now locked limit rows) in
    elim (Bool-cases (chosen j.outbox_id)) [
      | inl taken ↦
          let gone = chosen_absent worker_id now chosen j rows apart taken in
          let found = candidates-claimable j.outbox_id now locked limit rows taken in
          let among =
            rowcount_mono (λ r. named j.outbox_id r && claimable now locked r) (named j.outbox_id)
              rows (λ r k. (&&-eq-true {a = named j.outbox_id r} k).0) in
          absurd (omega arith)
      | inr free ↦
          rowcount-update_same (λ r. named j.outbox_id r && q r) (λ r. chosen r.outbox_id)
            (claimed now worker_id) rows
            (λ r k. elim (Bool-cases (r.outbox_id == j.outbox_id)) [
              | inl same ↦
                  let clash = sym k ∙ ap chosen ((eq_iff r.outbox_id j.outbox_id).0 same) ∙ free in
                  cc
              | inr out ↦
                  ap (λ b. b && q (claimed now worker_id r)) out ∙ sym (ap (λ b. b && q r) out)
            ])
    ]
