-- ===== src/ControlPlane/Table/Each.antt =====
-- What holds of each row of a table.
use mathlib.Core.Path.{subst}
use provable_agent_reference.Base.{
  ◌≡◌, true, sym, Bool, List, [], ◌∷◌, if◌then◌else◌, All, map, Bool-cases, inl, inr,
}
use provable_agent_reference.ControlPlane.Table.{select, update, place, order_by, insert_row}

module _ {A : Type 0} where
  pub All-insert_row {κ} :
      (P : A → Type κ) (r : A) (rs : List A) → All P rs → P r → All P (insert_row r rs)
  unfolding insert_row
  All-insert_row P r [] h p = (p, tt)
  All-insert_row P r (s ∷ rs) (q, h) p = (q, All-insert_row P r rs h p)

  pub All-select {κ} :
      (P : A → Type κ) (test : A → Bool) (rs : List A) → All P rs → All P (select test rs)
  unfolding select
  All-select P test [] h = tt
  All-select P test (r ∷ rs) (p, h) =
      let rest = All-select P test rs h in
      elim (Bool-cases (test r)) [ inl e ↦ rw e (p, rest) | inr e ↦ rw e rest ]

  All-place {κ} :
      (P : A → Type κ) (le : A → A → Bool) (r : A) (rs : List A)
      → P r
      → All P rs
      → All P (place le r rs)
  unfolding place
  All-place P le r [] p h = (p, tt)
  All-place P le r (s ∷ rs) p (q, h) =
      let rest = All-place P le r rs p h in
      elim (Bool-cases (le r s)) [ inl e ↦ rw e (p, (q, h)) | inr e ↦ rw e (q, rest) ]

  pub All-order_by {κ} :
      (P : A → Type κ) (le : A → A → Bool) (rs : List A) → All P rs → All P (order_by le rs)
  unfolding order_by
  All-order_by P le [] h = tt
  All-order_by P le (r ∷ rs) (p, h) = All-place P le r (order_by le rs) p (All-order_by P le rs h)

  pub All-update {κ} :
      (P : A → Type κ) (test : A → Bool) (change : A → A) (rs : List A)
      → ((r : A) → test r ≡ true → P r → P (change r))
      → All P rs
      → All P (update test change rs)
  unfolding update
  All-update P test change [] keep h = tt
  All-update P test change (r ∷ rs) keep (p, h) = (
    elim (Bool-cases (test r)) [
      | inl e ↦ subst (λ b. P (if b then change r else r)) (sym e) (keep r e p)
      | inr e ↦ subst (λ b. P (if b then change r else r)) (sym e) p
    ],
    All-update P test change rs keep h,
  )

  pub All-map {κ} :
      {B : Type 0} (P : A → Type κ) (Q : B → Type κ) (change : A → B) (rs : List A)
      → ((r : A) → P r → Q (change r))
      → All P rs
      → All Q (map change rs)
  All-map P Q change [] keep h = tt
  All-map P Q change (r ∷ rs) keep (p, h) = (keep r p, All-map P Q change rs keep h)
