-- ===== src/ControlPlane/Table/Counts.antt =====
-- How many rows meet a test.
use provable_agent_reference.Base.{
  ◌+◌, ◌≤◌, ◌≡◌, refl, Bool, true, false, ◌&&◌, List, [], ◌∷◌, Bool-cases, inl, inr, arith,
}
use provable_agent_reference.ControlPlane.Table.{update, rowcount}

module _ {A : Type 0} where
  -- A change that a test does not see.
  pub rowcount-update_same :
      (p test : A → Bool) (change : A → A) (rs : List A)
      → ((r : A) → test r ≡ true → p (change r) ≡ p r)
      → rowcount p (update test change rs) ≡ rowcount p rs
  unfolding update rowcount
  rowcount-update_same p test change [] same = refl
  rowcount-update_same p test change (r ∷ rs) same =
      let rest = rowcount-update_same p test change rs same in
      elim (Bool-cases (test r)) [ inl e ↦ rw (e, same r e, rest) refl | inr e ↦ rw (e, rest) refl ]

  -- A change after which a test fails.
  pub rowcount-update_out :
      (p test : A → Bool) (change : A → A) (rs : List A)
      → ((r : A) → p (change r) ≡ false)
      → rowcount p (update test change rs) + rowcount (λ r. test r && p r) rs ≡ rowcount p rs
  unfolding update rowcount
  rowcount-update_out p test change [] out = refl
  rowcount-update_out p test change (r ∷ rs) out =
      let rest = rowcount-update_out p test change rs out in
      elim (Bool-cases (test r)) [
        | inl e ↦ rw (e, out r) (omega arith)
        | inr e ↦ rw e (omega arith)
      ]

  pub rowcount-eq :
      (p q : A → Bool) (rs : List A) → ((r : A) → p r ≡ q r) → rowcount p rs ≡ rowcount q rs
  unfolding rowcount
  rowcount-eq p q [] same = refl
  rowcount-eq p q (r ∷ rs) same = rw (same r, rowcount-eq p q rs same) refl

  pub rowcount-false : (p : A → Bool) (rs : List A) → ((r : A) → p r ≡ false) → rowcount p rs ≡ 0
  unfolding rowcount
  rowcount-false p [] none_fits = refl
  rowcount-false p (r ∷ rs) none_fits = rw (none_fits r, rowcount-false p rs none_fits) refl

  pub rowcount_mono :
      (p q : A → Bool) (rs : List A)
      → ((r : A) → p r ≡ true → q r ≡ true)
      → rowcount p rs ≤ rowcount q rs
  unfolding rowcount
  rowcount_mono p q [] fits = omega arith
  rowcount_mono p q (r ∷ rs) fits =
      let rest = rowcount_mono p q rs fits in
      elim (Bool-cases (p r)) [
        | inl e ↦ rw (e, fits r e) (omega arith)
        | inr e ↦ rw e (omega arith)
      ]

  -- Two tests that no row meets both, within a third.
  pub rowcount_disjoint :
      (p q n : A → Bool) (rs : List A)
      → ((r : A) → p r ≡ true → n r ≡ true)
      → ((r : A) → q r ≡ true → n r ≡ true)
      → ((r : A) → p r ≡ true → q r ≡ false)
      → rowcount p rs + rowcount q rs ≤ rowcount n rs
  unfolding rowcount
  rowcount_disjoint p q n [] pn qn pq = omega arith
  rowcount_disjoint p q n (r ∷ rs) pn qn pq =
      let rest = rowcount_disjoint p q n rs pn qn pq in
      elim (Bool-cases (p r)) [
        | inl e ↦ rw (e, pn r e, pq r e) (omega arith)
        | inr e ↦ elim (Bool-cases (q r)) [
          | inl f ↦ rw (e, f, qn r f) (omega arith)
          | inr f ↦ rw (e, f) (omega arith)
        ]
      ]
