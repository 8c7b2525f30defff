-- ===== src/ControlPlane/Table/Found.antt =====
-- The first row that a test finds.
use mathlib.Core.Path.{subst}
use mathlib.Core.Option.{none, some, some-injective}
use provable_agent_reference.Base.{
  ◌≡◌, refl, sym, ◌∙◌, Bool, true, List, [], ◌∷◌, Bool-cases, inl, inr,
}
use provable_agent_reference.ControlPlane.Table.{insert_row, first}

module _ {A : Type 0} where
  pub first-test : (test : A → Bool) (rs : List A) {r : A} → first test rs ≡ some r → test r ≡ true
  unfolding first
  first-test test [] e = cc
  first-test test (s ∷ rs) {r} e = elim (Bool-cases (test s)) [
    | inl fits ↦
        let found : first test (s ∷ rs) ≡ some s = rw fits refl in
        let same : s ≡ r = some-injective s r (sym found ∙ e) in
        subst (λ x. test x ≡ true) same fits
    | inr out ↦
        let passed : first test (s ∷ rs) ≡ first test rs = rw out refl in
        first-test test rs (sym passed ∙ e)
  ]

  pub first-insert_row :
      (test : A → Bool) (s : A) (rs : List A) {r : A}
      → first test rs ≡ some r
      → first test (insert_row s rs) ≡ some r
  unfolding first insert_row
  first-insert_row test s [] e = cc
  first-insert_row test s (q ∷ rs) {r} e = elim (Bool-cases (test q)) [
    | inl fits ↦ let here : some q ≡ some r = sym (rw fits refl) ∙ e in rw fits here
    | inr out ↦
        let passed : first test rs ≡ some r = sym (rw out refl) ∙ e in
        rw out (first-insert_row test s rs passed)
  ]

  pub first-insert_row_last :
      (test : A → Bool) (s : A) (rs : List A)
      → first test rs ≡ none
      → test s ≡ true
      → first test (insert_row s rs) ≡ some s
  unfolding first insert_row
  first-insert_row_last test s [] e fits = rw fits refl
  first-insert_row_last test s (q ∷ rs) e fits = elim (Bool-cases (test q)) [
    | inl found ↦ let no : some q ≡ none = sym (rw found refl) ∙ e in cc
    | inr out ↦
        let passed : first test rs ≡ none = sym (rw out refl) ∙ e in
        rw out (first-insert_row_last test s rs passed fits)
  ]
