-- ===== src/Effects/Reconciliation/Bound.antt =====
-- The store accepts a receipt together with its reconciliation.
use mathlib.Core.Path.{subst}
use text.Mathlib.TextPositions.{eq_refl}
use provable_agent_reference.Base.{◌≡◌, sym, ap, ◌∙◌, String, Bool, true, Option-cases, inl, inr}
use provable_agent_reference.Errors.{
  ok, err, key_error, require_that, >>=-eq-ok, >>-eq-ok, >>=-ok, require_that-ok,
  require_that-returns, ok-injective, ◌>>=◌,
}
use provable_agent_reference.Json.{
  Value, Fields, null, bool, int, str, arr, obj, other, end, text_key,
}
use provable_agent_reference.Json.Entries.{entry, item, payload_of, found}
use provable_agent_reference.Json.Equality.{py_eq, py_eq-str, lookup, key_eq}
use provable_agent_reference.Canonical.{Sha256, sha256_uri, value}
use provable_agent_reference.ControlPlane.EffectRecords.{check_pair, check_hash}
use provable_agent_reference.Effects.Reconciliation.{
  is_hash, text_only, Settled, reconciliation_fields, settled, reconcile,
}

text_only-inv : (v : Value) {s : String} → text_only v ≡ ok s → v ≡ str s
text_only-inv (str s) e = ap str (ok-injective e)
text_only-inv null e = cc
text_only-inv (bool b) e = cc
text_only-inv (int n) e = cc
text_only-inv (arr vs) e = cc
text_only-inv (obj fs) e = cc
text_only-inv (other u) e = cc

py_eq-same : (s : String) → py_eq (str s) (str s) ≡ true
unfolding py_eq
py_eq-same s = eq_refl s

module _ ⦃H : Sha256⦄ (text_of : Value → String) where
  -- The two entries that bind a record to the receipt.
  settled-inv :
      (receipt : Fields) {s : Settled}
      → settled text_of receipt ≡ ok s
      → (item "receipt_id" (obj receipt) ≡ ok (str s.receipt_id))
        × (item "record_hash" (obj receipt) ≡ ok s.receipt_hash)
  unfolding settled
  settled-inv receipt e =
      let (i, e₁, r₁) = >>=-eq-ok (item "receipt_id" (obj receipt) >>= text_only) _ e in
      let (given, e₂, t) = >>=-eq-ok (item "receipt_id" (obj receipt)) _ e₁ in
      let (tenant, _, r₂) = >>=-eq-ok (item "tenant_id" (obj receipt)) _ r₁ in
      let (case_id, _, r₃) = >>=-eq-ok (item "case_id" (obj receipt)) _ r₂ in
      let (run, _, r₄) = >>=-eq-ok (item "run_id" (obj receipt)) _ r₃ in
      let (hash, e₃, r₅) = >>=-eq-ok (item "record_hash" (obj receipt)) _ r₄ in
      let (operation, _, r₆) = >>=-eq-ok (item "operation_id" (obj receipt)) _ r₅ in
      let same = ok-injective r₆ in
      (
        e₂ ∙ ap ok (text_only-inv given t) ∙ ap (λ x. ok (str x.receipt_id)) same,
        e₃ ∙ ap (λ x. ok x.receipt_hash) same,
      )

  hash_of-entry :
      (receipt : Fields) (expected : String) {v : Value}
      → item "record_hash" (obj receipt) ≡ ok v
      → is_hash (entry "record_hash" (obj receipt)) expected ≡ true
      → v ≡ str expected
  hash_of-entry receipt expected {v} e h =
      elim (Option-cases (lookup (text_key "record_hash") receipt)) [
        | inl absent ↦
            let no : err key_error "record_hash" ≡ ok v =
              sym (ap (found "record_hash") absent) ∙ e in
            cc
        | inr (given, present) ↦
            sym (ok-injective (sym (ap (found "record_hash") present) ∙ e))
            ∙ py_eq-str given expected (sym (ap (λ o. is_hash o expected) present) ∙ h)
      ]

  -- When reconcile returns, the tests by which the store binds a reconciliation to a receipt
  -- accept the pair, and the tests of the two record hashes accept both.
  pub reconcile-check_pair :
      (receipt : Fields) (observed_effect : Bool) (reconciled_at message : String)
      (reconciliation : Value)
      → reconcile text_of receipt observed_effect reconciled_at ≡ ok reconciliation
      → (check_pair (obj receipt) reconciliation ≡ ok tt)
        × (check_hash message (obj receipt) ≡ ok tt)
        × (check_hash message reconciliation ≡ ok tt)
  unfolding reconcile check_pair check_hash lookup key_eq
  reconcile-check_pair receipt observed_effect reconciled_at message reconciliation e =
      let (expected, e₁, r₁) = >>=-eq-ok (sha256_uri (value (payload_of (obj receipt)))) _ e in
      let (e₂, r₂) =
        >>-eq-ok (require_that (is_hash (entry "record_hash" (obj receipt)) expected) _ _) _ r₁ in
      let (s, e₃, r₃) = >>=-eq-ok (settled text_of receipt) _ r₂ in
      let fields = reconciliation_fields s observed_effect reconciled_at in
      let (hash, e₄, r₄) = >>=-eq-ok (sha256_uri (value (obj (fields end)))) _ r₃ in
      let same = ok-injective r₄ in
      let (identified, hashed) = settled-inv receipt e₃ in
      let own = hash_of-entry receipt expected hashed (require_that-ok _ _ _ e₂) in
      let hash_same = ap (λ v. py_eq v v) own ∙ py_eq-same expected in
      subst
        (λ r.
          (check_pair (obj receipt) r ≡ ok tt)
          × (check_hash message (obj receipt) ≡ ok tt)
          × (check_hash message r ≡ ok tt))
        same
        (
          >>=-ok _ identified
              ∙ (>>=-ok _ (require_that-returns _ _ (py_eq-same s.receipt_id))
                  ∙ (>>=-ok _ hashed ∙ require_that-returns _ _ hash_same)),
          >>=-ok _ hashed
              ∙ (>>=-ok _ e₁
                  ∙ require_that-returns _ _
                      (ap (λ v. py_eq v (str expected)) own ∙ py_eq-same expected)),
          >>=-ok _ e₄ ∙ require_that-returns _ _ (py_eq-same hash),
        )
