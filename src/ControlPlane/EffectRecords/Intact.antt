-- ===== src/ControlPlane/EffectRecords/Intact.antt =====
-- Loading after persisting, for the store's effect records.
use mathlib.Core.Path.{subst}
use provable_agent_reference.Base.{
  ℕ, ◌≡◌, refl, sym, ap, ◌∙◌, String, ◌&&◌, ◌==◌, List, [], ◌∷◌, Option-cases, inl, inr, All,
}
use provable_agent_reference.Errors.{
  ok, require_that, >>=-eq-ok, >>-eq-ok, >>=-ok, require_that-ok, ◌>>=◌, require_that-returns,
  ok-injective,
}
use provable_agent_reference.Json.{Value, str}
use provable_agent_reference.Json.Entries.{item, payload_of}
use provable_agent_reference.Json.Equality.{py_eq}
use provable_agent_reference.Canonical.{Sha256, sha256_uri, canonical_json, value}
use provable_agent_reference.ControlPlane.Table.{first, select}
use provable_agent_reference.ControlPlane.Table.Each.{All-insert_row, All-select, All-order_by}
use provable_agent_reference.ControlPlane.Database.{Database, Run, EffectRow, text_column, jsonb}
use provable_agent_reference.ControlPlane.Activities.{run_of}
use provable_agent_reference.ControlPlane.EffectRecords.{
  identified, record_effect, effect_run, effect_row, check_hash, check_document, check_hashes,
  persist_record, check_pair, persist_effect_records, load_effect_records, load_message,
  scope_message, order, effects_of, effect_documents,
}
use provable_agent_reference.ControlPlane.EffectRecords.Known.{record_effect-new, record_effect-old}

module _ ⦃H : Sha256⦄ where
  -- The document of a row has the hash that it names.
  abbrev pub IsHashed : EffectRow → Type 0
  IsHashed r = check_hash load_message r.document ≡ ok tt

  check_hash-same : (m₁ m₂ : String) (d : Value) → check_hash m₁ d ≡ ok tt → check_hash m₂ d ≡ ok tt
  unfolding check_hash
  check_hash-same m₁ m₂ d e =
      let (given, e₁, r₁) = >>=-eq-ok (item "record_hash" d) _ e in
      let (expected, e₂, r₂) = >>=-eq-ok (sha256_uri (value (payload_of d))) _ r₁ in
      >>=-ok _ e₁ ∙ (>>=-ok _ e₂ ∙ require_that-returns _ _ (require_that-ok _ _ _ r₂))

  check_document-hash :
      (run : Run) (d : Value) → check_document run d ≡ ok tt → check_hash scope_message d ≡ ok tt
  unfolding check_document
  check_document-hash run d e =
      let (i, _, r₁) = >>=-eq-ok (item "run_id" d) _ e in
      let (_, r₂) = >>-eq-ok (require_that (py_eq i (str run.run_id)) _ _) _ r₁ in
      let (t, _, r₃) = >>=-eq-ok (item "tenant_id" d) _ r₂ in
      let (c, _, r₄) = >>=-eq-ok (item "case_id" d) _ r₃ in
      (>>-eq-ok (require_that (py_eq t (str run.tenant_id) && py_eq c (str run.case_id)) _ _) _
        r₄).1

  effect_row-document :
      (now : ℕ) (run : Run) (record_type identity_field : String) (d : Value) {row : EffectRow}
      → effect_row now run record_type identity_field d ≡ ok row
      → row.document ≡ d
  unfolding effect_row
  effect_row-document now run record_type identity_field d e =
      let (identity, _, r₁) = >>=-eq-ok (item identity_field d) _ e in
      let (document, e₂, r₂) = >>=-eq-ok (jsonb d) _ r₁ in
      let (_, _, given) = >>=-eq-ok (canonical_json d) _ e₂ in
      let (record_id, _, r₃) = >>=-eq-ok (text_column identity) _ r₂ in
      let (record_hash, _, r₄) = >>=-eq-ok (item "record_hash" d >>= text_column) _ r₃ in
      ap (λ r. r.document) (sym (ok-injective r₄)) ∙ sym (ok-injective given)

  persist_record-IsHashed :
      (now : ℕ) (run : Run) (record_type identity_field : String) (d : Value) (db : Database)
      {after : Database}
      → All IsHashed db.effects
      → persist_record now run record_type identity_field d db ≡ ok after
      → All IsHashed after.effects
  unfolding persist_record
  persist_record-IsHashed now run record_type identity_field d db stored e =
      let (checked, e₁) = >>-eq-ok (check_document run d) _ e in
      let (row, made, e₂) = >>=-eq-ok (effect_row now run record_type identity_field d) _ e₁ in
      let hashed : IsHashed row =
        subst (λ v. check_hash load_message v ≡ ok tt)
          (sym (effect_row-document now run record_type identity_field d made))
          (check_hash-same scope_message load_message d (check_document-hash run d checked)) in
      elim (Option-cases (first (identified row.record_id) db.effects)) [
        | inl absent ↦
            let (effects, _) =
              record_effect-new row db (sym (ap (λ o. record_effect o row db) absent) ∙ e₂) in
            subst (All IsHashed) (sym effects)
              (All-insert_row IsHashed row db.effects stored hashed)
        | inr (existing, present) ↦
            let (_, unchanged) =
              record_effect-old existing row db
                (sym (ap (λ o. record_effect o row db) present) ∙ e₂) in
            subst (λ d. All IsHashed d.effects) (sym unchanged) stored
      ]

  check_hashes-IsHashed :
      (rows : List EffectRow) → All IsHashed rows → check_hashes (effect_documents rows) ≡ ok tt
  unfolding check_hashes
  check_hashes-IsHashed [] h = refl
  check_hashes-IsHashed (r ∷ rows) (p, h) = >>=-ok _ p ∙ check_hashes-IsHashed rows h

  -- In a database where every effect record's document has the hash that it names, when
  -- persist_effect_records returns, this still holds, and load_effect_records of any run
  -- returns the documents of its rows in order.
  pub persist_effect_records-loads :
      (now later : ℕ) (receipt reconciliation : Value) (db after : Database) (run_id : String)
      → All IsHashed db.effects
      → persist_effect_records now later receipt reconciliation db ≡ ok after
      → All IsHashed after.effects
        × (load_effect_records run_id after ≡ ok (effect_documents (effects_of run_id after)))
  unfolding persist_effect_records load_effect_records
  persist_effect_records-loads now later receipt reconciliation db after run_id stored e =
      let (i, _, r₁) = >>=-eq-ok (item "run_id" receipt >>= text_column) _ e in
      let (run, _, r₂) = >>=-eq-ok (effect_run (run_of i db)) _ r₁ in
      let (_, r₃) = >>-eq-ok (check_pair receipt reconciliation) _ r₂ in
      let (middle, e₄, r₄) =
        >>=-eq-ok (persist_record now run "execution_receipt" "receipt_id" receipt db) _ r₃ in
      let kept =
        persist_record-IsHashed later run "reconciliation" "reconciliation_id" reconciliation middle
          (persist_record-IsHashed now run "execution_receipt" "receipt_id" receipt db stored e₄)
          r₄ in
      (
        kept,
        >>=-ok _ (
            check_hashes-IsHashed (effects_of run_id after) (
              All-order_by IsHashed order (select (λ r. r.run_id == run_id) after.effects)
                (All-select IsHashed (λ r. r.run_id == run_id) after.effects kept))),
      )
