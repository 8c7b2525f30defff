-- ===== src/ControlPlane/EffectRecords/Known.antt =====
-- Which effect records the store knows by their identifier, type and hash.
use mathlib.Core.Path.{subst}
use text.Mathlib.TextPositions.{eq_refl}
use provable_agent_reference.Base.{
  ◌≡◌, refl, sym, ap, ◌∙◌, true, ◌&&◌, ◌==◌, List, none, some, Option-cases, inl, inr, nat_eq, ◌<>◌,
}
use provable_agent_reference.Errors.{
  ok, require_that, >>=-eq-ok, >>-eq-ok, require_that-ok, ok-injective,
}
use provable_agent_reference.Contracts.Validation.{is_hash_uri}
use provable_agent_reference.ControlPlane.Table.{insert_row, first, rowcount}
use provable_agent_reference.ControlPlane.Table.Found.{first-insert_row, first-insert_row_last}
use provable_agent_reference.ControlPlane.Database.{Database, EffectRow, jsonb, enqueue}
use provable_agent_reference.ControlPlane.EffectRecords.{
  identified, insert_effect, effect_event, record_effect,
}

-- The identifier has a row of the type and hash.
abbrev pub IsKnown : EffectRow → List EffectRow → Type 0
IsKnown row rows =
    (known : EffectRow) × (first (identified row.record_id) rows ≡ some known)
    × ((known.record_type == row.record_type && known.record_hash == row.record_hash) ≡ true)

insert_effect-inv :
    (row : EffectRow) (rows : List EffectRow) {after : List EffectRow}
    → insert_effect row rows ≡ ok after
    → after ≡ insert_row row rows
unfolding insert_effect
insert_effect-inv row rows e =
    let (_, e₁) =
      >>-eq-ok
        (require_that
          (nat_eq
            (rowcount (λ r. r.record_type == row.record_type && r.record_hash == row.record_hash)
              rows)
            0)
          _ _)
        _ e in
    let (_, e₂) = >>-eq-ok (require_that (is_hash_uri row.record_hash) _ _) _ e₁ in
    sym (ok-injective e₂)

-- The effects of a new row, which are all that changes but for the outbox.
pub record_effect-new :
    (row : EffectRow) (db : Database) {after : Database}
    → record_effect none row db ≡ ok after
    → (after.effects ≡ insert_row row db.effects) × (after.runs ≡ db.runs)
unfolding record_effect
record_effect-new row db e =
    let (effects, inserted, e₁) = >>=-eq-ok (insert_effect row db.effects) _ e in
    let (payload, _, e₂) = >>=-eq-ok (jsonb (effect_event row)) _ e₁ in
    let (outbox, _, e₃) =
      >>=-eq-ok
        (enqueue row.created_at ("outbox_" <> row.record_id) row.tenant_id "effect_record"
          row.record_id ("effect." <> (row.record_type <> ".recorded")) payload db.outbox)
        _ e₂ in
    let same = ok-injective e₃ in
    (
      ap (λ d. d.effects) (sym same) ∙ insert_effect-inv row db.effects inserted,
      ap (λ d. d.runs) (sym same),
    )

pub record_effect-old :
    (existing row : EffectRow) (db : Database) {after : Database}
    → record_effect (some existing) row db ≡ ok after
    → ((existing.record_type == row.record_type && existing.record_hash == row.record_hash) ≡ true)
      × (after ≡ db)
unfolding record_effect
record_effect-old existing row db e =
    let (same, e₁) =
      >>-eq-ok
        (require_that
          (existing.record_type == row.record_type && existing.record_hash == row.record_hash) _ _)
        _ e in
    (require_that-ok _ _ _ same, sym (ok-injective e₁))

-- What one round leaves: its record is known, and so is what was known before.
pub record_effect-IsKnown :
    (row : EffectRow) (db : Database) {after : Database}
    → record_effect (first (identified row.record_id) db.effects) row db ≡ ok after
    → IsKnown row after.effects
      × (after.runs ≡ db.runs)
      × ((other : EffectRow) → IsKnown other db.effects → IsKnown other after.effects)
record_effect-IsKnown row db {after} e =
    elim (Option-cases (first (identified row.record_id) db.effects)) [
      | inl absent ↦
          let (effects, runs) =
            record_effect-new row db (sym (ap (λ o. record_effect o row db) absent) ∙ e) in
          (
            (
              row,
              ap (first (identified row.record_id)) effects
                  ∙ first-insert_row_last (identified row.record_id) row db.effects absent
                      (eq_refl row.record_id),
              rw (eq_refl row.record_type, eq_refl row.record_hash) refl,
            ),
            runs,
            λ other (known, found, same). (
              known,
              ap (first (identified other.record_id)) effects
                  ∙ first-insert_row (identified other.record_id) row db.effects found,
              same,
            ),
          )
      | inr (existing, present) ↦
          let (same, unchanged) =
            record_effect-old existing row db
              (sym (ap (λ o. record_effect o row db) present) ∙ e) in
          (
            subst (λ d. IsKnown row d.effects) (sym unchanged) (existing, present, same),
            ap (λ d. d.runs) unchanged,
            λ other known. subst (λ d. IsKnown other d.effects) (sym unchanged) known,
          )
    ]

-- A known record is passed over.
pub record_effect-known :
    (row : EffectRow) (db : Database)
    → IsKnown row db.effects
    → record_effect (first (identified row.record_id) db.effects) row db ≡ ok db
unfolding record_effect
record_effect-known row db (known, found, same) =
    ap (λ o. record_effect o row db) found ∙ rw same refl
