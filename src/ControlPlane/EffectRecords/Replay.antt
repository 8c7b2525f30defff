-- ===== src/ControlPlane/EffectRecords/Replay.antt =====
-- Replays of persist_effect_records.
use provable_agent_reference.Base.{ℕ, ◌≡◌, refl, ap, ◌∙◌, String, ◌==◌, List, [], ◌∷◌}
use provable_agent_reference.Errors.{
  Result, ok, err, >>=-eq-ok, >>-eq-ok, >>=-ok, ◌>>=◌, ok-injective,
}
use provable_agent_reference.Json.{Value}
use provable_agent_reference.Json.Entries.{item}
use provable_agent_reference.Canonical.{Sha256}
use provable_agent_reference.ControlPlane.Table.{first}
use provable_agent_reference.ControlPlane.Database.{Database, Run, EffectRow, text_column, jsonb}
use provable_agent_reference.ControlPlane.Activities.{run_of}
use provable_agent_reference.ControlPlane.EffectRecords.{
  effect_run, effect_row, check_document, persist_record, check_pair, persist_effect_records,
}
use provable_agent_reference.ControlPlane.EffectRecords.Known.{
  IsKnown, record_effect-IsKnown, record_effect-known,
}

-- A call of persist_effect_records, with the times of its insertions.
pub record Submission : Type 0 where
  pub now : ℕ
  pub later : ℕ
  pub receipt : Value
  pub reconciliation : Value

-- The database after a call; one that raises leaves it as it was.
abbrev pub committed : Database → Result Database → Database
committed db (ok after) = after
committed db (err e m) = db

module _ ⦃H : Sha256⦄ where
  effect_row-later :
      (now later : ℕ) (run : Run) (record_type identity_field : String) (d : Value)
      {row : EffectRow}
      → effect_row now run record_type identity_field d ≡ ok row
      → effect_row later run record_type identity_field d ≡ ok (record row { created_at = later })
  unfolding effect_row
  effect_row-later now later run record_type identity_field d e =
      let (identity, e₁, r₁) = >>=-eq-ok (item identity_field d) _ e in
      let (document, e₂, r₂) = >>=-eq-ok (jsonb d) _ r₁ in
      let (record_id, e₃, r₃) = >>=-eq-ok (text_column identity) _ r₂ in
      let (record_hash, e₄, r₄) = >>=-eq-ok (item "record_hash" d >>= text_column) _ r₃ in
      >>=-ok _ e₁
      ∙ (>>=-ok _ e₂
          ∙ (>>=-ok _ e₃
              ∙ (>>=-ok _ e₄
                  ∙ ap {A = EffectRow} (λ r. ok (record r { created_at = later }))
                      (ok-injective r₄))))

  -- A round that returned has a row, which is known from then on.
  persist_record-inv :
      (now : ℕ) (run : Run) (record_type identity_field : String) (d : Value) (db : Database)
      {after : Database}
      → persist_record now run record_type identity_field d db ≡ ok after
      → (row : EffectRow) × (check_document run d ≡ ok tt)
        × (effect_row now run record_type identity_field d ≡ ok row)
        × IsKnown row after.effects
        × (after.runs ≡ db.runs)
        × ((other : EffectRow) → IsKnown other db.effects → IsKnown other after.effects)
  unfolding persist_record
  persist_record-inv now run record_type identity_field d db e =
      let (checked, e₁) = >>-eq-ok (check_document run d) _ e in
      let (row, made, e₂) = >>=-eq-ok (effect_row now run record_type identity_field d) _ e₁ in
      let (known, runs, kept) = record_effect-IsKnown row db e₂ in
      (row, checked, made, known, runs, kept)

  -- A round for a record that is known.
  persist_record-known :
      (now later : ℕ) (run : Run) (record_type identity_field : String) (d : Value) (db : Database)
      {row : EffectRow}
      → check_document run d ≡ ok tt
      → effect_row now run record_type identity_field d ≡ ok row
      → IsKnown row db.effects
      → persist_record later run record_type identity_field d db ≡ ok db
  unfolding persist_record
  persist_record-known now later run record_type identity_field d db {row} checked made known =
      >>=-ok _ checked
      ∙ (>>=-ok _ (effect_row-later now later run record_type identity_field d made)
          ∙ record_effect-known (record row { created_at = later }) db known)

  abbrev pub submit : Submission → Database → Result Database
  submit s db = persist_effect_records s.now s.later s.receipt s.reconciliation db

  unfoldable pub submit_all : List Submission → Database → Database
  submit_all [] db = db
  submit_all (s ∷ ss) db = submit_all ss (committed db (submit s db))

  -- What a call leaves behind: the run, the tests and the two rows.
  abbrev IsPersisted : Submission → Database → Type 0
  IsPersisted s db =
      (run_id : String) × (run : Run) × (first_row : EffectRow) × (second_row : EffectRow) × ((item
            "run_id" s.receipt
          >>= text_column)
        ≡ ok run_id)
      × (effect_run (run_of run_id db) ≡ ok run)
      × (check_pair s.receipt s.reconciliation ≡ ok tt)
      × (check_document run s.receipt ≡ ok tt)
      × (check_document run s.reconciliation ≡ ok tt)
      × (effect_row s.now run "execution_receipt" "receipt_id" s.receipt ≡ ok first_row)
      × (effect_row s.later run "reconciliation" "reconciliation_id" s.reconciliation
          ≡ ok second_row)
      × IsKnown first_row db.effects
      × IsKnown second_row db.effects

  submit-IsPersisted :
      (s : Submission) (db : Database) {after : Database}
      → submit s db ≡ ok after
      → IsPersisted s after
        × (after.runs ≡ db.runs)
        × ((other : EffectRow) → IsKnown other db.effects → IsKnown other after.effects)
  unfolding persist_effect_records
  submit-IsPersisted s db {after} e =
      let (run_id, e₁, r₁) = >>=-eq-ok (item "run_id" s.receipt >>= text_column) _ e in
      let (run, e₂, r₂) = >>=-eq-ok (effect_run (run_of run_id db)) _ r₁ in
      let (e₃, r₃) = >>-eq-ok (check_pair s.receipt s.reconciliation) _ r₂ in
      let (middle, e₄, r₄) =
        >>=-eq-ok (persist_record s.now run "execution_receipt" "receipt_id" s.receipt db) _ r₃ in
      let (row, checked, made, known, runs, kept) =
        persist_record-inv s.now run "execution_receipt" "receipt_id" s.receipt db e₄ in
      let (row', checked', made', known', runs', kept') =
        persist_record-inv s.later run "reconciliation" "reconciliation_id" s.reconciliation middle
          r₄ in
      (
        (
          run_id,
          run,
          row,
          row',
          e₁,
          ap (λ rs. effect_run (first (λ r. r.run_id == run_id) rs)) (runs' ∙ runs) ∙ e₂,
          e₃,
          checked,
          checked',
          made,
          made',
          kept' row known,
          known',
        ),
        runs' ∙ runs,
        λ other k. kept' other (kept other k),
      )

  kept-IsPersisted :
      (s : Submission) (db after : Database)
      → after.runs ≡ db.runs
      → ((other : EffectRow) → IsKnown other db.effects → IsKnown other after.effects)
      → IsPersisted s db
      → IsPersisted s after
  kept-IsPersisted s db after runs kept
        (run_id, run, row, row', e₁, e₂, e₃, checked, checked', made, made', known, known') =
      (
        run_id,
        run,
        row,
        row',
        e₁,
        ap (λ rs. effect_run (first (λ r. r.run_id == run_id) rs)) runs ∙ e₂,
        e₃,
        checked,
        checked',
        made,
        made',
        kept row known,
        kept row' known',
      )

  committed-IsPersisted :
      (s other : Submission) (db : Database) (answer : Result Database)
      → IsPersisted s db
      → submit other db ≡ answer
      → IsPersisted s (committed db answer)
  committed-IsPersisted s other db (err c m) h e = h
  committed-IsPersisted s other db (ok after) h e =
      let (_, runs, kept) = submit-IsPersisted other db e in kept-IsPersisted s db after runs kept h

  submit_all-IsPersisted :
      (s : Submission) (ss : List Submission) (db : Database)
      → IsPersisted s db
      → IsPersisted s (submit_all ss db)
  unfolding submit_all
  submit_all-IsPersisted s [] db h = h
  submit_all-IsPersisted s (other ∷ ss) db h =
      submit_all-IsPersisted s ss (committed db (submit other db))
        (committed-IsPersisted s other db (submit other db) h refl)

  IsPersisted-replays :
      (s : Submission) (now later : ℕ) (db : Database)
      → IsPersisted s db
      → submit (record s { now = now; later = later }) db ≡ ok db
  unfolding persist_effect_records
  IsPersisted-replays s now later db
        (run_id, run, row, row', e₁, e₂, e₃, checked, checked', made, made', known, known') =
      >>=-ok _ e₁
      ∙ (>>=-ok _ e₂
          ∙ (>>=-ok _ e₃
              ∙ (>>=-ok _ (
                    persist_record-known s.now now run "execution_receipt" "receipt_id" s.receipt db
                      checked made known)
                  ∙ persist_record-known s.later later run "reconciliation" "reconciliation_id"
                      s.reconciliation db checked' made' known')))

  -- When persist_effect_records returned, then after any sequence of further calls, refused
  -- ones included, the same receipt and reconciliation are accepted again at any times, and
  -- the database is left as it is.
  pub persist_effect_records-replays :
      (s : Submission) (now later : ℕ) (ss : List Submission) (db after : Database)
      → submit s db ≡ ok after
      → submit (record s { now = now; later = later }) (submit_all ss after)
        ≡ ok (submit_all ss after)
  persist_effect_records-replays s now later ss db after e =
      IsPersisted-replays s now later (submit_all ss after)
        (submit_all-IsPersisted s ss after (submit-IsPersisted s db e).0)
