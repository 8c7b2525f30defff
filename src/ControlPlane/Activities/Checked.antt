-- ===== src/ControlPlane/Activities/Checked.antt =====
-- What an accepted activity record says: the tests of the store's append and of its reconstruction.
use mathlib.Core.Path.{subst}
use text.Mathlib.TextEquality.{}
use provable_agent_reference.Base.{
  ℕ, ◌≡◌, sym, ap, ◌∙◌, String, true, ◌&&◌, ◌==◌, nat_eq, nat_eq_iff, List, Option, ◌<>◌,
}
use provable_agent_reference.Errors.{
  ok, require_that, ◌>>=◌, >>=-eq-ok, >>-eq-ok, >>=-ok, require_that-ok, require_that-returns,
  ok-injective,
}
use provable_agent_reference.Json.{Value, str, int, pos, negsuc, null, bool, arr, obj, other}
use provable_agent_reference.Json.Equality.{py_eq-str, py_eq, int_eq}
use provable_agent_reference.Json.Entries.{item, payload_of}
use provable_agent_reference.Canonical.{Sha256, sha256_uri, canonical_json, value}
use provable_agent_reference.ControlPlane.Table.{rowcount, insert_row}
use provable_agent_reference.ControlPlane.Database.{
  Database, Run, ActivityRow, text_column, sequence_column, jsonb, enqueue, chain_check,
}
use provable_agent_reference.ControlPlane.Activities.{
  check_links, check_stored, check_record, row_of, insert_activity, append_record, optional,
  bad_chain, activity_event, failed_closed,
}

sequence_column-eq :
    (v : Value) (n m : ℕ) → py_eq v (int (pos n)) ≡ true → sequence_column v ≡ ok m → m ≡ n
unfolding py_eq int_eq
sequence_column-eq (int (pos k)) n m h e =
    let same : k ≡ m = ok-injective e in sym same ∙ (nat_eq_iff k n).0 h
sequence_column-eq (int (negsuc k)) n m h e = cc
sequence_column-eq (bool b) n m h e = cc
sequence_column-eq (str t) n m h e = cc
sequence_column-eq null n m h e = cc
sequence_column-eq (arr vs) n m h e = cc
sequence_column-eq (obj fs) n m h e = cc
sequence_column-eq (other u) n m h e = cc

module _ ⦃H : Sha256⦄ where
  -- Which record the tests accept does not depend on their messages.
  check_links-same :
      (m₁ m₂ m₃ m₄ : String) (n : ℕ) (previous r : Value) {h : Value}
      → check_links m₁ m₂ n previous r ≡ ok h
      → check_links m₃ m₄ n previous r ≡ ok h
  unfolding check_links
  check_links-same m₁ m₂ m₃ m₄ n previous r e =
      let (s, e₁, r₁) = >>=-eq-ok (item "sequence" r) _ e in
      let (e₂, r₂) = >>-eq-ok (require_that (py_eq s (int (pos n))) _ _) _ r₁ in
      let (p, e₃, r₃) = >>=-eq-ok (item "previous_event_hash" r) _ r₂ in
      let (e₄, r₄) = >>-eq-ok (require_that (py_eq p previous) _ _) _ r₃ in
      let (bh, e₅, r₅) = >>=-eq-ok (item "body_hash" r) _ r₄ in
      let (b, e₆, r₆) = >>=-eq-ok (item "body" r) _ r₅ in
      let (u, e₇, r₇) = >>=-eq-ok (sha256_uri (value b)) _ r₆ in
      let (e₈, r₈) = >>-eq-ok (require_that (py_eq bh (str u)) _ _) _ r₇ in
      let (rh, e₉, r₉) = >>=-eq-ok (item "record_hash" r) _ r₈ in
      let (w, f₁, r₁₀) = >>=-eq-ok (sha256_uri (value (payload_of r))) _ r₉ in
      let (f₂, f₃) = >>-eq-ok (require_that (py_eq rh (str w)) _ _) _ r₁₀ in
      >>=-ok _ e₁
      ∙ (>>=-ok _ (require_that-returns _ _ (require_that-ok _ _ _ e₂))
          ∙ (>>=-ok _ e₃
              ∙ (>>=-ok _ (require_that-returns _ _ (require_that-ok _ _ _ e₄))
                  ∙ (>>=-ok _ e₅
                      ∙ (>>=-ok _ e₆
                          ∙ (>>=-ok _ e₇
                              ∙ (>>=-ok _ (require_that-returns _ _ (require_that-ok _ _ _ e₈))
                                  ∙ (>>=-ok _ e₉
                                      ∙ (>>=-ok _ f₁
                                          ∙ (>>=-ok _ (
                                                require_that-returns _ _ (require_that-ok _ _ _ f₂))
                                              ∙ f₃))))))))))

  -- What the tests say of the sequence and of the hash.
  check_links-inv :
      (m₁ m₂ : String) (n : ℕ) (previous r : Value) {h : Value}
      → check_links m₁ m₂ n previous r ≡ ok h
      → (s : Value) × (w : String) × (item "sequence" r ≡ ok s)
        × (py_eq s (int (pos n)) ≡ true)
        × (item "record_hash" r ≡ ok h)
        × (h ≡ str w)
  unfolding check_links
  check_links-inv m₁ m₂ n previous r e =
      let (s, e₁, r₁) = >>=-eq-ok (item "sequence" r) _ e in
      let (e₂, r₂) = >>-eq-ok (require_that (py_eq s (int (pos n))) _ _) _ r₁ in
      let (p, _, r₃) = >>=-eq-ok (item "previous_event_hash" r) _ r₂ in
      let (_, r₄) = >>-eq-ok (require_that (py_eq p previous) _ _) _ r₃ in
      let (bh, _, r₅) = >>=-eq-ok (item "body_hash" r) _ r₄ in
      let (b, _, r₆) = >>=-eq-ok (item "body" r) _ r₅ in
      let (u, _, r₇) = >>=-eq-ok (sha256_uri (value b)) _ r₆ in
      let (_, r₈) = >>-eq-ok (require_that (py_eq bh (str u)) _ _) _ r₇ in
      let (rh, e₉, r₉) = >>=-eq-ok (item "record_hash" r) _ r₈ in
      let (w, _, r₁₀) = >>=-eq-ok (sha256_uri (value (payload_of r))) _ r₉ in
      let (f₂, f₃) = >>-eq-ok (require_that (py_eq rh (str w)) _ _) _ r₁₀ in
      let same = ok-injective f₃ in
      (
        s,
        w,
        e₁,
        require_that-ok _ _ _ e₂,
        e₉ ∙ ap ok same,
        sym same ∙ py_eq-str rh w (require_that-ok _ _ _ f₂),
      )

  -- The row of a record that passed the tests.
  row_of-inv :
      (run : Run) (n : ℕ) (previous : Option String) (r : Value) {h : Value} {row : ActivityRow}
      (p : Value)
      → check_links bad_chain "activity record hash is invalid" n p r ≡ ok h
      → row_of run n previous r ≡ ok row
      → (row.run_id ≡ run.run_id)
        × (row.sequence ≡ n)
        × (row.document ≡ r)
        × (h ≡ str row.record_hash)
  unfolding row_of
  row_of-inv run n previous r p checks e =
      let (s, w, given, equal, hashed, text) = check_links-inv _ _ n p r checks in
      let (i, _, r₁) = >>=-eq-ok (item "event_id" r >>= text_column) _ e in
      let (c, column, r₂) = >>=-eq-ok (item "sequence" r >>= sequence_column) _ r₁ in
      let (t, _, r₃) = >>=-eq-ok (item "event_type" r >>= text_column) _ r₂ in
      let (b, _, r₄) = >>=-eq-ok (item "body" r >>= jsonb) _ r₃ in
      let (bh, _, r₅) = >>=-eq-ok (item "body_hash" r >>= text_column) _ r₄ in
      let (d, kept, r₆) = >>=-eq-ok (jsonb r) _ r₅ in
      let (k, hash, r₇) = >>=-eq-ok (item "record_hash" r >>= text_column) _ r₆ in
      let (_, _, document) = >>=-eq-ok (canonical_json r) _ kept in
      let same = ok-injective r₇ in
      let own : ok w ≡ ok k =
        sym (ap (λ m. m >>= text_column) hashed ∙ ap text_column text) ∙ hash in
      (
        sym (ap (λ x. x.run_id) same),
        sym (ap (λ x. x.sequence) same)
            ∙ sequence_column-eq s n c equal (sym (ap (λ m. m >>= sequence_column) given) ∙ column),
        sym (ap (λ x. x.document) same) ∙ sym (ok-injective document),
        text ∙ ap str (ok-injective own ∙ ap (λ x. x.record_hash) same),
      )

  check_record-links :
      (run : Run) (n : ℕ) (previous : Option String) (r : Value) {h : Value}
      → check_record run n previous r ≡ ok h
      → check_links bad_chain "activity record hash is invalid" n (optional previous) r ≡ ok h
  unfolding check_record
  check_record-links run n previous r e =
      let (i, _, r₁) = >>=-eq-ok (item "run_id" r) _ e in
      let (_, r₂) = >>-eq-ok (require_that (py_eq i (str run.run_id)) _ _) _ r₁ in
      let (t, _, r₃) = >>=-eq-ok (item "tenant_id" r) _ r₂ in
      let (c, _, r₄) = >>=-eq-ok (item "case_id" r) _ r₃ in
      (>>-eq-ok (require_that (py_eq t (str run.tenant_id) && py_eq c (str run.case_id)) _ _) _
        r₄).1

  insert_activity-inv :
      (row : ActivityRow) (rows : List ActivityRow) {after : List ActivityRow}
      → insert_activity row rows ≡ ok after
      → after ≡ insert_row row rows
  unfolding insert_activity
  insert_activity-inv row rows e =
      let (_, r₁) =
        >>-eq-ok (require_that (nat_eq (rowcount (λ s. s.event_id == row.event_id) rows) 0) _ _) _
          e in
      let (_, r₂) =
        >>-eq-ok
          (require_that
            (nat_eq (rowcount (λ s. s.run_id == row.run_id && nat_eq s.sequence row.sequence) rows)
              0)
            _ _)
          _ r₁ in
      let (_, r₃) =
        >>-eq-ok (require_that (chain_check row.sequence row.previous_event_hash) _ _) _ r₂ in
      sym (ok-injective r₃)

  -- One round of the loop: a new row at the end of its run's chain.
  pub append_record-inv :
      (now : ℕ) (run : Run) (n : ℕ) (previous : Option String) (r : Value) (db : Database)
      {answer : Database × ActivityRow}
      → append_record now run n previous r db ≡ ok answer
      → (answer.0.activities ≡ insert_row answer.1 db.activities)
        × (answer.1.run_id ≡ run.run_id)
        × (answer.1.sequence ≡ n)
        × (answer.1.document ≡ r)
        × (check_stored n (optional previous) answer.1.document ≡ ok (str answer.1.record_hash))
  unfolding append_record
  append_record-inv now run n previous r db {answer} e =
      let (h, checks, r₁) = >>=-eq-ok (check_record run n previous r) _ e in
      let (row, made, r₂) = >>=-eq-ok (row_of run n previous r) _ r₁ in
      let (rows, inserted, r₃) = >>=-eq-ok (insert_activity row db.activities) _ r₂ in
      let (payload, _, r₄) = >>=-eq-ok (jsonb (activity_event row)) _ r₃ in
      let (items, _, r₅) =
        >>=-eq-ok
          (enqueue now ("outbox_" <> row.event_id) row.tenant_id "agent_activity" row.event_id
            row.event_type payload db.outbox)
          _ r₄ in
      let links = check_record-links run n previous r checks in
      let (own_run, own_sequence, own_document, own_hash) =
        row_of-inv run n previous r (optional previous) links made in
      let same = ok-injective r₅ in
      let stored : check_stored n (optional previous) row.document ≡ ok (str row.record_hash) =
        ap (check_stored n (optional previous)) own_document
        ∙ check_links-same _ _ failed_closed failed_closed n (optional previous) r links
        ∙ ap ok own_hash in
      subst
        (λ p.
          (p.0.activities ≡ insert_row p.1 db.activities)
          × (p.1.run_id ≡ run.run_id)
          × (p.1.sequence ≡ n)
          × (p.1.document ≡ r)
          × (check_stored n (optional previous) p.1.document ≡ ok (str p.1.record_hash)))
        same
        (
          insert_activity-inv row db.activities inserted,
          own_run,
          own_sequence,
          own_document,
          stored,
        )
