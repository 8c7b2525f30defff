-- ===== src/ControlPlane/Activities/Reconstruct.antt =====
-- Reconstruction after appending, for the store's activities.
use mathlib.Core.Path.{subst}
use mathlib.Core.List.{append_assoc, append-nil}
use text.Mathlib.TextEquality.{eq_iff}
use text.Mathlib.TextPositions.{eq_refl}
use provable_agent_reference.Base.{
  ℕ, suc, ◌≡◌, sym, ap, ◌∙◌, String, true, false, ◌==◌, if◌then◌else◌, List, [], ◌∷◌, ◌++◌, Option,
  some, Option-cases, Bool-cases, inl, inr,
}
use provable_agent_reference.Errors.{ok, err, ◌>>=◌, >>=-eq-ok, >>=-ok, ok-injective, runtime_error}
use provable_agent_reference.Json.{Value, str, null}
use provable_agent_reference.Json.Entries.{item}
use provable_agent_reference.Canonical.{Sha256}
use provable_agent_reference.ControlPlane.Table.{select, insert_row}
use provable_agent_reference.ControlPlane.Table.Found.{first-test}
use provable_agent_reference.ControlPlane.Database.{Database, Run, ActivityRow, text_column}
use provable_agent_reference.ControlPlane.Activities.{
  check_stored, check_all, append_record, append_records, append_to_run, append_agent_activities,
  existing_run, run_of, rows_of, of_run, reconstruct_agent_activities, documents, last_row,
  next_sequence, next_previous, optional,
}
use provable_agent_reference.ControlPlane.Activities.Stored.{
  IsChainFrom, end_of, check_all-documents, order_by-chain, next-end_of, insert_row-chain,
  documents-insert_row, select-insert_row,
}
use provable_agent_reference.ControlPlane.Activities.Checked.{append_record-inv}

module _ ⦃H : Sha256⦄ where
  abbrev chain_of : String → Database → List ActivityRow
  chain_of run_id db = select (of_run run_id) db.activities

  -- The rows of every run form a chain.
  abbrev pub IsStored : Database → Type 0
  IsStored db = (run_id : String) → IsChainFrom 0 null (chain_of run_id db)

  -- One round keeps every chain, and puts the record at the end of its run's.
  append_record-IsStored :
      (now : ℕ) (run : Run) (n : ℕ) (previous : Option String) (r : Value) (db : Database)
      {answer : Database × ActivityRow}
      → IsStored db
      → ◌≡◌ {A = ℕ × Value} (n, optional previous) (end_of 0 null (chain_of run.run_id db))
      → append_record now run n previous r db ≡ ok answer
      → IsStored answer.0
        × (◌≡◌ {A = ℕ × Value}
            (suc n, str answer.1.record_hash)
            (end_of 0 null (chain_of run.run_id answer.0)))
        × (documents (chain_of run.run_id answer.0)
            ≡ documents (chain_of run.run_id db) ++ (r ∷ []))
        × ((other : String)
            → (run.run_id == other) ≡ false
            → chain_of other answer.0 ≡ chain_of other db)
  append_record-IsStored now run n previous r db {answer} stored ends e =
      let (inserted, own_run, own_sequence, own_document, checked) =
        append_record-inv now run n previous r db e in
      let grown : (other : String)
          → chain_of other answer.0 ≡ (
              if of_run other answer.1
              then insert_row answer.1 (chain_of other db)
              else chain_of other db) =
        λ other.
          ap (select (of_run other)) inserted
          ∙ select-insert_row (of_run other) answer.1 db.activities in
      let mine : of_run run.run_id answer.1 ≡ true =
        ap (λ x. x == run.run_id) own_run ∙ eq_refl run.run_id in
      let own : chain_of run.run_id answer.0 ≡ insert_row answer.1 (chain_of run.run_id db) =
        grown run.run_id
        ∙ ap
            (λ b.
              if b then insert_row answer.1 (chain_of run.run_id db) else chain_of run.run_id db)
            mine in
      let away : (other : String)
          → (run.run_id == other) ≡ false
          → chain_of other answer.0 ≡ chain_of other db =
        λ other k.
          grown other
          ∙ ap (λ b. if b then insert_row answer.1 (chain_of other db) else chain_of other db)
              (ap (λ x. x == other) own_run ∙ k) in
      let (chain, last) =
        insert_row-chain answer.1 0 null (chain_of run.run_id db) (stored run.run_id)
          (own_sequence ∙ ap (λ p. p.0) ends)
          (subst (λ p. check_stored p.0 p.1 answer.1.document ≡ ok (str answer.1.record_hash)) ends
            checked) in
      (
        λ other. elim (Bool-cases (run.run_id == other)) [
          | inl same ↦
              subst (λ i. IsChainFrom 0 null (chain_of i answer.0))
                ((eq_iff run.run_id other).0 same) (subst (IsChainFrom 0 null) (sym own) chain)
          | inr apart ↦ subst (IsChainFrom 0 null) (sym (away other apart)) (stored other)
        ],
        ap (λ k. (suc k, str answer.1.record_hash)) (ap (λ p. p.0) ends)
            ∙ sym last
            ∙ ap (end_of 0 null) (sym own),
        ap documents own
            ∙ documents-insert_row answer.1 (chain_of run.run_id db)
            ∙ ap (λ d. documents (chain_of run.run_id db) ++ (d ∷ [])) own_document,
        away,
      )

  append_records-IsStored :
      (now : ℕ) (run : Run) (n : ℕ) (previous : Option String) (rs : List Value) (db : Database)
      {after : Database}
      → IsStored db
      → ◌≡◌ {A = ℕ × Value} (n, optional previous) (end_of 0 null (chain_of run.run_id db))
      → append_records now run n previous rs db ≡ ok after
      → IsStored after
        × (documents (chain_of run.run_id after) ≡ documents (chain_of run.run_id db) ++ rs)
        × ((other : String)
            → (run.run_id == other) ≡ false
            → chain_of other after ≡ chain_of other db)
  unfolding append_records
  append_records-IsStored now run n previous [] db stored ends e =
      let same = ok-injective e in
      (
        subst IsStored same stored,
        ap (λ d. documents (chain_of run.run_id d)) (sym same) ∙ sym (append-nil _),
        λ other apart. ap (chain_of other) (sym same),
      )
  append_records-IsStored now run n previous (r ∷ rs) db stored ends e =
      let (answer, one, rest) = >>=-eq-ok (append_record now run n previous r db) _ e in
      let (kept, next, grown, away) =
        append_record-IsStored now run n previous r db stored ends one in
      let (all, documented, apart_from) =
        append_records-IsStored now run (suc n) (some answer.1.record_hash) rs answer.0 kept next
          rest in
      (
        all,
        documented
            ∙ ap (λ l. l ++ rs) grown
            ∙ append_assoc (documents (chain_of run.run_id db)) (r ∷ []) rs,
        λ other apart. apart_from other apart ∙ away other apart,
      )

  existing_run-inv :
      (run_id : String) (db : Database) {run : Run}
      → existing_run (run_of run_id db) ≡ ok run
      → run.run_id ≡ run_id
  existing_run-inv run_id db {run} e = elim (Option-cases (run_of run_id db)) [
    | inl absent ↦
        let no : err runtime_error "activity run does not exist" ≡ ok run =
          sym (ap existing_run absent) ∙ e in
        cc
    | inr (found, present) ↦
        let same = ok-injective (sym (ap existing_run present) ∙ e) in
        sym (ap (λ x. x.run_id) same)
        ∙ (eq_iff found.run_id run_id).0 (first-test (λ r. r.run_id == run_id) db.runs present)
  ]

  reconstruct-IsStored :
      (run_id : String) (db : Database)
      → IsStored db
      → reconstruct_agent_activities run_id db ≡ ok (documents (chain_of run_id db))
  unfolding reconstruct_agent_activities
  reconstruct-IsStored run_id db stored =
      let sorted : rows_of run_id db ≡ chain_of run_id db =
        order_by-chain 0 null (chain_of run_id db) (stored run_id) in
      >>=-ok _ (
        ap (λ l. check_all 0 null (documents l)) sorted
        ∙ check_all-documents 0 null (chain_of run_id db) (stored run_id))
      ∙ ap (λ l. ok (documents l)) sorted

  -- In a database where the activities of every run form a chain, when
  -- append_agent_activities returns, they still do, the reconstruction of the run returns the
  -- records that it had and then the new ones, and the reconstruction of any other run
  -- returns what it did.
  pub append-reconstructs :
      (now : ℕ) (run_id : String) (r : Value) (rs : List Value) (db after : Database)
      → IsStored db
      → item "run_id" r ≡ ok (str run_id)
      → append_agent_activities now (r ∷ rs) db ≡ ok after
      → IsStored after
        × (reconstruct_agent_activities run_id after
            ≡ ok (documents (rows_of run_id db) ++ (r ∷ rs)))
        × ((other : String)
            → (run_id == other) ≡ false
            → reconstruct_agent_activities other after ≡ reconstruct_agent_activities other db)
  unfolding append_agent_activities append_to_run
  append-reconstructs now run_id r rs db after stored given e =
      let (i, one, body) = >>=-eq-ok (item "run_id" r >>= text_column) _ e in
      let own : ok i ≡ ok run_id = sym one ∙ ap (λ m. m >>= text_column) given in
      let mine : append_to_run now run_id (r ∷ rs) db ≡ ok after =
        subst (λ k. append_to_run now k (r ∷ rs) db ≡ ok after) (ok-injective own) body in
      let (run, exists, appended) = >>=-eq-ok (existing_run (run_of run_id db)) _ mine in
      let named = existing_run-inv run_id db exists in
      let sorted : rows_of run_id db ≡ chain_of run_id db =
        order_by-chain 0 null (chain_of run_id db) (stored run_id) in
      let ends =
        ap (λ l. (next_sequence (last_row l), optional (next_previous (last_row l)))) sorted
        ∙ next-end_of (chain_of run_id db) (stored run_id)
        ∙ ap (λ k. end_of 0 null (chain_of k db)) (sym named) in
      let (kept, grown, away) =
        append_records-IsStored now run _ _ (r ∷ rs) db stored ends appended in
      (
        kept,
        reconstruct-IsStored run_id after kept
            ∙ ap (λ k. ok (documents (chain_of k after))) (sym named)
            ∙ ap ok grown
            ∙ ap (λ l. ok (documents l ++ (r ∷ rs))) (ap (λ k. chain_of k db) named ∙ sym sorted),
        λ other apart.
            reconstruct-IsStored other after kept
            ∙ ap (λ l. ok (documents l)) (away other (ap (λ k. k == other) named ∙ apart))
            ∙ sym (reconstruct-IsStored other db stored),
      )
