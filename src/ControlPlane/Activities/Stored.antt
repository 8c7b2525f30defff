-- ===== src/ControlPlane/Activities/Stored.antt =====
-- The rows of a run as a chain, and what one more record does to it.
use provable_agent_reference.Base.{
  ℕ, suc, ◌+◌, ◌≡◌, refl, sym, ap, ◌∙◌, Bool, true, if◌then◌else◌, List, [], ◌∷◌, ◌++◌, Option,
  none, some, Option-cases, inl, inr, leb, arith,
}
use provable_agent_reference.Errors.{ok, >>=-ok}
use provable_agent_reference.Json.{Value, str, null}
use provable_agent_reference.Canonical.{Sha256}
use provable_agent_reference.ControlPlane.Table.{select, insert_row, order_by, place}
use provable_agent_reference.ControlPlane.Database.{ActivityRow}
use provable_agent_reference.ControlPlane.Activities.{
  check_stored, check_all, documents, last_row, later_row, sequence_le, next_sequence,
  next_previous, optional,
}

module _ ⦃H : Sha256⦄ where
  -- Rows with successive sequence numbers, whose documents are linked by their hashes.
  abbrev pub IsChainFrom : ℕ → Value → List ActivityRow → Type 0
  IsChainFrom n previous [] = Unit
  IsChainFrom n previous (r ∷ rs) =
      (r.sequence ≡ n)
      × (check_stored n previous r.document ≡ ok (str r.record_hash))
      × IsChainFrom (suc n) (str r.record_hash) rs

  -- The sequence number and the previous hash of the next record.
  abbrev pub end_of : ℕ → Value → List ActivityRow → ℕ × Value
  end_of n previous [] = (n, previous)
  end_of n previous (r ∷ rs) = end_of (suc n) (str r.record_hash) rs

  pub check_all-documents :
      (n : ℕ) (previous : Value) (rows : List ActivityRow)
      → IsChainFrom n previous rows
      → check_all n previous (documents rows) ≡ ok tt
  unfolding check_all
  check_all-documents n previous [] h = refl
  check_all-documents n previous (r ∷ rs) (s, c, h) =
      >>=-ok _ c ∙ check_all-documents (suc n) (str r.record_hash) rs h

  place-first :
      (r : ActivityRow) (rs : List ActivityRow) (n : ℕ) (previous : Value)
      → r.sequence ≡ n
      → IsChainFrom (suc n) previous rs
      → place sequence_le r rs ≡ r ∷ rs
  unfolding place
  place-first r [] n previous e h = refl
  place-first r (s ∷ rs) n previous e (f, _, _) =
      let first : leb r.sequence s.sequence ≡ true = ground arith in rw first refl

  pub order_by-chain :
      (n : ℕ) (previous : Value) (rows : List ActivityRow)
      → IsChainFrom n previous rows
      → order_by sequence_le rows ≡ rows
  unfolding order_by
  order_by-chain n previous [] h = refl
  order_by-chain n previous (r ∷ rs) (s, c, h) =
      ap (place sequence_le r) (order_by-chain (suc n) (str r.record_hash) rs h)
      ∙ place-first r rs n (str r.record_hash) s h

  abbrev next_of : ℕ → Value → Option ActivityRow → ℕ × Value
  next_of n previous none = (n, previous)
  next_of n previous (some l) = (l.sequence + 1, str l.record_hash)

  later_row-next :
      (r : ActivityRow) (o : Option ActivityRow) (n : ℕ) (previous : Value)
      → r.sequence ≡ n
      → next_of n previous (some (later_row r o)) ≡ next_of (suc n) (str r.record_hash) o
  later_row-next r none n previous e =
      let next : r.sequence + 1 ≡ suc n = omega arith in λ i. (next i, str r.record_hash)
  later_row-next r (some l) n previous e = refl

  last_row-next :
      (n : ℕ) (previous : Value) (rows : List ActivityRow)
      → IsChainFrom n previous rows
      → next_of n previous (last_row rows) ≡ end_of n previous rows
  unfolding last_row
  last_row-next n previous [] h = refl
  last_row-next n previous (r ∷ rs) (s, c, h) =
      later_row-next r (last_row rs) n previous s ∙ last_row-next (suc n) (str r.record_hash) rs h

  -- What the source computes from the last row.
  pub next-end_of :
      (rows : List ActivityRow)
      → IsChainFrom 0 null rows
      → ◌≡◌ {A = ℕ × Value}
          (next_sequence (last_row rows), optional (next_previous (last_row rows)))
          (end_of 0 null rows)
  next-end_of rows h = elim (Option-cases (last_row rows)) [
    | inl e ↦ rw e (ap (next_of 0 null) (sym e) ∙ last_row-next 0 null rows h)
    | inr (l, e) ↦ rw e (ap (next_of 0 null) (sym e) ∙ last_row-next 0 null rows h)
  ]

  pub insert_row-chain :
      (r : ActivityRow) (n : ℕ) (previous : Value) (rows : List ActivityRow)
      → IsChainFrom n previous rows
      → r.sequence ≡ (end_of n previous rows).0
      → check_stored (end_of n previous rows).0 (end_of n previous rows).1 r.document
        ≡ ok (str r.record_hash)
      → IsChainFrom n previous (insert_row r rows)
        × (end_of n previous (insert_row r rows)
            ≡ (suc (end_of n previous rows).0, str r.record_hash))
  unfolding insert_row
  insert_row-chain r n previous [] h e c = ((e, c, tt), refl)
  insert_row-chain r n previous (s ∷ rs) (f, d, h) e c =
      let (chain, ends) = insert_row-chain r (suc n) (str s.record_hash) rs h e c in
      ((f, d, chain), ends)

pub documents-insert_row :
    (r : ActivityRow) (rows : List ActivityRow)
    → documents (insert_row r rows) ≡ documents rows ++ (r.document ∷ [])
unfolding insert_row
documents-insert_row r [] = refl
documents-insert_row r (s ∷ rs) = ap (λ l. s.document ∷ l) (documents-insert_row r rs)

pub select-insert_row :
    (test : ActivityRow → Bool) (r : ActivityRow) (rows : List ActivityRow)
    → select test (insert_row r rows)
      ≡ (if test r then insert_row r (select test rows) else select test rows)
unfolding select insert_row
select-insert_row test r [] = refl
select-insert_row test r (s ∷ rs) = ground (arith, select-insert_row test r rs)
