-- ===== src/ControlPlane/Delegations/Attenuated.antt =====
-- Delegation keeps every stored grant within its parent.
use mathlib.Core.Path.{subst}
use text.Mathlib.TextEquality.{eq_iff}
use provable_agent_reference.Base.{
  ℕ, ◌≡◌, refl, sym, ap, ◌∙◌, String, true, false, ◌&&◌, ◌==◌, List, [], ◌∷◌, Option, none, some,
  inl, inr, ◌⊎◌, All, &&-eq-true,
}
use provable_agent_reference.Errors.{
  ok, require_that, raise_if, >>=-eq-ok, >>-eq-ok, require_that-ok, raise_if-ok, ok-injective,
}
use provable_agent_reference.Canonical.{Sha256, sha256_uri, canonical_json, value}
use provable_agent_reference.Contracts.Validation.{is_hash_uri}
use provable_agent_reference.ControlPlane.Models.{CapabilityGrant, permits_child}
use provable_agent_reference.ControlPlane.Table.{insert_row, first}
use provable_agent_reference.ControlPlane.Table.Found.{first-insert_row}
use provable_agent_reference.ControlPlane.Table.Each.{All-insert_row}
use provable_agent_reference.ControlPlane.Database.{
  Database, GrantRow, JournalRecord, jsonb, enqueue,
}
use provable_agent_reference.ControlPlane.Activities.{run_of}
use provable_agent_reference.ControlPlane.Runs.{insert_journal}
use provable_agent_reference.ControlPlane.Delegations.{
  IsoFormat, GrantRecord, capability_grant, run_scope, existing_parent, is_ended, is_named,
  names_parent, last_event, journal_of, next_sequence, next_previous, delegation_body,
  delegation_event, grant_row, check_parent, insert_grant, insert_unless, create_delegation,
}

All-map :
    {A : Type 0} {P Q : A → Type 0} (rows : List A)
    → ((r : A) → P r → Q r)
    → All P rows
    → All Q rows
All-map [] f h = tt
All-map (r ∷ rows) f (p, h) = (f r p, All-map rows f h)

module _ ⦃H : Sha256⦄ (iso : IsoFormat) where
  -- A grant with a parent is one that the parent's grant permits, in the same run.
  abbrev pub IsGranted : List GrantRow → GrantRow → Type 0
  IsGranted rows r =
      (r.parent_grant_id ≡ none)
      ⊎ ((parent_id : String) × (parent : GrantRow) × (grant : CapabilityGrant)
          × (child : CapabilityGrant) × (r.parent_grant_id ≡ some parent_id)
          × (first (is_named parent_id) rows ≡ some parent)
          × (parent.run_id ≡ r.run_id)
          × (capability_grant iso parent.grant_document ≡ ok grant)
          × (capability_grant iso r.grant_document ≡ ok child)
          × (permits_child grant child ≡ true))

  -- Who may delegate: a stored grant with its hash, not revoked and not expired.
  abbrev pub IsActive : ℕ → GrantRow → Type 0
  IsActive now row =
      (sha256_uri (value row.grant_document) ≡ ok row.grant_hash) × (is_ended now row ≡ false)

  IsGranted-insert_row :
      (row : GrantRow) (rows : List GrantRow) (r : GrantRow)
      → IsGranted rows r
      → IsGranted (insert_row row rows) r
  IsGranted-insert_row row rows r (inl root) = inl root
  IsGranted-insert_row row rows r (inr (parent_id, parent, grant, child, e₁, e₂, e₃, e₄, e₅, e₆)) =
      inr (
        parent_id,
        parent,
        grant,
        child,
        e₁,
        first-insert_row (is_named parent_id) row rows e₂,
        e₃,
        e₄,
        e₅,
        e₆,
      )

  check_parent-inv :
      (now : ℕ) (g : GrantRecord) (child : CapabilityGrant) (parent : GrantRow)
      → check_parent iso now g child parent ≡ ok tt
      → (grant : CapabilityGrant) × IsActive now parent
        × (parent.run_id ≡ g.run_id)
        × (capability_grant iso parent.grant_document ≡ ok grant)
        × (permits_child grant child ≡ true)
  unfolding check_parent
  check_parent-inv now g child parent e =
      let (expected, e₁, r₁) = >>=-eq-ok (sha256_uri (value parent.grant_document)) _ e in
      let (e₂, r₂) = >>-eq-ok (require_that (parent.grant_hash == expected) _ _) _ r₁ in
      let (e₃, r₃) = >>-eq-ok (raise_if (is_ended now parent) _ _) _ r₂ in
      let (e₄, r₄) =
        >>-eq-ok
          (require_that
            (parent.tenant_id == child.tenant_id
              && (parent.case_id == child.case_id && parent.run_id == g.run_id))
            _ _)
          _ r₃ in
      let (grant, e₅, r₅) = >>=-eq-ok (capability_grant iso parent.grant_document) _ r₄ in
      let (_, scope) =
        &&-eq-true {a = parent.tenant_id == child.tenant_id} (require_that-ok _ _ _ e₄) in
      let (_, run) = &&-eq-true {a = parent.case_id == child.case_id} scope in
      (
        grant,
        (
          e₁ ∙ ap ok (sym ((eq_iff parent.grant_hash expected).0 (require_that-ok _ _ _ e₂))),
          raise_if-ok _ _ _ e₃,
        ),
        (eq_iff parent.run_id g.run_id).0 run,
        e₅,
        require_that-ok _ _ _ r₅,
      )

  insert_grant-inv :
      (now : ℕ) (g : GrantRecord) (child : CapabilityGrant) (event_id outbox_id : String)
      (db : Database) {grant_id : String} {after : Database}
      → insert_grant iso now g child event_id outbox_id db ≡ ok (grant_id, after)
      → after.grants ≡ insert_row (grant_row g) db.grants
  unfolding insert_grant
  insert_grant-inv now g child event_id outbox_id db e =
      let previous = last_event (journal_of g.run_id db) in
      let body = delegation_body g in
      let (_, r₁) = >>-eq-ok (require_that (is_hash_uri g.grant_hash) _ _) _ e in
      let (body_hash, _, r₂) = >>=-eq-ok (sha256_uri (value body)) _ r₁ in
      let (record_hash, _, r₃) =
        >>=-eq-ok
          (sha256_uri (
            value (
              delegation_event g child event_id (next_sequence previous) (next_previous previous)
                body_hash)))
          _ r₂ in
      let event : JournalRecord = record {
        event_id = event_id;
        tenant_id = child.tenant_id;
        case_id = child.case_id;
        run_id = g.run_id;
        sequence = next_sequence previous;
        previous_event_hash = next_previous previous;
        body = body;
        body_hash = body_hash;
        record_hash = record_hash;
      } in
      let (journal, _, r₄) = >>=-eq-ok (insert_journal event db.runs db.journal) _ r₃ in
      let (payload, _, r₅) = >>=-eq-ok (jsonb body) _ r₄ in
      let (outbox, _, r₆) =
        >>=-eq-ok
          (enqueue now outbox_id child.tenant_id "capability_grant" g.grant_id
            "capability.delegated" payload db.outbox)
          _ r₅ in
      ap (λ p. p.1.grants) (sym (ok-injective r₆))

  insert_unless-inv :
      (o : Option GrantRow) (now : ℕ) (g : GrantRecord) (child : CapabilityGrant)
      (event_id outbox_id : String) (db : Database) {grant_id : String} {after : Database}
      → insert_unless iso o now g child event_id outbox_id db ≡ ok (grant_id, after)
      → (after.grants ≡ insert_row (grant_row g) db.grants) ⊎ (after.grants ≡ db.grants)
  insert_unless-inv none now g child event_id outbox_id db e =
      inl (insert_grant-inv now g child event_id outbox_id db e)
  insert_unless-inv (some existing) now g child event_id outbox_id db e =
      let (_, same) =
        >>-eq-ok
          (require_that
            (names_parent g.parent_grant_id existing.parent_grant_id
              && existing.grant_hash == g.grant_hash)
            _ _)
          _ e in
      inr (ap (λ p. p.1.grants) (sym (ok-injective same)))

  existing_parent-inv :
      (o : Option GrantRow) {parent : GrantRow} → existing_parent o ≡ ok parent → o ≡ some parent
  existing_parent-inv none e = cc
  existing_parent-inv (some row) e = ap some (ok-injective e)

  -- In a database where each stored grant is a root or, in its parent's run, permitted by the
  -- grant of its stored parent, when create_delegation returns, this still holds, and the
  -- named parent is stored, has the hash of its document, and is neither revoked nor expired.
  pub create_delegation-attenuates :
      (now : ℕ) (g : GrantRecord) (event_id outbox_id : String) (db after : Database)
      (grant_id : String)
      → All (IsGranted db.grants) db.grants
      → create_delegation iso now g event_id outbox_id db ≡ ok (grant_id, after)
      → All (IsGranted after.grants) after.grants
        × ((parent : GrantRow) × (first (is_named g.parent_grant_id) db.grants ≡ some parent)
            × IsActive now parent)
  unfolding create_delegation
  create_delegation-attenuates now g event_id outbox_id db after grant_id granted e =
      let (child, parsed, r₁) = >>=-eq-ok (capability_grant iso g.grant_document) _ e in
      let (_, r₂) = >>-eq-ok (require_that (run_scope child (run_of g.run_id db)) _ _) _ r₁ in
      let (parent, named, r₃) =
        >>=-eq-ok (existing_parent (first (is_named g.parent_grant_id) db.grants)) _ r₂ in
      let (checked, r₄) = >>-eq-ok (check_parent iso now g child parent) _ r₃ in
      let (document, kept, r₅) = >>=-eq-ok (jsonb g.grant_document) _ r₄ in
      let (_, _, given) = >>=-eq-ok (canonical_json g.grant_document) _ kept in
      let (grant, active, run, parent_parsed, permitted) =
        check_parent-inv now g child parent checked in
      let found = existing_parent-inv (first (is_named g.parent_grant_id) db.grants) named in
      let stored : GrantRecord = record g { grant_document = document } in
      let child_parsed : capability_grant iso document ≡ ok child =
        ap (capability_grant iso) (sym (ok-injective given)) ∙ parsed in
      (
        elim (insert_unless-inv (first (is_named g.grant_id) db.grants) now stored child event_id
            outbox_id db r₅) [
              | inl grown ↦
                  subst (λ rows. All (IsGranted rows) rows) (sym grown)
                    (All-insert_row (IsGranted (insert_row (grant_row stored) db.grants))
                      (grant_row stored) db.grants
                      (All-map db.grants (IsGranted-insert_row (grant_row stored) db.grants)
                        granted)
                      (inr (
                        g.parent_grant_id,
                        parent,
                        grant,
                        child,
                        refl,
                        first-insert_row (is_named g.parent_grant_id) (grant_row stored) db.grants
                            found,
                        run,
                        parent_parsed,
                        child_parsed,
                        permitted,
                      )))
              | inr same ↦ subst (λ rows. All (IsGranted rows) rows) (sym same) granted
            ],
        (parent, found, active),
      )
