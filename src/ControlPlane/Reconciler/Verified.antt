-- ===== src/ControlPlane/Reconciler/Verified.antt =====
-- The artifacts that ArtifactReconciler makes available,
-- src/provable_agent_reference/control_plane/artifacts.py.
use mathlib.Core.Path.{subst}
use text.Mathlib.TextEquality.{eq_iff}
use provable_agent_reference.Base.{
  get, if◌then◌else◌, Bool-cases, inl, inr, Option, none, some, strip_prefix, ℕ, suc, ◌≡◌, refl,
  sym, ap, ◌∙◌, String, Bool, not, ◌&&◌, ◌||◌, ◌==◌, nat_eq, nat_eq_iff, List, [], ◌∷◌, length, All,
  &&-eq-true, leb, ltb, member, is_empty, count,
}
use provable_agent_reference.Errors.{
  Result, ErrorClass, ok, err, >>=-eq-ok, >>-eq-ok, >>=-ok, ok-injective, require_that, raise_if,
  require_that-ok,
}
use provable_agent_reference.Canonical.{Sha256, is_hex64}
use provable_agent_reference.ControlPlane.Table.{select, rowcount}
use provable_agent_reference.ControlPlane.Table.Each.{All-select, All-update, All-map}
use provable_agent_reference.ControlPlane.Artifacts.{
  Disk, Files, read, read_bytes, reach, present, behind_colon, Fault, denied, failed, text_eq,
}
use provable_agent_reference.ControlPlane.ArtifactTable.{
  ArtifactRow, candidates, claimed, claim_artifacts, leased, finalized, finalize_artifact,
  dismissed, unavailable_artifact, postponed, retry_artifact,
}
use provable_agent_reference.ControlPlane.Reconciler.{
  Tally, Handler, dismisses, postpones, raises, handler, delay, handle, settle, go_on, fetch,
  reconcile, reconcile_claimed, run_once,
}

-- The disk on which no read fails.
abbrev pub calm : Disk → Disk
calm disk = record disk { fault = λ name. none }

reach-present :
    (fault : Option Fault) (file : Option (List ℕ)) {content : List ℕ}
    → reach fault file ≡ ok content
    → present file ≡ ok content
reach-present none file e = e
reach-present (some denied) file e = cc
reach-present (some failed) file e = cc

read_bytes-calm :
    (disk : Disk) (name : String) (fs : Files) {content : List ℕ}
    → read_bytes disk name fs ≡ ok content
    → read_bytes (calm disk) name fs ≡ ok content
read_bytes-calm disk name fs {content} e = elim (Bool-cases (is_hex64 name)) [
  | inl hex ↦
      let file = get text_eq name fs.targets in
      let reached : reach (disk.fault name) file ≡ ok content =
        sym (ap (λ b. if b then reach (disk.fault name) file else disk.elsewhere name) hex) ∙ e in
      ap (λ b. if b then present file else disk.elsewhere name) hex
      ∙ reach-present (disk.fault name) file reached
  | inr away ↦
      let file = get text_eq name fs.targets in
      ap (λ b. if b then present file else disk.elsewhere name) away
      ∙ (sym (ap (λ b. if b then reach (disk.fault name) file else disk.elsewhere name) away) ∙ e)
]

read-calm :
    ⦃H : Sha256⦄ (disk : Disk) (digest : String) (fs : Files) {content : List ℕ}
    → read disk digest fs ≡ ok content
    → read (calm disk) digest fs ≡ ok content
unfolding read
read-calm ⦃H⦄ disk digest fs e =
    let (name, e₁, r₁) = >>=-eq-ok (behind_colon (strip_prefix "sha256:" digest)) _ e in
    let (e₂, r₂) = >>-eq-ok (require_that (nat_eq (count digest) 71) _ _) _ r₁ in
    let (content, e₃, r₃) = >>=-eq-ok (read_bytes disk name fs) _ r₂ in
    >>=-ok _ e₁ ∙ (>>=-ok _ e₂ ∙ (>>=-ok _ (read_bytes-calm disk name fs e₃) ∙ r₃))

module _ ⦃H : Sha256⦄ (disk : Disk) (fs : Files) (size : String → ℕ) where
  -- The artifact store has the bytes of a digest, in the recorded length.
  abbrev pub IsVerified : String → Type 0
  IsVerified digest =
      (content : List ℕ) × (read (calm disk) digest fs ≡ ok content)
      × (length content ≡ size digest)

  -- A digest has one length, and an available artifact has its bytes.
  abbrev pub IsSound : ArtifactRow → Type 0
  IsSound r = (r.byte_length ≡ size r.digest) × (r.status ≡ "available" → IsVerified r.digest)

  fetch-IsVerified :
      (item : ArtifactRow) {content : List ℕ}
      → IsSound item
      → fetch disk fs item ≡ ok content
      → IsVerified item.digest
  fetch-IsVerified item (sized, _) e =
      let (bytes, e₁, r₁) = >>=-eq-ok (read disk item.digest fs) _ e in
      let (e₂, _) = >>-eq-ok (require_that (nat_eq (length bytes) item.byte_length) _ _) _ r₁ in
      (
        bytes,
        read-calm disk item.digest fs e₁,
        (nat_eq_iff (length bytes) item.byte_length).0 (require_that-ok _ _ _ e₂) ∙ sized,
      )

  module _ (worker_id : String) where
    handle-IsSound :
        (now : ℕ) (item : ArtifactRow) (tally : Tally) (h : Handler) (c : ErrorClass) (m : String)
        (rows : List ArtifactRow) {after_tally : Tally} {after : List ArtifactRow}
        → All IsSound rows
        → handle worker_id now item tally h c m rows ≡ ok (after_tally, after)
        → All IsSound after
    unfolding handle unavailable_artifact retry_artifact
    handle-IsSound now item tally dismisses c m rows sound e =
        let reason : String = "artifact bytes missing or failed verification" in
        let (after, e₁, r₁) =
          >>=-eq-ok (unavailable_artifact item.digest worker_id reason rows) _ e in
        let (_, r₃) =
          >>-eq-ok (require_that (nat_eq (rowcount (leased item.digest worker_id) rows) 1) _ _) _
            e₁ in
        subst (All IsSound) (ok-injective r₃ ∙ ap (λ p. p.1) (ok-injective r₁)) (
          All-update IsSound (leased item.digest worker_id) (dismissed reason) rows
            (λ r t (sized, _). (sized, λ k. cc)) sound)
    handle-IsSound now item tally postpones c m rows sound e =
        let error : String = "artifact storage temporarily unavailable" in
        let (after, e₁, r₁) =
          >>=-eq-ok (retry_artifact now item.digest worker_id error (delay item.attempts) rows) _
            e in
        let (_, r₂) =
          >>-eq-ok
            (raise_if
              (is_empty error
                || (ltb 500 (count error)
                    || not (leb 1 (delay item.attempts) && leb (delay item.attempts) 3600)))
              _ _)
            _ e₁ in
        let (_, r₃) =
          >>-eq-ok (require_that (nat_eq (rowcount (leased item.digest worker_id) rows) 1) _ _) _
            r₂ in
        subst (All IsSound) (ok-injective r₃ ∙ ap (λ p. p.1) (ok-injective r₁)) (
          All-update IsSound (leased item.digest worker_id)
            (postponed now error (delay item.attempts)) rows (λ r t s. s) sound)
    handle-IsSound now item tally raises c m rows sound e = cc

    settle-IsSound :
        (now : ℕ) (item : ArtifactRow) (tally : Tally) (answer : Result (List ℕ))
        (rows : List ArtifactRow) {after_tally : Tally} {after : List ArtifactRow}
        → ((content : List ℕ) → answer ≡ ok content → IsVerified item.digest)
        → All IsSound rows
        → settle worker_id now item tally answer rows ≡ ok (after_tally, after)
        → All IsSound after
    unfolding settle finalize_artifact
    settle-IsSound now item tally (err c m) rows verified sound e =
        handle-IsSound now item tally (handler c) c m rows sound e
    settle-IsSound now item tally (ok content) rows verified sound e =
        let test : ArtifactRow → Bool =
          λ r. r.storage_key == item.storage_key && leased item.digest worker_id r in
        let (after, e₁, r₁) =
          >>=-eq-ok (finalize_artifact now item.digest item.storage_key worker_id rows) _ e in
        let (_, r₂) = >>-eq-ok (require_that (nat_eq (rowcount test rows) 1) _ _) _ e₁ in
        subst (All IsSound) (ok-injective r₂ ∙ ap (λ p. p.1) (ok-injective r₁)) (
          All-update IsSound test (finalized now) rows
            (λ r t (sized, _). (
              sized,
              λ k.
                  let (_, held) = &&-eq-true {a = r.storage_key == item.storage_key} t in
                  let (same, _) = &&-eq-true {a = r.digest == item.digest} held in
                  subst IsVerified (sym ((eq_iff r.digest item.digest).0 same))
                    (verified content refl),
            ))
            sound)

    go_on-IsSound :
        (rows : List ArtifactRow) (answer : Result (Tally × List ArtifactRow))
        (rest : Tally → List ArtifactRow → List ArtifactRow × Result Tally)
        → All IsSound rows
        → ((tally : Tally) (after : List ArtifactRow)
            → answer ≡ ok (tally, after)
            → All IsSound after)
        → ((tally : Tally) (after : List ArtifactRow)
            → All IsSound after
            → All IsSound (rest tally after).0)
        → All IsSound (go_on worker_id rows answer rest).0
    go_on-IsSound rows (err c m) rest sound settled continued = sound
    go_on-IsSound rows (ok (tally, after)) rest sound settled continued =
        continued tally after (settled tally after refl)

    reconcile-IsSound :
        (clock : ℕ → ℕ) (n : ℕ) (items : List ArtifactRow) (tally : Tally) (rows : List ArtifactRow)
        → All IsSound items
        → All IsSound rows
        → All IsSound (reconcile worker_id clock disk fs n items tally rows).0
    unfolding reconcile
    reconcile-IsSound clock n [] tally rows claimed_sound sound = sound
    reconcile-IsSound clock n (item ∷ items) tally rows (one, others) sound =
        go_on-IsSound rows (settle worker_id (clock n) item tally (fetch disk fs item) rows)
          (reconcile worker_id clock disk fs (suc n) items) sound
          (λ t after e.
            settle-IsSound (clock n) item tally (fetch disk fs item) rows
              (λ content r. fetch-IsVerified item one r) sound e)
          (λ t after s. reconcile-IsSound clock (suc n) items t after others s)

    reconcile_claimed-IsSound :
        (clock : ℕ → ℕ) (locked : String → Bool) (limit : ℕ) (rows : List ArtifactRow)
        (answer : Result (List ArtifactRow × List ArtifactRow))
        → All IsSound rows
        → claim_artifacts (clock 0) locked worker_id limit rows ≡ answer
        → All IsSound (reconcile_claimed worker_id clock disk fs rows answer).0
    unfolding claim_artifacts
    reconcile_claimed-IsSound clock locked limit rows (err c m) sound e = sound
    reconcile_claimed-IsSound clock locked limit rows (ok (items, after)) sound e =
        let (_, r₁) =
          >>-eq-ok (raise_if (is_empty worker_id || not (leb 1 limit && leb limit 500)) _ _) _ e in
        let same = ok-injective r₁ in
        let taken : ArtifactRow → Bool =
          λ r. member r.digest (candidates (clock 0) locked limit rows) in
        let change = claimed (clock 0) worker_id in
        reconcile-IsSound clock 1 items _ after
          (subst (All IsSound) (ap (λ p. p.0) same) (
            All-map IsSound IsSound change (select taken rows) (λ r s. s)
              (All-select IsSound taken rows sound)))
          (subst (All IsSound) (ap (λ p. p.1) same)
            (All-update IsSound taken change rows (λ r t s. s) sound))

    -- On a table where the digest determines the recorded length and each available
    -- artifact can be read from the store in that length as long as no read fails, this
    -- holds again after run_once of the reconciler, whether it returns or raises, whatever
    -- reads fail, at any times and whatever rows other transactions lock.
    pub run_once-IsSound :
        (clock : ℕ → ℕ) (locked : String → Bool) (limit : ℕ) (rows : List ArtifactRow)
        → All IsSound rows
        → All IsSound (run_once worker_id clock disk fs locked limit rows).0
    unfolding run_once
    run_once-IsSound clock locked limit rows sound =
        reconcile_claimed-IsSound clock locked limit rows
          (claim_artifacts (clock 0) locked worker_id limit rows) sound refl
