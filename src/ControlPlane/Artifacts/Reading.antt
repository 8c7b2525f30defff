-- ===== src/ControlPlane/Artifacts/Reading.antt =====
-- What reading gives back of what was published.
use text.Mathlib.TextEquality.{eq_iff}
use text.Mathlib.TextPositions.{eq_refl}
use provable_agent_reference.Base.{
  ℕ, suc, ◌≡◌, refl, ap, ◌∙◌, String, true, false, ◌==◌, nat_eq, nat_eq_iff, List, [], ◌∷◌, Option,
  none, some, Option-cases, Bool-cases, inl, inr, ◌⊎◌, &&-eq-true, member, count, ◌<>◌, get, put,
  get-put_same,
}
use provable_agent_reference.Errors.{Result, ok, err}
use provable_agent_reference.Canonical.{Sha256, is_hex64}
use provable_agent_reference.Canonical.Binding.{Collision, hexdigest-binds}
use provable_agent_reference.ControlPlane.Artifacts.{
  Disk, Files, text_eq, is_mismatch, staged_name, unlink, present, digest_of, stage, publish, read,
}
use provable_agent_reference.ControlPlane.Artifacts.Archive.{
  Archive, archive_of, or_else, promised, IsIntact,
}
use provable_agent_reference.ControlPlane.Artifacts.Published.{
  member-select, stage-free, publish-refines,
}

-- A call of publish.
pub record Publication : Type 0 where
  pub pid : String
  pub content : List ℕ
  pub expected : Option String

or_else-some :
    (o : Option (List ℕ)) (content : List ℕ) → (kept : List ℕ) × (or_else o content ≡ some kept)
or_else-some none content = (content, refl)
or_else-some (some kept) content = (kept, refl)

module _ ⦃H : Sha256⦄ where
  -- Reading, in the terms of the archive.
  pub read-refines :
      (disk : Disk) (hex_digest : String) (fs : Files)
      → IsIntact (archive_of fs)
      → disk.fault hex_digest ≡ none
      → is_hex64 hex_digest ≡ true
      → read disk ("sha256:" <> hex_digest) fs ≡ present (archive_of fs hex_digest)
  unfolding read
  read-refines disk hex_digest fs intact quiet hex =
      let (length, _) = &&-eq-true {a = nat_eq (count hex_digest) 64} hex in
      let whole : nat_eq (count ("sha256:" <> hex_digest)) 71 ≡ true =
        (nat_eq_iff (count ("sha256:" <> hex_digest)) 71).1 (
          ap (λ n. suc (suc (suc (suc (suc (suc (suc n)))))))
            ((nat_eq_iff (count hex_digest) 64).0 length)) in
      rw (whole, hex, quiet)
        (elim (Option-cases (archive_of fs hex_digest)) [
          | inl absent ↦ rw absent refl
          | inr (content, found) ↦
              let same =
                (eq_iff (H.hexdigest content) hex_digest).1 (intact hex_digest content found) in
              rw (found, same) refl
        ])

  unfoldable pub publish_all : List Publication → Files → Files
  publish_all [] fs = fs
  publish_all (p ∷ ps) fs = publish_all ps (publish p.pid p.content p.expected fs).0

  promised-some :
      (answer : Result String) (content : List ℕ) (archive : Archive) (name : String)
      {kept : List ℕ}
      → archive name ≡ some kept
      → promised answer content archive name ≡ some kept
  promised-some (err e m) content archive name found = found
  promised-some (ok digest) content archive name found =
      elim (Bool-cases (name == H.hexdigest content)) [
        | inl same ↦ rw (same, found) refl
        | inr out ↦ rw out found
      ]

  publish_all-keeps :
      (ps : List Publication) (fs : Files) (name : String) {kept : List ℕ}
      → IsIntact (archive_of fs)
      → archive_of fs name ≡ some kept
      → IsIntact (archive_of (publish_all ps fs))
        × (archive_of (publish_all ps fs) name ≡ some kept)
  unfolding publish_all
  publish_all-keeps [] fs name intact found = (intact, found)
  publish_all-keeps (p ∷ ps) fs name intact found =
      let (still, same, _) = publish-refines p.pid p.content p.expected fs intact in
      publish_all-keeps ps (publish p.pid p.content p.expected fs).0 name still (
        same name
        ∙ promised-some (publish p.pid p.content p.expected fs).1 p.content (archive_of fs) name
            found)

  -- On files of which each has the digest that names it, when publish returned a digest, then
  -- after any sequence of further calls of publish, read of the digest on a disk where the
  -- read of its file does not fail returns some content, which is what the file of the digest
  -- held before the publication, or the published one if there was no such file; and it is
  -- the published one or differs from it and has its digest.
  pub publish-reads :
      (disk : Disk) (p : Publication) (ps : List Publication) (fs : Files) (digest : String)
      → IsIntact (archive_of fs)
      → (publish p.pid p.content p.expected fs).1 ≡ ok digest
      → disk.fault (H.hexdigest p.content) ≡ none
      → (kept : List ℕ) × (read disk digest
            (publish_all ps (publish p.pid p.content p.expected fs).0)
          ≡ ok kept)
        × ((kept ≡ p.content) ⊎ Collision H kept p.content)
        × (or_else (archive_of fs (H.hexdigest p.content)) p.content ≡ some kept)
  publish-reads disk p ps fs digest intact e quiet =
      let (still, same, named) = publish-refines p.pid p.content p.expected fs intact in
      let hex_digest = H.hexdigest p.content in
      let archived : archive_of (publish p.pid p.content p.expected fs).0 hex_digest
          ≡ or_else (archive_of fs hex_digest) p.content =
        same hex_digest
        ∙ ap (λ a. promised a p.content (archive_of fs) hex_digest) e
        ∙ rw (eq_refl hex_digest) refl in
      let (kept, found) = or_else-some (archive_of fs hex_digest) p.content in
      let (later, present_later) =
        publish_all-keeps ps (publish p.pid p.content p.expected fs).0 hex_digest still
          (archived ∙ found) in
      (
        kept,
        ap (λ d. read disk d (publish_all ps (publish p.pid p.content p.expected fs).0))
              (named digest e)
            ∙ read-refines disk hex_digest
                (publish_all ps (publish p.pid p.content p.expected fs).0) later quiet
                (H.hex p.content)
            ∙ ap present present_later,
        hexdigest-binds kept p.content (later hex_digest kept present_later),
        found,
      )

  -- A content whose digest has a file.
  publish-found :
      (pid : String) (content : List ℕ) (expected : Option String) (fs : Files) {kept : List ℕ}
      → is_mismatch expected (digest_of content) ≡ false
      → get text_eq (H.hexdigest content) fs.targets ≡ some kept
      → H.hexdigest kept ≡ H.hexdigest content
      → publish pid content expected fs ≡ (fs, ok (digest_of content))
  unfolding publish
  publish-found pid content expected fs {kept} fits found same =
      rw (fits, found, (eq_iff (H.hexdigest kept) (H.hexdigest content)).1 same) refl

  publish-absent :
      (pid : String) (content : List ℕ) (expected : Option String) (fs : Files)
      → is_mismatch expected (digest_of content) ≡ false
      → get text_eq (H.hexdigest content) fs.targets ≡ none
      → publish pid content expected fs ≡ stage pid content fs
  unfolding publish
  publish-absent pid content expected fs fits absent = rw (fits, absent) refl

  -- Where there is no target, the first attempt or the second one stages the bytes.
  stage-retries :
      (pid : String) (content : List ℕ) (expected : Option String) (fs : Files)
      → is_mismatch expected (digest_of content) ≡ false
      → get text_eq (H.hexdigest content) fs.targets ≡ none
      → (publish pid content expected (stage pid content fs).0).1 ≡ ok (digest_of content)
  unfolding stage
  stage-retries pid content expected fs fits absent =
      let name = staged_name (H.hexdigest content) pid in
      elim (Bool-cases (member name fs.staged)) [
        | inl taken ↦
            let first : (stage pid content fs).0 ≡ unlink name fs = rw taken refl in
            ap (λ f. (publish pid content expected f).1) first
            ∙ ap (λ a. a.1) (publish-absent pid content expected (unlink name fs) fits absent)
            ∙ stage-free pid content (unlink name fs) (member-select name fs.staged)
        | inr free ↦
            let stored = put text_eq (H.hexdigest content) content fs.targets in
            let first : (stage pid content fs).0 ≡ unlink name (record fs { targets = stored }) =
              rw (free, eq_refl (H.hexdigest content)) refl in
            ap (λ f. (publish pid content expected f).1) first
            ∙ ap (λ a. a.1)
                (publish-found pid content expected (unlink name (record fs { targets = stored }))
                  fits (get-put_same text_eq eq_refl (H.hexdigest content) content fs.targets) refl)
      ]

  -- On files of which each has the digest that names it, when the expected digest is absent
  -- or that of the content, publishing the content a second time by the same process returns
  -- its digest, whether or not the first attempt failed on a staged file that was left over.
  pub publish-retries :
      (pid : String) (content : List ℕ) (expected : Option String) (fs : Files)
      → IsIntact (archive_of fs)
      → is_mismatch expected (digest_of content) ≡ false
      → (publish pid content expected (publish pid content expected fs).0).1
        ≡ ok (digest_of content)
  publish-retries pid content expected fs intact fits =
      elim (Option-cases (get text_eq (H.hexdigest content) fs.targets)) [
        | inl absent ↦
            ap (λ a. (publish pid content expected a.0).1)
              (publish-absent pid content expected fs fits absent)
            ∙ stage-retries pid content expected fs fits absent
        | inr (kept, found) ↦
            let same = intact (H.hexdigest content) kept found in
            let answer = publish-found pid content expected fs fits found same in
            ap (λ a. (publish pid content expected a.0).1) answer ∙ ap (λ a. a.1) answer
      ]
