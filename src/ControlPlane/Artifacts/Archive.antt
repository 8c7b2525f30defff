-- ===== src/ControlPlane/Artifacts/Archive.antt =====
-- The artifact store as an archive: contents by digest, of which none ever changes.
use mathlib.Core.Option.{some-injective}
use text.Mathlib.TextEquality.{eq_iff}
use text.Mathlib.TextPositions.{eq_refl}
use provable_agent_reference.Base.{
  get, put, get-put_same, get-put_other, ℕ, ◌≡◌, refl, sym, ap, ◌∙◌, String, true, ◌==◌,
  if◌then◌else◌, List, Option, none, some, Option-cases, Bool-cases, inl, inr, member,
}
use provable_agent_reference.Errors.{Result, ok, err}
use provable_agent_reference.Canonical.{Sha256}
use provable_agent_reference.ControlPlane.Artifacts.{Files, text_eq, staged_name, stage}

-- The content of each hexadecimal digest.
abbrev pub Archive : Type 0
Archive = String → Option (List ℕ)

abbrev pub archive_of : Files → Archive
archive_of fs hex_digest = get text_eq hex_digest fs.targets

abbrev pub or_else : Option (List ℕ) → List ℕ → Option (List ℕ)
or_else none content = some content
or_else (some kept) content = some kept

text_eq_trans : (i j k : String) → text_eq i j ≡ true → text_eq k j ≡ true → text_eq i k ≡ true
text_eq_trans i j k e f = (eq_iff i k).1 ((eq_iff i j).0 e ∙ sym ((eq_iff k j).0 f))

module _ ⦃H : Sha256⦄ where
  -- A content is archived under its digest, unless the digest has one.
  abbrev pub add : List ℕ → Archive → Archive
  add content archive hex_digest =
      if hex_digest == H.hexdigest content
      then or_else (archive hex_digest) content
      else archive hex_digest

  -- What an answer promises.
  abbrev pub promised : Result String → List ℕ → Archive → Archive
  promised (ok digest) content archive = add content archive
  promised (err e m) content archive = archive

  -- Every file has the digest that names it.
  abbrev pub IsIntact : Archive → Type 0
  IsIntact archive =
      (hex_digest : String) (content : List ℕ)
      → archive hex_digest ≡ some content
      → H.hexdigest content ≡ hex_digest

  pub add-IsIntact :
      (content : List ℕ) (archive : Archive) → IsIntact archive → IsIntact (add content archive)
  add-IsIntact content archive intact name found e =
      elim (Bool-cases (name == H.hexdigest content)) [
        | inr out ↦
            intact name found
              (sym (ap (λ b. if b then or_else (archive name) content else archive name) out) ∙ e)
        | inl same ↦
            let here : or_else (archive name) content ≡ some found =
              sym (ap (λ b. if b then or_else (archive name) content else archive name) same) ∙ e in
            elim (Option-cases (archive name)) [
              | inl absent ↦
                  let own : some content ≡ some found =
                    sym (ap (λ o. or_else o content) absent) ∙ here in
                  ap H.hexdigest (sym (some-injective content found own))
                  ∙ sym ((eq_iff name (H.hexdigest content)).0 same)
              | inr (kept, old) ↦
                  intact name found (old ∙ (sym (ap (λ o. or_else o content) old) ∙ here))
            ]
      ]

  -- The archive after a new file.
  put-add :
      (content : List ℕ) (fs : Files) (name : String)
      → get text_eq (H.hexdigest content) fs.targets ≡ none
      → get text_eq name (put text_eq (H.hexdigest content) content fs.targets)
        ≡ add content (archive_of fs) name
  put-add content fs name absent = elim (Bool-cases (name == H.hexdigest content)) [
    | inl same ↦
        let own = (eq_iff name (H.hexdigest content)).0 same in
        let free : get text_eq name fs.targets ≡ none =
          ap (λ n. get text_eq n fs.targets) own ∙ absent in
        ap (λ n. get text_eq n (put text_eq (H.hexdigest content) content fs.targets)) own
        ∙ get-put_same text_eq eq_refl (H.hexdigest content) content fs.targets
        ∙ sym (
            ap (λ b. if b then or_else (archive_of fs name) content else archive_of fs name) same
            ∙ ap (λ o. or_else o content) free)
    | inr out ↦
        get-put_other text_eq text_eq_trans name (H.hexdigest content) content fs.targets out
        ∙ sym (ap (λ b. if b then or_else (archive_of fs name) content else archive_of fs name) out)
  ]

  -- An archive that has the digest is not changed by adding the content.
  pub add-kept :
      (content : List ℕ) (archive : Archive) (name : String) {kept : List ℕ}
      → archive (H.hexdigest content) ≡ some kept
      → archive name ≡ add content archive name
  add-kept content archive name found = elim (Bool-cases (name == H.hexdigest content)) [
    | inl same ↦
        let here = ap archive ((eq_iff name (H.hexdigest content)).0 same) ∙ found in
        here
        ∙ sym (
            ap (λ b. if b then or_else (archive name) content else archive name) same
            ∙ ap (λ o. or_else o content) here)
    | inr out ↦ sym (ap (λ b. if b then or_else (archive name) content else archive name) out)
  ]

  pub stage-promised :
      (pid : String) (content : List ℕ) (fs : Files) (name : String)
      → get text_eq (H.hexdigest content) fs.targets ≡ none
      → archive_of (stage pid content fs).0 name
        ≡ promised (stage pid content fs).1 content (archive_of fs) name
  unfolding stage
  stage-promised pid content fs name absent =
      elim (Bool-cases (member (staged_name (H.hexdigest content) pid) fs.staged)) [
        | inl taken ↦ rw taken refl
        | inr free ↦ rw (free, eq_refl (H.hexdigest content)) (put-add content fs name absent)
      ]
