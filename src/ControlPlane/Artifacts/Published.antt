-- ===== src/ControlPlane/Artifacts/Published.antt =====
-- What publishing does to the archive, and what reading gives back.
use text.Mathlib.TextEquality.{eq_iff}
use text.Mathlib.TextPositions.{eq_refl}
use provable_agent_reference.Base.{
  ℕ, ◌≡◌, refl, sym, ◌∙◌, String, false, not, ◌==◌, List, [], ◌∷◌, Option, none, some, Option-cases,
  Bool-cases, inl, inr, arith, member, get,
}
use provable_agent_reference.Errors.{
  Result, ok, err, value_error, runtime_error, os_error, >>-eq-ok, ok-injective, require_that,
}
use provable_agent_reference.Canonical.{Sha256}
use provable_agent_reference.ControlPlane.Table.{select}
use provable_agent_reference.ControlPlane.Artifacts.{
  Files, text_eq, is_mismatch, staged_name, digest_of, stage, publish_at, publish,
}
use provable_agent_reference.ControlPlane.Artifacts.Archive.{
  Archive, archive_of, promised, IsIntact, add-IsIntact, add-kept, stage-promised,
}

pub member-select :
    (name : String) (names : List String)
    → member name (select (λ s. not (s == name)) names) ≡ false
unfolding select
member-select name [] = refl
member-select name (s ∷ names) = elim (Bool-cases (s == name)) [
  | inl same ↦ rw same (member-select name names)
  | inr apart ↦
      let other : (name == s) ≡ false = ground (arith, eq_iff name s, eq_iff s name) in
      rw (apart, other) (member-select name names)
]

module _ ⦃H : Sha256⦄ where
  -- One call, in the terms of the archive.
  publish-promised :
      (pid : String) (content : List ℕ) (expected : Option String) (fs : Files) (name : String)
      → archive_of (publish pid content expected fs).0 name
        ≡ promised (publish pid content expected fs).1 content (archive_of fs) name
  unfolding publish
  publish-promised pid content expected fs name =
      elim (Bool-cases (is_mismatch expected (digest_of content))) [
        | inl refused ↦ rw refused refl
        | inr fits ↦ elim (Option-cases (get text_eq (H.hexdigest content) fs.targets)) [
          | inl absent ↦ rw (fits, absent) (stage-promised pid content fs name absent)
          | inr (existing, found) ↦
              elim (Bool-cases (H.hexdigest existing == H.hexdigest content)) [
                | inl same ↦ rw (fits, found, same) (add-kept content (archive_of fs) name found)
                | inr apart ↦ rw (fits, found, apart) refl
              ]
        ]
      ]

  promised-IsIntact :
      (answer : Result String) (content : List ℕ) (archive : Archive)
      → IsIntact archive
      → IsIntact (promised answer content archive)
  promised-IsIntact (ok digest) content archive intact = add-IsIntact content archive intact
  promised-IsIntact (err e m) content archive intact = intact

  pub stage-free :
      (pid : String) (content : List ℕ) (fs : Files)
      → member (staged_name (H.hexdigest content) pid) fs.staged ≡ false
      → (stage pid content fs).1 ≡ ok (digest_of content)
  unfolding stage
  stage-free pid content fs free = rw (free, eq_refl (H.hexdigest content)) refl

  stage-answer :
      (pid : String) (content : List ℕ) (fs : Files) (digest : String)
      → (stage pid content fs).1 ≡ ok digest
      → digest ≡ digest_of content
  unfolding stage
  stage-answer pid content fs digest e =
      elim (Bool-cases (member (staged_name (H.hexdigest content) pid) fs.staged)) [
        | inl taken ↦
            let failed : (stage pid content fs).1 ≡ err os_error "File exists" = rw taken refl in
            let clash : err os_error "File exists" ≡ ok digest = sym failed ∙ e in cc
        | inr free ↦ ok-injective (sym e ∙ stage-free pid content fs free)
      ]

  publish_at-answer :
      (pid : String) (content : List ℕ) (fs : Files) (digest : String) (o : Option (List ℕ))
      → (publish_at o pid content fs).1 ≡ ok digest
      → digest ≡ digest_of content
  publish_at-answer pid content fs digest none e = stage-answer pid content fs digest e
  publish_at-answer pid content fs digest (some existing) e =
      let (_, same) =
        >>-eq-ok
          (require_that (H.hexdigest existing == H.hexdigest content) runtime_error
            "existing artifact failed integrity verification")
          _ e in
      sym (ok-injective same)

  publish-answer :
      (pid : String) (content : List ℕ) (expected : Option String) (fs : Files) (digest : String)
      → (publish pid content expected fs).1 ≡ ok digest
      → digest ≡ digest_of content
  unfolding publish
  publish-answer pid content expected fs digest e =
      elim (Bool-cases (is_mismatch expected (digest_of content))) [
        | inl refused ↦
            let failed : (publish pid content expected fs).1
                ≡ err value_error "artifact digest mismatch" =
              rw refused refl in
            let clash : err value_error "artifact digest mismatch" ≡ ok digest = sym failed ∙ e in
            cc
        | inr fits ↦
            publish_at-answer pid content fs digest (get text_eq (H.hexdigest content) fs.targets)
              (sym (rw fits refl) ∙ e)
      ]

  -- On files of which each has the digest that names it, a call of publish keeps this; when
  -- it returns, the archive of the files by digest is the one before with the content added
  -- under its digest unless that has one, and when it raises, the archive is the one before;
  -- and what it returns is the content's digest.
  pub publish-refines :
      (pid : String) (content : List ℕ) (expected : Option String) (fs : Files)
      → IsIntact (archive_of fs)
      → IsIntact (archive_of (publish pid content expected fs).0)
        × ((name : String)
            → archive_of (publish pid content expected fs).0 name
              ≡ promised (publish pid content expected fs).1 content (archive_of fs) name)
        × ((digest : String)
            → (publish pid content expected fs).1 ≡ ok digest
            → digest ≡ digest_of content)
  publish-refines pid content expected fs intact = (
    λ name found e.
        promised-IsIntact (publish pid content expected fs).1 content (archive_of fs) intact name
          found (sym (publish-promised pid content expected fs name) ∙ e),
    publish-promised pid content expected fs,
    publish-answer pid content expected fs,
  )
