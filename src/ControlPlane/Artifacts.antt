-- ===== src/ControlPlane/Artifacts.antt =====
-- LocalArtifactStore of src/provable_agent_reference/control_plane/artifacts.py: content-addressed
-- files, published through a staging directory. The state is the two directories, the published
-- files by the hexadecimal digest that names them; a file gives back what was written to it, or the
-- read of it fails, as a `Disk` says. OSErrors in the middle of publish are left out. A call
-- returns the files and an answer, since a staged file is removed also where the call raises.
pub mod Archive
pub mod Published
pub mod Reading
use provable_agent_reference.Base.{
  get, put, ℕ, String, Bool, true, false, not, ◌&&◌, ◌||◌, ◌==◌, nat_eq, if◌then◌else◌, List, [],
  ◌∷◌, Option, none, some, ◌<>◌, count, member, strip_prefix,
}
use provable_agent_reference.Errors.{
  Result, ok, err, value_error, runtime_error, file_not_found, os_error, permission_error,
  index_error, require_that, ◌>>=◌, ◌>>◌,
}
use provable_agent_reference.Canonical.{Sha256, is_hex64}
use provable_agent_reference.ControlPlane.Table.{select}

pub record Files : Type 0 where
  pub targets : List (String × List ℕ)
  pub staged : List String

abbrev pub text_eq : String → String → Bool
text_eq s t = s == t

-- `expected_digest is not None and expected_digest != digest`
abbrev pub is_mismatch : Option String → String → Bool
is_mismatch none digest = false
is_mismatch (some expected) digest = not (expected == digest)

abbrev pub staged_name : String → String → String
staged_name hex_digest pid = hex_digest <> ("." <> (pid <> ".tmp"))

-- `staged.unlink(missing_ok=True)`
abbrev pub unlink : String → Files → Files
unlink name fs = record fs { staged = select (λ s. not (s == name)) fs.staged }

-- `digest.startswith("sha256:")` and the text behind the first colon
abbrev pub behind_colon : Option String → Result String
behind_colon none = err value_error "invalid sha256 digest"
behind_colon (some hex_digest) = ok hex_digest

abbrev pub present : Option (List ℕ) → Result (List ℕ)
present none = err file_not_found "No such file or directory"
present (some content) = ok content

-- An OSError of `path.read_bytes()`: PermissionError, which is one, or another.
pub data Fault : Type 0 where
  denied failed : Fault

abbrev pub os_exception : Fault → Result (List ℕ)
os_exception denied = err permission_error "Permission denied"
os_exception failed = err os_error "Input/output error"

-- What the operating system does to reads. The read of a published file may fail, by `fault`. A name
-- that is no hexadecimal digest leads to another path, of which `elsewhere` says what is there.
pub record Disk : Type 0 where
  pub fault : String → Option Fault
  pub elsewhere : String → Result (List ℕ)

abbrev pub reach : Option Fault → Option (List ℕ) → Result (List ℕ)
reach (some f) file = os_exception f
reach none file = present file

-- `path.read_bytes()`
abbrev pub read_bytes : Disk → String → Files → Result (List ℕ)
read_bytes disk name fs =
    if is_hex64 name
    then reach (disk.fault name) (get text_eq name fs.targets)
    else disk.elsewhere name

module _ ⦃H : Sha256⦄ where
  abbrev pub digest_of : List ℕ → String
  digest_of content = "sha256:" <> H.hexdigest content

  -- Where there is no target yet: stage the bytes, verify them and move them.
  unfoldable pub stage : String → List ℕ → Files → Files × Result String
  stage pid content fs =
      let hex_digest = H.hexdigest content in
      let name = staged_name hex_digest pid in
      if member name fs.staged
      then (unlink name fs, err os_error "File exists")
      else if H.hexdigest content == hex_digest
      then (
        unlink name (record fs { targets = put text_eq hex_digest content fs.targets }),
        ok (digest_of content),
      )
      else (unlink name fs, err runtime_error "staged artifact failed integrity verification")

  -- Where a file has the target's name already.
  abbrev pub publish_at : Option (List ℕ) → String → List ℕ → Files → Files × Result String
  publish_at none pid content fs = stage pid content fs
  publish_at (some existing) pid content fs = (
    fs,
    require_that (H.hexdigest existing == H.hexdigest content) runtime_error
          "existing artifact failed integrity verification"
        >> ok (digest_of content),
  )

  unfoldable pub publish : String → List ℕ → Option String → Files → Files × Result String
  publish pid content expected fs =
      let attempt = publish_at (get text_eq (H.hexdigest content) fs.targets) pid content fs in
      if is_mismatch expected (digest_of content)
      then (fs, err value_error "artifact digest mismatch")
      else attempt

  unfoldable pub read : Disk → String → Files → Result (List ℕ)
  read disk digest fs = do
    hex_digest ← behind_colon (strip_prefix "sha256:" digest)
    require_that (nat_eq (count digest) 71) value_error "invalid sha256 digest"
    content ← read_bytes disk hex_digest fs
    require_that (H.hexdigest content == hex_digest) runtime_error
        "artifact integrity verification failed"
    ok content
