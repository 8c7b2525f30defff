-- ===== src/Examples/Artifacts.antt =====
-- The theorems about the artifact store at a concrete content.
use provable_agent_reference.Base.{
  All, false, ◌+◌, ℕ, ◌≡◌, refl, String, List, [], ◌∷◌, ◌⊎◌, none, some,
}
use provable_agent_reference.Errors.{ok, err, file_not_found}
use provable_agent_reference.Canonical.Binding.{Collision}
use provable_agent_reference.ControlPlane.Artifacts.{
  Disk, denied, Files, digest_of, publish, stage, read,
}
use provable_agent_reference.ControlPlane.Artifacts.Archive.{
  IsIntact, archive_of, or_else, promised,
}
use provable_agent_reference.ControlPlane.Artifacts.Published.{publish-refines}
use provable_agent_reference.ControlPlane.Artifacts.Reading.{
  Publication, publish_all, publish-reads, publish-retries,
}
use provable_agent_reference.ControlPlane.ArtifactTable.{
  ArtifactRow, staged_row, claim_artifacts, candidates, finalize_artifact, retry_artifact,
}
use provable_agent_reference.ControlPlane.Reconciler.{run_once, reconcile, settle, handle}
use provable_agent_reference.ControlPlane.Reconciler.Verified.{IsSound, run_once-IsSound}
use provable_agent_reference.ControlPlane.Table.{select, order_by, place, update, rowcount}
use provable_agent_reference.Examples.Data.{toy, toy_digest}

-- A staging file of an earlier process is left over.
abbrev leftover : Files
leftover = record {
  targets = [];
  staged = "0123456789abcdef0123456789abcdef0123456789abcdef0123456789abcdef.7.tmp" ∷ [];
}

abbrev leftover-IsIntact : IsIntact (archive_of leftover)
leftover-IsIntact name content e = cc

abbrev nowhere : Disk
nowhere = record {
  fault = λ name. none;
  elsewhere = λ name. err file_not_found "No such file or directory";
}

-- Every read of a published file is refused.
abbrev refusing : Disk
refusing = record nowhere { fault = λ name. some denied }

abbrev odd_bytes : List ℕ
odd_bytes = 1 ∷ []

abbrev publication : Publication
publication = record { pid = "7"; content = odd_bytes; expected = none }

publish-refines_example :
    IsIntact (archive_of (publish "7" odd_bytes none leftover).0)
    × ((name : String)
        → archive_of (publish "7" odd_bytes none leftover).0 name
          ≡ promised (publish "7" odd_bytes none leftover).1 odd_bytes (archive_of leftover) name)
    × ((digest : String)
        → (publish "7" odd_bytes none leftover).1 ≡ ok digest
        → digest ≡ digest_of odd_bytes)
publish-refines_example = publish-refines "7" odd_bytes none leftover leftover-IsIntact

published : (publish "7" odd_bytes none leftover).1 ≡ ok (digest_of odd_bytes)
unfolding publish stage
published = refl

publish-reads_example :
    (kept : List ℕ) × (read nowhere
        (digest_of odd_bytes)
        (publish_all (publication ∷ []) (publish "7" odd_bytes none leftover).0)
      ≡ ok kept)
    × ((kept ≡ odd_bytes) ⊎ Collision toy kept odd_bytes)
    × (or_else (archive_of leftover (toy_digest odd_bytes)) odd_bytes ≡ some kept)
publish-reads_example =
    publish-reads nowhere publication (publication ∷ []) leftover (digest_of odd_bytes)
      leftover-IsIntact published refl

-- The first attempt fails on the leftover file, which it removes.
publish-retries_example :
    (publish "7" [] none (publish "7" [] none leftover).0).1 ≡ ok (digest_of [])
publish-retries_example = publish-retries "7" [] none leftover leftover-IsIntact refl

abbrev staged_artifact : ArtifactRow
staged_artifact = staged_row 1 (record {
  digest = digest_of odd_bytes;
  tenant_id = "tenant_demo";
  case_id = "case_demo";
  run_id = "run_demo";
  media_type = "text/plain";
  byte_length = 1;
  storage_key = "key_1";
})

abbrev stored : Files
stored = (publish "8" odd_bytes none leftover).0

staged-IsSound : IsSound nowhere stored (λ digest. 1) staged_artifact
staged-IsSound = (refl, λ k. cc)

abbrev ticking : ℕ → ℕ
ticking n = n + 10

reconciled :
    (run_once "worker" ticking nowhere stored (λ digest. false) 5 (staged_artifact ∷ [])).1
    ≡ ok (record { available = 1; unavailable = 0; retried = 0 })
unfolding run_once reconcile settle claim_artifacts candidates finalize_artifact publish stage read
    select order_by place update rowcount
reconciled = refl

postponed_once :
    (run_once "worker" ticking refusing stored (λ digest. false) 5 (staged_artifact ∷ [])).1
    ≡ ok (record { available = 0; unavailable = 0; retried = 1 })
unfolding run_once reconcile settle handle claim_artifacts candidates retry_artifact publish stage
    read select order_by place update rowcount
postponed_once = refl

run_once-IsSound_example :
    All
      (IsSound nowhere stored (λ digest. 1))
      (run_once "worker" ticking nowhere stored (λ digest. false) 5 (staged_artifact ∷ [])).0
run_once-IsSound_example =
    run_once-IsSound nowhere stored (λ digest. 1) "worker" ticking (λ digest. false) 5
      (staged_artifact ∷ []) (staged-IsSound, tt)
