-- ===== src/Tests/Update.antt =====
-- The theorem on updates at a disk whose activation of the older version was cut short after the pointer
-- was switched, and where the newer version is retained.
use relswap.Base.{text, true, ◌≡◌, refl, none, some, [], ◌∷◌, ok, str_eq}
use relswap.Release.Target.{x86_64_unknown_linux_gnu}
use relswap.Release.Manifest.{ReleaseManifest}
use relswap.Install.State.{PendingActivation, validate_pending}
use relswap.Install.Disk.{Disk, World}
use relswap.Install.Disk.Triple.{Ends}
use relswap.Install.Journal.{put_pending}
use relswap.Install.Pointer.{point_to}
use relswap.Install.Verify.{ReleaseMetadata}
use relswap.Install.Manager.{DownloadedArchive, install_version, update}
use relswap.Install.Activate.CrashSafe.{Between}
use relswap.Install.Activate.Landed.{Landed}
use relswap.Install.Activate.Versioned.{install_version-Landed}
use relswap.Install.Activate.Updated.{Updated, Interrupted, update-Updated}
use relswap.Install.Health.{Verified, At}
use relswap.Install.Health.Frame.{Verified-same}
use relswap.Install.Health.Journaled.{At-put_pending, At-point_to}
use relswap.Tests.Sample.{Version, v1, v2, ext, host, host-IsLawfulHost, hash, asset_2}
use relswap.Tests.Install.{formats, dir_1, state, contents_run}
use relswap.Tests.Rollback.{disk_2, fresh_disk_2}

Verified-older : Verified (host formats) v1 state disk_2
unfolding relswap.Install.Host.version_name str_eq
Verified-older = record {
  dir = dir_1;
  found = refl;
  real = refl;
  hidden = refl;
  contents = contents_run;
  named = refl;
}

abbrev journal : PendingActivation Version
journal = record { schema_version = 1; from = none; to = v1; transaction_id = hash }

journal_valid : validate_pending ext journal ≡ ok tt
unfolding validate_pending
journal_valid = refl

abbrev switched : Disk
switched = point_to (host formats) v1 (put_pending (host formats) journal disk_2)

same_put : disk_2.versions ≡ (put_pending (host formats) journal disk_2).versions
unfolding put_pending
same_put = refl

At-switched : At (host formats) none (some journal) (some v1) switched
At-switched =
    At-point_to (host formats) (host-IsLawfulHost formats) journal
      (
        state,
        Verified-same (host formats) v1 state disk_2 (put_pending (host formats) journal disk_2)
            same_put Verified-older,
        tt,
      )
      (At-put_pending (host formats) (host-IsLawfulHost formats) journal journal_valid refl
        fresh_disk_2)

abbrev manifest_2 : ReleaseManifest Version
manifest_2 = record {
  schema_version = 2;
  version = v2;
  published_at = text "2026-01-01T00:00:00Z";
  expires_at = text "2027-01-01T00:00:00Z";
  targets = (x86_64_unknown_linux_gnu, asset_2) ∷ [];
}

abbrev metadata_2 : ReleaseMetadata Version
metadata_2 = record {
  version = v2;
  manifest_bytes = text "manifest 2";
  manifest = manifest_2;
  signature_bytes = text "signatures";
  verified_signature = record { key_id = text "release" };
}

abbrev archive_2 : DownloadedArchive
archive_2 = record {
  target = x86_64_unknown_linux_gnu;
  name = asset_2.archive;
  bytes = text "0123456789";
}

abbrev quiet : World
quiet = record { disk = switched; schedule = []; ids = hash ∷ [] }

update-Updated_example :
    Ends
      (λ _.
        Updated
          (host formats)
          (host-IsLawfulHost formats)
          (λ a b. true)
          metadata_2
          (λ m. ok archive_2)
          (some v1))
      (Interrupted
        (host formats)
        (host-IsLawfulHost formats)
        (λ a b. true)
        metadata_2
        (λ m. ok archive_2)
        (some v1))
      (update (host formats) (λ a b. true) (ok metadata_2) (λ m. ok archive_2) quiet)
update-Updated_example =
    update-Updated (host formats) (host-IsLawfulHost formats) (λ a b. true) metadata_2
      (λ m. ok archive_2) (some v1) quiet (none, some journal, At-switched)

install_version-Landed_example :
    Ends
      (λ _. Landed (host formats) (host-IsLawfulHost formats) (some v1) v2)
      (Between (host formats) (some v1) v2)
      (install_version
        (host formats)
        (λ a b. true)
        (λ v. ok metadata_2)
        (λ m t. ok archive_2)
        v2
        quiet)
install_version-Landed_example =
    install_version-Landed (host formats) (host-IsLawfulHost formats) (λ a b. true)
      (λ v. ok metadata_2) (λ m t. ok archive_2) v2 (some v1) quiet
      (none, some journal, At-switched)

-- The update completes.
update_run :
    (update (host formats) (λ a b. true) (ok metadata_2) (λ m. ok archive_2) quiet).0
    ≡ ok (record { version = v2; changed = true })
unfolding update point_to put_pending relswap.Release.Manifest.validate_asset
    relswap.Release.Target.archive_name relswap.Release.Target.payload_path
update_run = refl
