-- ===== src/Tests/Rollback.antt =====
-- The theorems on recovery and rollback at a disk with two versions, whose activation of the newer one was
-- cut short after the pointer was switched.
use relswap.Base.{text, true, ◌≡◌, refl, none, some, [], ◌∷◌, ok, str_eq}
use relswap.Release.Target.{Target}
use relswap.Install.State.{VersionState, PendingActivation, validate_pending}
use relswap.Install.Disk.{FileNode, regular, VersionDir, Disk, World, succeeds, fails_after}
use relswap.Install.Disk.Triple.{Ends}
use relswap.Install.Journal.{put_pending, install_of, pending_of, read_json}
use relswap.Install.Pointer.{point_to, pointer_of}
use relswap.Install.Verify.{verify_contents}
use relswap.Install.Recovery.{recover_locked, recover_if_managed}
use relswap.Install.Recovery.Keeps.{RecoverableAt, Recovered}
use relswap.Install.Recovery.Locked.{recover_locked-Recovered}
use relswap.Install.Manager.{rollback_to, rollback}
use relswap.Install.Activate.Previous.{WentBack, NotAhead, rollback-WentBack}
use relswap.Install.Activate.RolledBack.{RolledBack, Halfway, rollback_to-RolledBack}
use relswap.Install.Health.{Verified, At}
use relswap.Install.Health.Frame.{Verified-same}
use relswap.Install.Health.Journaled.{At-put_pending, At-point_to}
use relswap.Tests.Sample.{Version, v1, v2, ext, host, host-IsLawfulHost, hash}
use relswap.Tests.Install.{formats, dir_1, disk, state}

abbrev dir_2 : VersionDir
dir_2 = record {
  is_directory = true;
  is_private = true;
  members =
      (text "demo", regular (text "bin"))
      ∷ (text "release.json", regular (text "manifest 2"))
      ∷ (text "release.signatures.json", regular (text "signatures"))
      ∷ (text "version.json", regular (text "state 2"))
      ∷ [];
}

abbrev pub disk_2 : Disk
disk_2 = record disk { versions = (text "1.0.0", dir_1) ∷ (text "2.0.0", dir_2) ∷ [] }

abbrev state_2 : VersionState Version Target
state_2 = record state { version = v2 }

contents_2 : verify_contents (host formats) dir_2.members none ≡ ok state_2
unfolding verify_contents str_eq relswap.Release.Manifest.validate_asset
    relswap.Release.Target.archive_name relswap.Release.Target.payload_path
contents_2 = refl

Verified-2 : Verified (host formats) v2 state_2 disk_2
unfolding relswap.Install.Host.version_name str_eq
Verified-2 = record {
  dir = dir_2;
  found = refl;
  real = refl;
  hidden = refl;
  contents = contents_2;
  named = refl;
}

pub fresh_disk_2 : At (host formats) none none none disk_2
unfolding install_of pending_of pointer_of read_json
fresh_disk_2 = record {
  laid_out = record {
    root_usable = refl;
    versions_usable = tt;
    staging_usable = tt;
    staged = refl;
  };
  install_read = refl;
  install_valid = tt;
  pending_read = refl;
  pending_valid = tt;
  pointer_read = refl;
  agree = refl;
}

abbrev pub journal_2 : PendingActivation Version
journal_2 = record { schema_version = 1; from = none; to = v2; transaction_id = hash }

journal_2_valid : validate_pending ext journal_2 ≡ ok tt
unfolding validate_pending
journal_2_valid = refl

abbrev pub switched : Disk
switched = point_to (host formats) v2 (put_pending (host formats) journal_2 disk_2)

same_put_2 : disk_2.versions ≡ (put_pending (host formats) journal_2 disk_2).versions
unfolding put_pending
same_put_2 = refl

pub At-switched : At (host formats) none (some journal_2) (some v2) switched
At-switched =
    At-point_to (host formats) (host-IsLawfulHost formats) journal_2
      (
        state_2,
        Verified-same (host formats) v2 state_2 disk_2 (put_pending (host formats) journal_2 disk_2)
            same_put_2 Verified-2,
        tt,
      )
      (At-put_pending (host formats) (host-IsLawfulHost formats) journal_2 journal_2_valid refl
        fresh_disk_2)

-- Recovery is cut short after some calls.
abbrev pub cut_short : World
cut_short = record {
  disk = switched;
  schedule =
      succeeds ∷ succeeds ∷ succeeds ∷ succeeds ∷ succeeds ∷ succeeds ∷ succeeds ∷ succeeds
      ∷ succeeds ∷ fails_after ∷ [];
  ids = [];
}

recover_locked-Recovered_example :
    Ends
      (λ _. Recovered (host formats) none (some journal_2) (some v2))
      (RecoverableAt (host formats) (some v2))
      (recover_locked (host formats) cut_short)
recover_locked-Recovered_example =
    recover_locked-Recovered (host formats) (host-IsLawfulHost formats) none (some journal_2)
      (some v2) cut_short At-switched

-- Recovery completes the activation, and the rollback that follows it completes too.
abbrev pub quiet : World
quiet = record { disk = switched; schedule = []; ids = hash ∷ [] }

rollback_to-RolledBack_example :
    Ends
      (λ _. RolledBack (host formats) (host-IsLawfulHost formats) v1 (some v2))
      (Halfway (host formats) (host-IsLawfulHost formats) v1 (some v2))
      (rollback_to (host formats) v1 quiet)
rollback_to-RolledBack_example =
    rollback_to-RolledBack (host formats) (host-IsLawfulHost formats) v1 (some v2) quiet
      (none, some journal_2, At-switched)

rollback_run :
    (rollback_to (host formats) v1 quiet).0 ≡ ok (record { version = v1; changed = true })
unfolding rollback_to point_to put_pending relswap.Release.Manifest.validate_asset
    relswap.Release.Target.archive_name relswap.Release.Target.payload_path
rollback_run = refl

-- The state document that recovery leaves.
abbrev recovered_file : FileNode
recovered_file = (recover_if_managed (host formats) quiet).1.disk.install

rollback-WentBack_example :
    Ends
      (λ _. WentBack (host formats) (host-IsLawfulHost formats) recovered_file (some v2))
      (NotAhead (host formats) (host-IsLawfulHost formats) recovered_file (some v2))
      (rollback (host formats) quiet)
rollback-WentBack_example =
    rollback-WentBack (host formats) (host-IsLawfulHost formats) (some v2) quiet
      (none, some journal_2, At-switched)
