-- ===== src/Tests/Install.antt =====
-- The theorems on the installation at concrete disks.
use relswap.Base.{text, true, ◌≡◌, refl, none, some, [], ◌∷◌, ok, str_eq}
use relswap.Release.Target.{Target, x86_64_unknown_linux_gnu}
use relswap.Release.Archive.Tar.{file}
use relswap.Release.Archive.Inspect.{Formats}
use relswap.Install.State.{VersionState}
use relswap.Install.Host.{Host}
use relswap.Install.Disk.{
  absent, regular, directory, vacant, VersionDir, Disk, World, succeeds, fails_after,
}
use relswap.Install.Disk.Triple.{Ends}
use relswap.Install.Journal.{install_of, pending_of, read_json}
use relswap.Install.Pointer.{pointer_of}
use relswap.Install.Verify.{verify_contents}
use relswap.Install.Activate.{activate_pointer_and_state}
use relswap.Install.Activate.CrashSafe.{IsPrepared, Activated, activate-Recoverable}
use relswap.Install.Health.{Verified, At, Recoverable}
use relswap.Tests.Sample.{Version, v1, host, host-IsLawfulHost, hash}
use relswap.Install.State.{PendingActivation, validate_pending}
use relswap.Install.Disk.Runs.{Returns}
use relswap.Install.Journal.{put_pending}
use relswap.Install.Pointer.{point_to}
use relswap.Install.Recovery.{recover_pending}
use relswap.Install.Recovery.Completes.{Finished, recover_pending-Finished}
use relswap.Install.Health.Frame.{Verified-same}
use relswap.Install.Health.Journaled.{At-put_pending, At-point_to}
use relswap.Tests.Sample.{ext}

abbrev pub formats : Formats
formats = record {
  gunzip = λ s. (s, true);
  tar_header = λ s. record { kind = file; size = none; path = []; cksum = none; mode = none };
  zip_entries = λ s. none;
}

abbrev pub dir_1 : VersionDir
dir_1 = record {
  is_directory = true;
  is_private = true;
  members =
      (text "demo", regular (text "bin"))
      ∷ (text "release.json", regular (text "manifest 1"))
      ∷ (text "release.signatures.json", regular (text "signatures"))
      ∷ (text "version.json", regular (text "state 1"))
      ∷ [];
}

abbrev pub disk : Disk
disk = record {
  root = directory true;
  versions_dir = directory true;
  staging_dir = directory true;
  command_parent = directory true;
  command = vacant;
  install = absent;
  pending = absent;
  lock = regular [];
  versions = (text "1.0.0", dir_1) ∷ [];
  staging = [];
}

abbrev pub state : VersionState Version Target
state = record {
  schema_version = 1;
  version = v1;
  target = x86_64_unknown_linux_gnu;
  binary_sha256 = hash;
  size = 3;
  installation_id = hash;
  launcher = none;
}

pub contents_run : verify_contents (host formats) dir_1.members none ≡ ok state
unfolding verify_contents str_eq relswap.Release.Manifest.validate_asset
    relswap.Release.Target.archive_name relswap.Release.Target.payload_path
contents_run = refl

Verified-1 : Verified (host formats) v1 state disk
unfolding relswap.Install.Host.version_name str_eq
Verified-1 = record {
  dir = dir_1;
  found = refl;
  real = refl;
  hidden = refl;
  contents = contents_run;
  named = refl;
}

fresh_disk : At (host formats) none none none disk
unfolding install_of pending_of pointer_of read_json
fresh_disk = record {
  laid_out = record {
    root_usable = refl;
    versions_usable = tt;
    staging_usable = tt;
    staged = refl;
  };
  install_read = refl;
  install_valid = tt;
  pending_read = refl;
  pending_valid = tt;
  pointer_read = refl;
  agree = refl;
}

IsPrepared-1 : IsPrepared (host formats) v1 hash disk
IsPrepared-1 = record { state = state; verified = Verified-1; owned = refl }

-- The pointer is switched and the switch is not made durable.
abbrev crashing : World
crashing = record {
  disk = disk;
  schedule = succeeds ∷ succeeds ∷ succeeds ∷ succeeds ∷ fails_after ∷ [];
  ids = hash ∷ [];
}

activate-Recoverable_example :
    Ends
      (λ _. Activated (host formats) (host-IsLawfulHost formats) none none v1 hash tt)
      (Recoverable (host formats))
      (activate_pointer_and_state (host formats) none v1 hash none none crashing)
activate-Recoverable_example =
    activate-Recoverable (host formats) (host-IsLawfulHost formats) none none v1 hash tt none none
      crashing (fresh_disk, IsPrepared-1)

abbrev journal_1 : PendingActivation Version
journal_1 = record { schema_version = 1; from = none; to = v1; transaction_id = hash }

journal_valid : validate_pending ext journal_1 ≡ ok tt
unfolding validate_pending
journal_valid = refl

-- The pointer was switched and nothing more.
abbrev switched_disk : Disk
switched_disk = point_to (host formats) v1 (put_pending (host formats) journal_1 disk)

same_put : disk.versions ≡ (put_pending (host formats) journal_1 disk).versions
unfolding put_pending
same_put = refl

pub At-switched_disk : At (host formats) none (some journal_1) (some v1) switched_disk
At-switched_disk =
    At-point_to (host formats) (host-IsLawfulHost formats) journal_1
      (
        state,
        Verified-same (host formats) v1 state disk (put_pending (host formats) journal_1 disk)
            same_put Verified-1,
        tt,
      )
      (At-put_pending (host formats) (host-IsLawfulHost formats) journal_1 journal_valid refl
        fresh_disk)

abbrev restarted : World
restarted = record { disk = switched_disk; schedule = []; ids = [] }

recover_pending-Finished_example :
    Returns
      (λ _.
        Finished
          (host formats)
          (host-IsLawfulHost formats)
          (λ point. refl)
          none
          journal_1
          (some v1))
      (λ d. ⊥)
      (recover_pending (host formats) journal_1 none (some v1) restarted)
recover_pending-Finished_example =
    recover_pending-Finished (host formats) (host-IsLawfulHost formats) (λ point. refl) none
      journal_1 (some v1) restarted refl At-switched_disk
