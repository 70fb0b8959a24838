-- ===== src/Install/Activate/Landed.antt =====
-- The whole of `activate_download` (src/install/activation.rs), cut short or complete.
use relswap.Base.{
  Bool, true, not, ◌&&◌, Option, none, some, ◌⊎◌, ok, inl, inr, Bool-cases, reject_if,
}
use relswap.External.{version_eq, version_le}
use relswap.Release.Target.{Target, target_eq}
use relswap.Release.Manifest.{ReleaseManifest}
use relswap.Install.State.{InstallState, invalid}
use relswap.Install.Host.{Host}
use relswap.Install.Disk.{Disk, lift, inspect, command_exists, file_exists, root_slot, ◌>>=◌, ◌>>◌}
use relswap.Install.Disk.Triple.{
  Triple, Triple-pure, Triple-raise, Triple-bind, Triple-weaken, Triple-relax,
}
use relswap.Install.Journal.{install_of}
use relswap.Install.Pointer.{pointer_of}
use relswap.Install.Verify.{ReleaseMetadata, verify_metadata, require_target}
use relswap.Install.Manager.{
  DownloadedArchive, reactivate, activate_new, activate_over, activate_download_locked,
  activate_download,
}
use relswap.Install.Recovery.{open_lock}
use relswap.Install.Recovery.Locked.{checked}
use relswap.Install.Recovery.Managed.{Triple-open_lock, At-make_lock, recover_if_managed-Settled}
use relswap.Install.Recovery.Keeps.{Settled}
use relswap.Install.Health.{IsLawfulHost, At}
use relswap.Install.Health.Frame.{At-make_slot, At-make_version_dir}
use relswap.Install.Health.Rules.{Triple-verify, Triple-known}
use relswap.Install.Activate.CrashSafe.{Between, NowAt}
use relswap.Install.Activate.Rollback.{Triple-command_owned}
use relswap.Install.Activate.Written.{Triple-look, Triple-test}
use relswap.Install.Activate.Installed.{activate_new-Between}

module _ {V : Type 0} (h : Host V) (lawful : IsLawfulHost h) (pointer : Option V)
    (version : V) where
  -- The pointer is where it was, or at the version, and then the state document says so.
  abbrev pub Landed : Disk → Type 0
  Landed d = Settled h pointer d ⊎ NowAt h pointer version d

  abbrev Cut : Disk → Type 0
  Cut = Between h pointer version

  module _ (install : Option (InstallState V)) where
    abbrev Still : Disk → Type 0
    Still = At h install none pointer

    weak : (d : Disk) → Still d → Cut d
    weak d x = inl (install, none, x)

    again :
        (metadata : ReleaseMetadata V) (active : V)
        → Triple Still (reactivate h metadata version active install) (λ _. Landed) Cut
    unfolding reactivate
    again metadata active = elim (Bool-cases (version_eq h.ext version active)) [
      | inr f ↦ rw f (Triple-raise _ weak)
      | inl t ↦ rw t (
          Triple-bind _ _
            (Triple-weaken _
              (Triple-verify h Still Cut weak active _
                (λ name d x free. At-make_version_dir h x name free))
              (λ d x. x) (λ _ d x. x.0))
            (λ _. Triple-bind _ _ (Triple-look Still Cut weak _) (λ _.
              Triple-bind _ _
                (Triple-command_owned h Still Cut weak
                  (λ name d x free. At-make_version_dir h x name free) (some active) install)
                (λ _. Triple-pure _ (λ d x. inl (install, x))))))
    ]

  module _ (same_manifest : ReleaseManifest V → ReleaseManifest V → Bool)
      (metadata : ReleaseMetadata V) (archive : DownloadedArchive) where
    fresh :
        (target : Target) (install : Option (InstallState V))
        → Triple
            (At h install none pointer)
            (activate_new h same_manifest metadata archive version target install pointer)
            (λ _. Landed)
            Cut
    fresh target install =
        Triple-weaken _
          (activate_new-Between h lawful pointer version same_manifest metadata archive target
            install)
          (λ d x. x) (λ _ d x. inr x)

module _ {V : Type 0} (h : Host V) (lawful : IsLawfulHost h) (version : V)
    (same_manifest : ReleaseManifest V → ReleaseManifest V → Bool) (metadata : ReleaseMetadata V)
    (archive : DownloadedArchive) where
  over :
      (target : Target) (install : Option (InstallState V)) (pointer : Option V)
      → Triple
          (At h install none pointer)
          (activate_over h same_manifest metadata archive version target install pointer)
          (λ _. Landed h lawful pointer version)
          (Between h pointer version)
  unfolding activate_over
  over target none pointer =
      fresh h lawful pointer version same_manifest metadata archive target none
  over target (some i) none =
      fresh h lawful none version same_manifest metadata archive target (some i)
  over target (some i) (some active) = elim (Bool-cases (version_le h.ext version active)) [
    | inl t ↦ rw t (again h lawful (some active) version (some i) metadata active)
    | inr f ↦
        rw f (fresh h lawful (some active) version same_manifest metadata archive target (some i))
  ]

  module _ (install : Option (InstallState V)) (pointer : Option V) where
    abbrev Here : Disk → Type 0
    Here = At h install none pointer

    abbrev Lost : Disk → Type 0
    Lost = Between h pointer version

    lost : (d : Disk) → Here d → Lost d
    lost d x = inl (install, none, x)

    locked :
        Triple Here
          (activate_download_locked h same_manifest metadata archive version)
          (λ _. Landed h lawful pointer version)
          Lost
    unfolding activate_download_locked
    locked = Triple-bind _ _ (Triple-test Here Lost lost (require_target h)) (λ target.
        Triple-bind _ _
          (Triple-test Here Lost lost (
            reject_if (not (target_eq archive.target target))
              (invalid "downloaded archive target differs from current target")))
          (λ _.
            Triple-bind _ _
              (Triple-test Here Lost lost (
                reject_if (not (version_eq h.ext metadata.version version))
                  (invalid "downloaded metadata version differs from requested version")))
              (λ _.
                Triple-bind _ _
                  (Triple-test Here Lost lost (verify_metadata h same_manifest metadata target))
                  (λ _.
                    Triple-known Here Lost lost (λ d. install_of h d.install) install _
                      (λ d x. x.install_read)
                      (Triple-bind _ _ (checked h lawful install Here Lost lost) (λ _.
                        Triple-known Here Lost lost (λ d. pointer_of h d.command) pointer _
                          (λ d x. x.pointer_read) (over target install pointer)))))))

    after_lock :
        Triple Here
          (inspect (λ d. ok (command_exists d.command && not (file_exists d.install)))
            >>= λ unowned.
                lift (reject_if unowned (invalid "refusing to replace existing unmanaged command"))
                >> (open_lock h true
                    >> activate_download_locked h same_manifest metadata archive version))
          (λ _. Landed h lawful pointer version)
          Lost
    after_lock = Triple-bind _ _ (Triple-look Here Lost lost _) (λ unowned.
        Triple-bind _ _ (Triple-test Here Lost lost _) (λ _.
          Triple-bind _ _
            (Triple-open_lock h Here Lost lost true (λ d x. At-make_slot h x root_slot)
              (λ d x. At-make_lock h install none pointer d x))
            (λ _. locked)))

  resumed :
      (pointer : Option V)
      → Triple
          (Settled h pointer)
          (inspect (λ d. ok (command_exists d.command && not (file_exists d.install)))
            >>= λ unowned.
                lift (reject_if unowned (invalid "refusing to replace existing unmanaged command"))
                >> (open_lock h true
                    >> activate_download_locked h same_manifest metadata archive version))
          (λ _. Landed h lawful pointer version)
          (Between h pointer version)
  resumed pointer = record { at = λ w x. (after_lock x.0 pointer).at w x.1 }

  -- Activating a download from a disk without a journal.
  pub activate_download-Landed :
      (install : Option (InstallState V)) (pointer : Option V)
      → Triple
          (At h install none pointer)
          (activate_download h same_manifest metadata archive version)
          (λ _. Landed h lawful pointer version)
          (Between h pointer version)
  unfolding activate_download
  activate_download-Landed install pointer =
      Triple-bind _ _
        (Triple-relax _ (recover_if_managed-Settled h lawful install none pointer) (λ d x. inl x))
        (λ _. resumed pointer)
