-- ===== src/Install/Activate/Versioned.antt =====
-- The whole of `install_version` (src/install/activation.rs), cut short anywhere or complete.
use relswap.Base.{Bool, Option, none, inl, Result, map_err}
use relswap.Release.Error.{ReleaseError}
use relswap.Release.Manifest.{ReleaseManifest}
use relswap.Install.State.{InstallState, PendingActivation, release}
use relswap.Install.Host.{Host}
use relswap.Install.Disk.{Disk, World, lift, ◌>>=◌}
use relswap.Install.Disk.Triple.{Ends, Triple, Triple-bind, Triple-relax}
use relswap.Install.Verify.{ReleaseMetadata}
use relswap.Install.Manager.{DownloadedArchive, install_version}
use relswap.Install.Recovery.Keeps.{RecoverableAt, Settled}
use relswap.Install.Recovery.Managed.{recover_if_managed-Settled}
use relswap.Install.Health.{IsLawfulHost, At}
use relswap.Install.Activate.CrashSafe.{Between}
use relswap.Install.Activate.Written.{Triple-test}
use relswap.Install.Activate.Landed.{activate_download-Landed}
use relswap.Install.Activate.Landed.{Landed}
use relswap.Release.Target.{Target}
use relswap.Install.Verify.{require_target}
use relswap.Install.Manager.{activate_download}

module _ {V : Type 0} (h : Host V) (lawful : IsLawfulHost h)
    (same_manifest : ReleaseManifest V → ReleaseManifest V → Bool)
    (fetch : V → Result ReleaseError (ReleaseMetadata V))
    (download_archive : ReleaseMetadata V → Target → Result ReleaseError DownloadedArchive)
    (version : V) (pointer : Option V) where
  module _ (install : Option (InstallState V)) where
    abbrev Here : Disk → Type 0
    Here = At h install none pointer

    here : (d : Disk) → Here d → Between h pointer version d
    here d x = inl (install, none, x)

    asked :
        Triple Here
          (lift (map_err release (fetch version)) >>= λ metadata.
            lift (require_target h) >>= λ target.
            lift (map_err release (download_archive metadata target)) >>= λ archive.
            activate_download h same_manifest metadata archive version)
          (λ _. Landed h lawful pointer version)
          (Between h pointer version)
    asked = Triple-bind _ _ (Triple-test Here _ here (map_err release (fetch version))) (λ metadata.
        Triple-bind _ _ (Triple-test Here _ here (require_target h)) (λ target.
          Triple-bind _ _
            (Triple-test Here _ here (map_err release (download_archive metadata target)))
            (λ archive.
              activate_download-Landed h lawful version same_manifest metadata archive install
                pointer)))

  resumed :
      Triple
        (Settled h pointer)
        (lift (map_err release (fetch version)) >>= λ metadata.
          lift (require_target h) >>= λ target.
          lift (map_err release (download_archive metadata target)) >>= λ archive.
          activate_download h same_manifest metadata archive version)
        (λ _. Landed h lawful pointer version)
        (Between h pointer version)
  resumed = record { at = λ w x. (asked x.0).at w x.1 }

  whole :
      (install : Option (InstallState V)) (pending : Option (PendingActivation V))
      → Triple
          (At h install pending pointer)
          (install_version h same_manifest fetch download_archive version)
          (λ _. Landed h lawful pointer version)
          (Between h pointer version)
  unfolding install_version
  whole install pending =
      Triple-bind _ _
        (Triple-relax _ (recover_if_managed-Settled h lawful install pending pointer)
          (λ d x. inl x))
        (λ _. resumed)

  -- Installing an exact version is atomic: from every disk that a crash can leave, whatever the downloader
  -- answers and whichever call fails, it ends without a journal or it leaves a disk from which recovery can
  -- go on, and the pointer is where it was or at that version, which the state document names where it was
  -- newly activated.
  pub install_version-Landed :
      (w : World)
      → RecoverableAt h pointer w.disk
      → Ends
          (λ _. Landed h lawful pointer version)
          (Between h pointer version)
          (install_version h same_manifest fetch download_archive version w)
  install_version-Landed w (install, pending, x) = (whole install pending).at w x
