-- ===== src/Install/Activate/Download.antt =====
-- Activating a download (`activate_download_locked` in src/install/activation.rs), cut short or complete.
use relswap.Base.{
  Str, Bool, true, false, ◌≡◌, refl, Option, none, some, Result, ok, arith, lookup, is_some,
}
use relswap.Release.Target.{Target}
use relswap.Release.Manifest.{ReleaseManifest}
use relswap.Install.State.{
  InstallError, InstallState, VersionState, payload_written, verified, staging_synced,
  version_renamed,
}
use relswap.Install.Host.{Host, version_name}
use relswap.Install.Disk.{Disk, VersionDir}
use relswap.Install.Disk.Triple.{
  Triple, Triple-pure, Triple-raise, Triple-effect, Triple-bind, Triple-fault,
}
use relswap.Install.Staging.{move_version, create_new, rename_version, sync_staging_transaction}
use relswap.Install.Verify.{ReleaseMetadata}
use relswap.Install.Manager.{DownloadedArchive, prepare_version}
use relswap.Install.Health.{At}
use relswap.Install.Health.Frame.{At-make_version_dir}
use relswap.Install.Health.Rules.{Triple-read, Triple-sync}
use relswap.Install.Activate.CrashSafe.{IsPrepared}
use relswap.Install.Activate.Prepared.{Triple-IsPrepared}
use relswap.Install.Activate.Staged.{Working, At-move, IsPrepared-move}
use relswap.Install.Activate.Written.{
  Triple-look, Triple-test, Triple-create_transaction, Triple-write_downloaded, IsChecked,
  Triple-verify_staged,
}

module _ {V : Type 0} (h : Host V) (install : Option (InstallState V)) (pointer : Option V)
    (E : Disk → Type 0) (weak : (d : Disk) → At h install none pointer d → E d) (version : V)
    (owner : Str) where
  abbrev Held : Disk → Type 0
  Held = At h install none pointer

  abbrev Loaded : Disk → Type 0
  Loaded d = Held d × IsPrepared h version owner d

  weak_Loaded : (d : Disk) → Loaded d → E d
  weak_Loaded d x = weak d x.0

  module _ (id : Str) (s : VersionState V Target) where
    abbrev Checked : Disk → Type 0
    Checked = IsChecked h install pointer E weak id version owner s

    weak_Checked : (d : Disk) → Checked d → E d
    weak_Checked d x = weak d x.working.0

    moved :
        (d : Disk)
        → Checked d
        → lookup (version_name h version) d.versions ≡ none
        → Loaded (move_version id (version_name h version) d)
    moved d x free = (
      At-move h install pointer id version d free x.working.0,
      IsPrepared-move h install pointer id version owner s d x.working.1 x.contents x.named,
    )

    none_there : (o : Option VersionDir) → is_some o ≡ false → o ≡ none
    none_there none e = refl
    none_there (some v) e = cc

    rename_new :
        (exists : Bool)
        → Triple {V = V}
            (λ d.
              Checked d
              × ◌≡◌ {A = Result (InstallError V) Bool}
                  (ok (is_some (lookup (version_name h version) d.versions)))
                  (ok exists))
            (create_new exists (move_version id (version_name h version)))
            (λ _. Loaded)
            E
    unfolding create_new
    rename_new true = Triple-raise _ (λ d x. weak_Checked d x.0)
    rename_new false =
        Triple-effect _ (λ d x. weak_Checked d x.0)
          (λ d x. weak_Loaded _ (moved d x.0 (none_there _ (ground (arith, x.1)))))
          (λ d x. moved d x.0 (none_there _ (ground (arith, x.1))))

    Triple-rename :
        Triple {V = V} Checked (rename_version id (version_name h version)) (λ _. Loaded) E
    unfolding rename_version
    Triple-rename =
        Triple-bind _ _
          (Triple-read Checked E weak_Checked
            (λ d. ok (is_some (lookup (version_name h version) d.versions))))
          (λ exists. rename_new exists)

    Triple-sync_staging : Triple {V = V} Checked (sync_staging_transaction id) (λ _. Checked) E
    unfolding sync_staging_transaction
    Triple-sync_staging =
        Triple-bind _ _ (Triple-look Checked E weak_Checked _)
          (λ _. Triple-sync Checked E weak_Checked)

  module _ (same_manifest : ReleaseManifest V → ReleaseManifest V → Bool)
      (metadata : ReleaseMetadata V) (archive : DownloadedArchive) (target : Target) where
    -- Retained or new, the version is in place, verified and of this installation.
    pub Triple-prepare_version :
        (existing : Bool)
        → Triple Held
            (prepare_version h same_manifest existing metadata archive version owner target)
            (λ _. Loaded)
            E
    unfolding prepare_version
    Triple-prepare_version true =
        Triple-bind _ _
          (Triple-IsPrepared h Held E weak version owner
            (λ name d x free. At-make_version_dir h x name free))
          (λ _.
            Triple-bind _ _ (Triple-look Loaded E weak_Loaded _) (λ _. Triple-pure none (λ d x. x)))
    Triple-prepare_version false =
        Triple-bind _ _ (Triple-create_transaction h install pointer E weak) (λ id.
          let W = Working h install pointer id in
          let weak_W : (d : Disk) → W d → E d = λ d x. weak d x.0 in
          Triple-bind _ _
            (Triple-write_downloaded h install pointer E weak id same_manifest metadata
              archive.bytes owner target)
            (λ _.
              Triple-bind _ _ (Triple-fault {Q = λ _. W} h payload_written weak_W (λ d x. x)) (λ _.
                Triple-bind _ _ (Triple-verify_staged h install pointer E weak id version owner)
                  (λ s.
                    let C = Checked id s in
                    Triple-bind _ _
                      (Triple-fault {Q = λ _. C} h verified (weak_Checked id s) (λ d x. x))
                      (λ _. Triple-bind _ _ (Triple-sync_staging id s) (λ _.
                        Triple-bind _ _
                          (Triple-fault {Q = λ _. C} h staging_synced (weak_Checked id s)
                            (λ d x. x))
                          (λ _. Triple-bind _ _ (Triple-look C E (weak_Checked id s) _) (λ appeared.
                            Triple-bind _ _ (Triple-test C E (weak_Checked id s) _) (λ _.
                              Triple-bind _ _ (Triple-rename id s) (λ _.
                                Triple-bind _ _
                                  (Triple-fault {Q = λ _. Loaded} h version_renamed weak_Loaded
                                    (λ d x. x))
                                  (λ _. Triple-pure (some id) (λ d x. x))))))))))))
