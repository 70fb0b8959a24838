-- ===== src/Install/Manager.antt =====
-- The operations of an `Installation` (src/install/activation.rs): activating a download, updating and
-- rolling back. What the downloader resolved, the metadata and the archive, is an argument.
use relswap.Base.{
  Str, Bool, true, false, not, ◌&&◌, ◌||◌, Option, none, some, List, [], ◌∷◌, Result, ok, err,
  ok_or, map_err, reject_if, is_some, str_eq, lookup, if◌then◌else◌,
}
use relswap.External.{version_eq, version_lt, version_le}
use relswap.Release.Error.{ReleaseError}
use relswap.Release.Target.{Target, target_eq}
use relswap.Release.Manifest.{ReleaseManifest}
use relswap.Install.State.{
  InstallError, io, invalid, release, unmanaged, downgrade, InstallState, ActivationResult,
  validate_install_state, parse_canonical_version, payload_written, verified, staging_synced,
  version_renamed,
}
use relswap.Install.Host.{Host, version_name, manifest_file, signature_file}
use relswap.Install.Disk.{
  FileNode, absent, regular, special, VersionDir, Action, pure, raise, lift, inspect, random_id,
  fault_at, ensure_private_layout, file_exists, command_exists, ◌>>=◌, ◌>>◌,
}
use relswap.Install.Journal.{read_install_state}
use relswap.Install.Pointer.{read_pointer_unlocked, member_of}
use relswap.Install.Verify.{ReleaseMetadata, require_target, verify_metadata, verify_final_version}
use relswap.Install.Staging.{
  create_transaction, write_downloaded_version, verify_staged_version, sync_staging_transaction,
  rename_version, cleanup_staging,
}
use relswap.Install.Activate.{
  ensure_command_owned, ensure_command_parent, require_managed_current, activate_pointer_and_state,
  activate_existing_locked,
}
use relswap.Install.Recovery.{validate_install_option, open_lock, recover_if_managed}

pub record DownloadedArchive : Type 0 where
  pub target : Target
  pub name : Str
  pub bytes : Str

-- `fs::read`
unfoldable pub read_file : {V : Type 0} → FileNode → Result (InstallError V) Str
read_file absent = err io
read_file special = err io
read_file (regular bytes) = ok bytes

module _ {V : Type 0} (h : Host V) where
  -- The manifest and the signature on disk are the downloaded ones, byte for byte.
  unfoldable pub same_metadata :
      ReleaseMetadata V → Option VersionDir → Result (InstallError V) (Unit {0})
  unfolding read_file str_eq
  same_metadata metadata dir =
      let manifest = read_file (member_of dir manifest_file) in
      let signature = read_file (member_of dir signature_file) in
      elim manifest [
        | err e ↦ err e
        | ok m ↦ elim signature [
          | err e ↦ err e
          | ok s ↦
              reject_if
                (not (str_eq m metadata.manifest_bytes) || not (str_eq s metadata.signature_bytes))
                (invalid "existing final version has different signed metadata")
        ]
      ]

  -- An update to the active version changes nothing, and one to an older version is refused.
  unfoldable pub reactivate :
      ReleaseMetadata V → V → V → Option (InstallState V) → Action V (ActivationResult V)
  unfolding verify_final_version inspect same_metadata version_name ensure_command_owned
  reactivate metadata version active install =
      if version_eq h.ext version active
      then (do
        _ ←
            verify_final_version h active
              (elim install [ none ↦ none | some i ↦ some i.installation_id ])
        inspect (λ d. same_metadata metadata (lookup (version_name h active) d.versions))
        ensure_command_owned h (some active) install
        pure (record { version = active; changed = false }))
      else raise (downgrade active version)

  -- The loop of `choose_installation_id` over the names in `versions`.
  unfoldable pub shared_id : List (Str × VersionDir) → Option Str → Action V (Option Str)
  unfolding parse_canonical_version verify_final_version str_eq
  shared_id [] found = pure found
  shared_id ((name, dir) ∷ rest) found =
      let later = λ (id : Str). shared_id rest (some id) in
      do
        lift (reject_if (not dir.is_directory) (invalid "versions contains a non-directory entry"))
        retained ← lift (parse_canonical_version h.ext name)
        state ← verify_final_version h retained none
        lift (
            reject_if
              (elim found [ none ↦ false | some id ↦ not (str_eq id state.installation_id) ])
              (invalid "retained versions belong to different installations"))
        later (elim found [ none ↦ state.installation_id | some id ↦ id ])

  unfoldable pub id_or_random : Option Str → Action V Str
  unfolding random_id
  id_or_random (some id) = pure id
  id_or_random none = random_id

  unfoldable pub choose_retained_id : V → Bool → Action V Str
  unfolding verify_final_version inspect shared_id id_or_random
  choose_retained_id version true = do
    state ← verify_final_version h version none
    pure state.installation_id
  choose_retained_id version false = do
    entries ← inspect (λ d. ok d.versions)
    id ← shared_id entries none
    id_or_random id

  unfoldable pub choose_installation_id : V → Option (InstallState V) → Action V Str
  unfolding validate_install_state inspect version_name choose_retained_id
  choose_installation_id version (some install) = do
    lift (validate_install_state h.ext install)
    pure install.installation_id
  choose_installation_id version none = do
    retained ← inspect (λ d. ok (is_some (lookup (version_name h version) d.versions)))
    choose_retained_id version retained

  module _ (same_manifest : ReleaseManifest V → ReleaseManifest V → Bool) where
    -- The retained version is verified again, or a new one is staged, verified and renamed into place.
    unfoldable pub prepare_version :
        Bool → ReleaseMetadata V → DownloadedArchive → V → Str → Target → Action V (Option Str)
    unfolding verify_final_version inspect same_metadata version_name create_transaction
        write_downloaded_version fault_at verify_staged_version sync_staging_transaction
        rename_version
    prepare_version true metadata archive version installation_id target = do
      _ ← verify_final_version h version (some installation_id)
      inspect (λ d. same_metadata metadata (lookup (version_name h version) d.versions))
      pure none
    prepare_version false metadata archive version installation_id target = do
      id ← create_transaction h
      write_downloaded_version h same_manifest id metadata archive.bytes installation_id target
      fault_at h payload_written
      _ ← verify_staged_version h id version installation_id
      fault_at h verified
      sync_staging_transaction id
      fault_at h staging_synced
      appeared ← inspect (λ d. ok (is_some (lookup (version_name h version) d.versions)))
      lift (reject_if appeared (invalid "retained version directory appeared during installation"))
      rename_version id (version_name h version)
      fault_at h version_renamed
      pure (some id)

    -- The installation of a version that is newer than the active one, or the first.
    unfoldable pub activate_new :
        ReleaseMetadata V
        → DownloadedArchive
        → V
        → Target
        → Option (InstallState V)
        → Option V
        → Action V (ActivationResult V)
    unfolding ensure_private_layout choose_installation_id inspect cleanup_staging
        ensure_command_owned version_name prepare_version ensure_command_parent
        activate_pointer_and_state
    activate_new metadata archive version target install from = do
      ensure_private_layout
      installation_id ← choose_installation_id version install
      occupied ← inspect (λ d. ok (command_exists d.command))
      if is_some from || not occupied then cleanup_staging else pure tt
      ensure_command_owned h from install
      existing ← inspect (λ d. ok (is_some (lookup (version_name h version) d.versions)))
      transaction ← prepare_version existing metadata archive version installation_id target
      ensure_command_parent h
      activate_pointer_and_state h from version installation_id transaction transaction

    unfoldable pub activate_over :
        ReleaseMetadata V
        → DownloadedArchive
        → V
        → Target
        → Option (InstallState V)
        → Option V
        → Action V (ActivationResult V)
    unfolding reactivate activate_new
    activate_over metadata archive version target (some install) (some active) =
        if version_le h.ext version active
        then reactivate metadata version active (some install)
        else activate_new metadata archive version target (some install) (some active)
    activate_over metadata archive version target install from =
        activate_new metadata archive version target install from

    unfoldable pub activate_download_locked :
        ReleaseMetadata V → DownloadedArchive → V → Action V (ActivationResult V)
    unfolding require_target target_eq verify_metadata read_install_state validate_install_option
        read_pointer_unlocked activate_over
    activate_download_locked metadata archive version = do
      target ← lift (require_target h)
      lift (
          reject_if (not (target_eq archive.target target))
            (invalid "downloaded archive target differs from current target"))
      lift (
          reject_if (not (version_eq h.ext metadata.version version))
            (invalid "downloaded metadata version differs from requested version"))
      _ ← lift (verify_metadata h same_manifest metadata target)
      install ← read_install_state h
      validate_install_option h install
      from ← read_pointer_unlocked h
      activate_over metadata archive version target install from

    unfoldable pub activate_download :
        ReleaseMetadata V → DownloadedArchive → V → Action V (ActivationResult V)
    unfolding recover_if_managed inspect open_lock activate_download_locked
    activate_download metadata archive version = do
      _ ← recover_if_managed h
      unowned ← inspect (λ d. ok (command_exists d.command && not (file_exists d.install)))
      lift (reject_if unowned (invalid "refusing to replace existing unmanaged command"))
      open_lock h true
      activate_download_locked metadata archive version

    -- `update`: `latest` and `download` are what the downloader returns.
    unfoldable pub update_to :
        ReleaseMetadata V
        → (ReleaseMetadata V → Result ReleaseError DownloadedArchive)
        → V
        → Action V (ActivationResult V)
    unfolding activate_download
    update_to metadata download current =
        if version_lt h.ext metadata.version current
        then raise (downgrade current metadata.version)
        else if version_eq h.ext metadata.version current
        then pure (record { version = current; changed = false })
        else (do
          archive ← lift (map_err release (download metadata))
          activate_download metadata archive metadata.version)

    unfoldable pub update :
        Result ReleaseError (ReleaseMetadata V)
        → (ReleaseMetadata V → Result ReleaseError DownloadedArchive)
        → Action V (ActivationResult V)
    unfolding recover_if_managed require_managed_current update_to
    update latest download = do
      _ ← recover_if_managed h
      current ← require_managed_current h
      metadata ← lift (map_err release latest)
      update_to metadata download current

    -- `install_version`: `fetch` and `download_archive` are what the downloader returns.
    unfoldable pub install_version :
        (V → Result ReleaseError (ReleaseMetadata V))
        → (ReleaseMetadata V → Target → Result ReleaseError DownloadedArchive)
        → V
        → Action V (ActivationResult V)
    unfolding recover_if_managed require_target activate_download
    install_version fetch download_archive version = do
      _ ← recover_if_managed h
      metadata ← lift (map_err release (fetch version))
      target ← lift (require_target h)
      archive ← lift (map_err release (download_archive metadata target))
      activate_download metadata archive version

    -- `install`: the version that the app was built as.
    unfoldable pub install :
        (V → Result ReleaseError (ReleaseMetadata V))
        → (ReleaseMetadata V → Target → Result ReleaseError DownloadedArchive)
        → Action V (ActivationResult V)
    unfolding install_version
    install fetch download_archive = do
      version ← lift (ok_or (h.ext.parse_version h.app.version) (invalid "invalid package version"))
      install_version fetch download_archive version

  -- `activate_existing`, under the lock.
  unfoldable pub activate_existing : V → Action V (ActivationResult V)
  unfolding open_lock activate_existing_locked
  activate_existing target = do open_lock h true; activate_existing_locked h target

  unfoldable pub rollback : Action V (ActivationResult V)
  unfolding recover_if_managed require_managed_current read_install_state activate_existing
  rollback = do
    _ ← recover_if_managed h
    current ← require_managed_current h
    state ← read_install_state h
    install ← lift (ok_or state unmanaged)
    target ← lift (ok_or install.previous (invalid "managed installation has no previous version"))
    lift (
        reject_if (not (version_lt h.ext target current))
          (invalid "managed installation previous version is not older than active"))
    activate_existing target

  unfoldable pub rollback_to : V → Action V (ActivationResult V)
  unfolding recover_if_managed require_managed_current activate_existing
  rollback_to target = do
    _ ← recover_if_managed h
    current ← require_managed_current h
    lift (
        reject_if (not (version_lt h.ext target current))
          (invalid "rollback target must be older than active version"))
    activate_existing target
