-- ===== src/Install/Verify/Contents.antt =====
-- The checks of a version directory's contents and of downloaded metadata, without effects.
use relswap.Base.{
  ℕ, Str, text, Bool, true, false, not, ◌&&◌, ◌||◌, Option, none, some, List, [], ◌∷◌, ◌++◌, Result,
  ok, err, ok_or, map_err, reject_if, is_some, str_eq, length, is_empty, any, all, lookup, ltb,
  ◌==◌,
}
use relswap.External.{version_eq}
use relswap.App.{App}
use relswap.App
use relswap.Release.Error.{max_metadata_size}
use relswap.Release.Target
use relswap.Release.Target.{Target, target_eq, is_windows}
use relswap.Release.Manifest.{
  ReleaseManifest, SelectedAsset, LauncherInfo, from_bytes, asset_for, ensure_not_expired,
}
use relswap.Release.Signature.{VerifiedSignature, verify_manifest, verify_manifest_with_keys}
use relswap.Install.State.{
  InstallError, io, release, invalid, VersionState, LauncherMetadata, launcher_metadata,
  validate_version_state, validate_signed_launcher, read_version_document, ◌>>=◌, ◌>>◌,
}
use relswap.Install.Host.{Host, manifest_file, signature_file, version_file}
use relswap.Install.Disk.{FileNode, absent, regular, special}
use relswap.Install.Journal.{read_json}

-- The fields of the downloader's result that the installation reads.
pub record ReleaseMetadata (V : Type 0) : Type 0 where
  pub version : V
  pub manifest_bytes : Str
  pub manifest : ReleaseManifest V
  pub signature_bytes : Str
  pub verified_signature : VerifiedSignature

abbrev pub node_at : Str → List (Str × FileNode) → FileNode
node_at name members = elim (lookup name members) [ none ↦ absent | some n ↦ n ]

module _ {V : Type 0} where
  -- `read_regular_limited` with the metadata limit.
  unfoldable pub read_regular_limited : FileNode → Result (InstallError V) Str
  read_regular_limited absent = err io
  read_regular_limited special = err io
  read_regular_limited (regular bytes) = do
    reject_if (ltb max_metadata_size (length bytes)) (invalid "file is larger than its limit")
    ok bytes

module _ {V : Type 0} (h : Host V) where
  unfoldable pub require_target : Result (InstallError V) Target
  require_target =
      ok_or h.current_target (invalid "this host has no supported signed release target")

  -- `None` is the compiled trust anchor, `Some` an injected key set.
  unfoldable pub check_signature : Str → Str → Result (InstallError V) VerifiedSignature
  unfolding verify_manifest verify_manifest_with_keys
  check_signature manifest_bytes signature_bytes = map_err release (elim h.trusted_keys [
    | some keys ↦
        verify_manifest_with_keys h.ext h.json.decode_envelope manifest_bytes signature_bytes keys
    | none ↦
        verify_manifest h.ext h.json.decode_key_set h.json.decode_envelope h.app manifest_bytes
          signature_bytes
  ])

  unfoldable pub verify_file_digest : FileNode → ℕ → Str → Result (InstallError V) (Unit {0})
  unfolding str_eq
  verify_file_digest absent expected_size expected_hash = err io
  verify_file_digest special expected_size expected_hash = err io
  verify_file_digest (regular bytes) expected_size expected_hash = do
    reject_if (not (length bytes == expected_size)) (invalid "size mismatch")
    reject_if (not (str_eq (h.ext.sha256_bytes bytes) expected_hash)) (invalid "SHA-256 mismatch")

  -- `state.launcher.as_ref() != Some(&launcher_metadata(launcher))`
  unfoldable pub same_launcher : Option LauncherMetadata → LauncherMetadata → Bool
  unfolding str_eq
  same_launcher none b = false
  same_launcher (some a) b =
      str_eq a.path b.path
      && str_eq a.sha256 b.sha256
      && (a.size == b.size)
      && (a.protocol == b.protocol)

  unfoldable pub check_launchers :
      Bool → Option LauncherMetadata → Option LauncherInfo → Result (InstallError V) (Unit {0})
  unfolding validate_signed_launcher same_launcher launcher_metadata
  check_launchers true stated none = err (invalid "Windows release is missing launcher metadata")
  check_launchers true stated (some launcher) = do
    validate_signed_launcher h.app launcher
    reject_if (not (same_launcher stated (launcher_metadata launcher)))
        (invalid "version state launcher metadata does not match signed manifest")
  check_launchers false stated signed =
      reject_if (is_some stated || is_some signed)
        (invalid "Unix version contains Windows launcher metadata")

  -- `validate_exact_version_members`
  unfoldable pub exact_members : List (Str × FileNode) → Target → Result (InstallError V) (Unit {0})
  unfolding str_eq is_windows App.payload_name
  exact_members members target = do
    let payload = App.payload_name h.app (is_windows target)
    let allowed = payload ∷ manifest_file ∷ signature_file ∷ version_file ∷ []
    reject_if (not (all (λ m. any (str_eq m.0) allowed) members))
        (invalid "unexpected immutable version member")
    reject_if (not (all (λ name. is_some (lookup name members)) allowed))
        (invalid "missing immutable version member")

  -- The part of `verify_version_dir_inner` that compares a state with the signed release beside it.
  unfoldable pub verify_release :
      List (Str × FileNode) → VersionState V Target → Result (InstallError V) (Unit {0})
  unfolding require_target target_eq read_regular_limited check_signature from_bytes asset_for
      verify_file_digest check_launchers exact_members str_eq is_windows
  verify_release members state = do
    target ← require_target
    reject_if (not (target_eq state.target target))
        (invalid "version target differs from current host target")
    manifest_bytes ← read_regular_limited (node_at manifest_file members)
    signature_bytes ← read_regular_limited (node_at signature_file members)
    verified ← check_signature manifest_bytes signature_bytes
    manifest ← map_err release (from_bytes h.ext h.app h.json.decode_manifest manifest_bytes)
    reject_if (not (version_eq h.ext manifest.version state.version))
        (invalid "version state does not match signed release version")
    selected ← map_err release (asset_for h.ext h.app manifest target)
    reject_if
        (not (
          str_eq selected.asset.payload.path (
            Target.root_name h.ext target h.app state.version
            ++ (text "/" ++ Target.payload_name target h.app))))
        (invalid "signed payload path is not canonical")
    reject_if (is_empty verified.key_id) (invalid "release signature key id is empty")
    reject_if
        (not (str_eq state.binary_sha256 selected.asset.payload.sha256)
          || not (state.size == selected.asset.payload.size))
        (invalid "version state payload digest does not match signed manifest")
    verify_file_digest (node_at (Target.payload_name target h.app) members) state.size
        state.binary_sha256
    check_launchers (is_windows target) state.launcher selected.asset.launcher
    exact_members members target

  -- `installation_id.is_some_and(|expected| state.installation_id != expected)`
  unfoldable pub differs : Option Str → Str → Bool
  unfolding str_eq
  differs none id = false
  differs (some expected) id = not (str_eq id expected)

  -- `verify_version_dir_inner` after the directory itself was checked.
  unfoldable pub verify_contents :
      List (Str × FileNode) → Option Str → Result (InstallError V) (VersionState V Target)
  unfolding read_json read_version_document validate_version_state differs verify_release
  verify_contents members installation_id = do
    document ←
        read_json h.json.decode_version_state (read_version_document h.ext)
          (node_at version_file members)
    state ← ok_or document (invalid "version.json is missing")
    validate_version_state h.ext h.app state
    reject_if (differs installation_id state.installation_id)
        (invalid "version installation id differs from managed installation")
    verify_release members state
    ok state

  -- `parsed != metadata.manifest` compares the derived `Eq`; `same_manifest` is that comparison.
  unfoldable pub verify_metadata :
      (ReleaseManifest V → ReleaseManifest V → Bool)
      → ReleaseMetadata V
      → Target
      → Result (InstallError V) SelectedAsset
  unfolding check_signature from_bytes ensure_not_expired asset_for str_eq
  verify_metadata same_manifest metadata target = do
    reject_if (not (version_eq h.ext metadata.version metadata.manifest.version))
        (invalid "release metadata version does not match its manifest")
    reject_if
        (not (
          str_eq (h.ext.version_text metadata.manifest.version)
            (h.ext.version_text metadata.version)))
        (invalid "release metadata version is not canonical")
    verified ← check_signature metadata.manifest_bytes metadata.signature_bytes
    reject_if (not (str_eq verified.key_id metadata.verified_signature.key_id))
        (invalid "release signature result differs from downloaded metadata")
    parsed ← map_err release (from_bytes h.ext h.app h.json.decode_manifest metadata.manifest_bytes)
    map_err release (ensure_not_expired h.ext h.app parsed h.now)
    reject_if (not (same_manifest parsed metadata.manifest))
        (invalid "downloaded release metadata changed after verification")
    map_err release (asset_for h.ext h.app metadata.manifest target)
