-- ===== src/Install/Staging.antt =====
-- Transactions under `.staging` (src/install/activation.rs, src/install/recovery.rs): a new version is
-- written and verified there and then renamed into place.
use relswap.Base.{
  Str, Bool, true, false, not, ◌&&◌, Option, none, some, List, [], ◌∷◌, Result, ok, err, ok_or,
  map_err, reject_if, is_some, all, ltb, length, lookup, insert, erase, if◌then◌else◌,
}
use relswap.External.{version_eq}
use relswap.Release.Target
use relswap.Release.Target.{Target}
use relswap.Release.Manifest.{ReleaseManifest, ReleaseAsset}
use relswap.Release.Error.{archive, max_archive_size}
use relswap.Release.Archive.Member.{VerifiedMember, target_from_asset}
use relswap.Release.Archive.Inspect.{inspect_archive}
use relswap.Install.State.{
  InstallError, io, release, invalid, VersionState, state_schema_version, launcher_metadata,
  validate_version_state, staging_created,
}
use relswap.Install.Host.{Host, manifest_file, signature_file, version_file}
use relswap.Install.Disk.{
  FileNode, absent, regular, VersionDir, StagedDir, Disk, Action, pure, raise, lift, effect, sync,
  inspect, attempt, random_id, fault_at, staging_slot, ensure_private_dir, ensure_private_layout,
  dir_exists, DirState, missing, directory, not_directory, version_dir_state, ensure_dir_state,
  ◌>>=◌, ◌>>◌,
}
use relswap.Install.Journal.{version_document}
use relswap.Install.Verify.{ReleaseMetadata, verify_metadata, verify_contents}

unfoldable pub put_staged : Str → StagedDir → Disk → Disk
put_staged id dir d = record d { staging = insert id dir d.staging }

unfoldable pub drop_staged : Str → Disk → Disk
drop_staged id d = record d { staging = erase id d.staging }

abbrev pub private_version : VersionDir
private_version = record { is_directory = true; is_private = true; members = [] }

abbrev pub kept_version : Option VersionDir → VersionDir
kept_version none = private_version
kept_version (some v) = v

abbrev pub staged_version : Option StagedDir → VersionDir
staged_version none = private_version
staged_version (some dir) = kept_version dir.version

abbrev pub staged_files : Option StagedDir → List (Str × FileNode)
staged_files none = []
staged_files (some dir) = dir.files

abbrev pub version_of : Option StagedDir → Option VersionDir
version_of none = none
version_of (some dir) = dir.version

abbrev pub staged_dir_state : Option StagedDir → DirState
staged_dir_state none = missing
staged_dir_state (some dir) = if dir.is_directory then directory dir.is_private else not_directory

abbrev pub empty_staged : StagedDir
empty_staged = record { is_directory = true; is_private = true; files = []; version = none }

-- The version directory of a transaction is made.
unfoldable pub put_version : Str → Disk → Disk
unfolding put_staged
put_version id d =
    put_staged id
      (record {
        is_directory = true;
        is_private = true;
        files = staged_files (lookup id d.staging);
        version = some private_version;
      })
      d

abbrev map_ok : {E A B : Type 0} → (A → B) → Result E A → Result E B
map_ok f (err e) = err e
map_ok f (ok a) = ok (f a)

-- A file of the transaction directory, and a file of the staged version.
unfoldable pub stage_file : Str → Str → Str → Disk → Disk
unfolding put_staged
stage_file id name bytes d =
    let old = lookup id d.staging in
    put_staged id
      (record {
        is_directory = true;
        is_private = true;
        files = insert name (regular bytes) (staged_files old);
        version = some (staged_version old);
      })
      d

unfoldable pub stage_member : Str → Str → FileNode → Disk → Disk
unfolding put_staged
stage_member id name node d =
    let old = lookup id d.staging in
    let version = staged_version old in
    put_staged id
      (record {
        is_directory = true;
        is_private = true;
        files = staged_files old;
        version = some (record version { members = insert name node version.members });
      })
      d

unfoldable pub unstage_member : Str → Str → Disk → Disk
unfolding put_staged
unstage_member id name d =
    let old = lookup id d.staging in
    let version = staged_version old in
    put_staged id
      (record {
        is_directory = true;
        is_private = true;
        files = staged_files old;
        version = some (record version { members = erase name version.members });
      })
      d

-- The staged version becomes the version of that name.
unfoldable pub move_version : Str → Str → Disk → Disk
unfolding put_staged
move_version id name d =
    let old = lookup id d.staging in
    put_staged id
      (record { is_directory = true; is_private = true; files = staged_files old; version = none })
      (record d { versions = insert name (staged_version old) d.versions })

unfoldable pub is_regular : FileNode → Bool
is_regular (regular _) = true
is_regular _ = false

module _ {V : Type 0} where
  -- `executable::create_new_file`: an existing path is not replaced.
  unfoldable pub create_new : Bool → (Disk → Disk) → Action V (Unit {0})
  unfolding effect
  create_new true write = raise io
  create_new false write = effect write

  unfoldable pub create_member : Str → Str → Str → Action V (Unit {0})
  unfolding inspect create_new stage_member
  create_member id name bytes = do
    exists ←
        inspect (λ d. ok (is_some (lookup name (staged_version (lookup id d.staging)).members)))
    create_new exists (stage_member id name (regular bytes))

  -- `executable::rename_new`: the destination must not exist.
  unfoldable pub rename_version : Str → Str → Action V (Unit {0})
  unfolding inspect create_new move_version
  rename_version id name = do
    exists ← inspect (λ d. ok (is_some (lookup name d.versions)))
    create_new exists (move_version id name)

  -- `sync_staging_transaction`: files are flushed, anything but a regular file is refused.
  unfoldable pub sync_staging_transaction : Str → Action V (Unit {0})
  unfolding inspect sync is_regular
  sync_staging_transaction id = do
    inspect (λ d.
        reject_if
          (not (
            all (λ m. is_regular m.1) (staged_version (lookup id d.staging)).members
            && all (λ m. is_regular m.1) (staged_files (lookup id d.staging))))
          (invalid "staging contains a symlink or a special file"))
    sync

  -- `remove_transaction_after_rename`
  unfoldable pub remove_transaction : Bool → Str → Action V (Unit {0})
  unfolding effect sync drop_staged
  remove_transaction false id = pure tt
  remove_transaction true id = do effect (drop_staged id); sync

  unfoldable pub remove_transaction_after_rename : Option Str → Action V (Unit {0})
  unfolding inspect remove_transaction
  remove_transaction_after_rename none = pure tt
  remove_transaction_after_rename (some id) = do
    exists ← inspect (λ d. ok (is_some (lookup id d.staging)))
    remove_transaction exists id

  -- The loop of `cleanup_staging` over the entries that were listed, with `cfg(unix)`.
  unfoldable pub remove_entries : List (Str × StagedDir) → Action V (Unit {0})
  unfolding effect sync drop_staged
  remove_entries [] = sync
  remove_entries ((id, dir) ∷ rest) =
      let later = remove_entries rest in
      if dir.is_directory
      then (do effect (drop_staged id); later)
      else raise (invalid "staging contains a non-directory entry")

  unfoldable pub cleanup_existing : Bool → Action V (Unit {0})
  unfolding ensure_private_dir inspect remove_entries
  cleanup_existing false = pure tt
  cleanup_existing true = do
    ensure_private_dir staging_slot
    entries ← inspect (λ d. ok d.staging)
    remove_entries entries

  unfoldable pub cleanup_staging : Action V (Unit {0})
  unfolding inspect cleanup_existing
  cleanup_staging = do
    exists ← inspect (λ d. ok (dir_exists d.staging_dir))
    cleanup_existing exists

module _ {V : Type 0} (h : Host V) where
  -- `create_transaction`: the identifier names the directory. `ensure_private_dir` makes a missing
  -- directory, keeps a private one with what is in it, and refuses anything else.
  unfoldable pub create_transaction : Action V Str
  unfolding ensure_private_layout random_id inspect ensure_dir_state put_staged put_version fault_at
  create_transaction = do
    ensure_private_layout
    id ← random_id
    state ← inspect (λ d. ok (staged_dir_state (lookup id d.staging)))
    ensure_dir_state state (put_staged id empty_staged)
    version ← inspect (λ d. ok (version_dir_state (version_of (lookup id d.staging))))
    ensure_dir_state version (put_version id)
    fault_at h staging_created
    pure id

  -- The name of the launcher, which is found before anything is written.
  unfoldable pub launcher_name_for :
      Target → Option VerifiedMember → Result (InstallError V) (Option (Str × Str))
  launcher_name_for target none = ok none
  launcher_name_for target (some launcher) =
      map_ok (λ name. some (name, launcher.bytes))
        (ok_or (Target.launcher_name target h.app)
          (release (archive "app does not configure a launcher")))

  -- The launcher is written after the payload; when it cannot be written, the payload goes too.
  unfoldable pub extract_launcher : Str → Str → Option (Str × Str) → Action V (Unit {0})
  unfolding create_member attempt effect unstage_member
  extract_launcher id payload none = pure tt
  extract_launcher id payload (some (name, bytes)) = do
    written ← attempt (create_member id name bytes)
    if written then pure tt else (do effect (unstage_member id payload); raise io)

  -- Removing what was written. An error of a removal only adds to the text of the error.
  unfoldable pub remove_launcher : Str → Option (Str × Str) → Action V (Unit {0})
  unfolding attempt effect unstage_member
  remove_launcher id none = pure tt
  remove_launcher id (some (name, _)) = do _ ← attempt (effect (unstage_member id name)); pure tt

  -- The end of `extract_archive`: the destination's path must still lead to the directory that was
  -- written to, or else what was written goes.
  unfoldable pub revalidate_destination : Str → Str → Option (Str × Str) → Action V (Unit {0})
  unfolding attempt inspect remove_launcher effect unstage_member
  revalidate_destination id payload launcher = do
    same ← attempt (inspect (λ d. reject_if (not (h.still_identifies id)) io))
    if same then pure tt else (do
      remove_launcher id launcher
      _ ← attempt (effect (unstage_member id payload))
      raise (release (archive "extraction destination changed or could not be revalidated")))

  -- `path_is_safe_directory` and the opening of the destination.
  unfoldable pub open_destination : Str → Action V (Unit {0})
  unfolding inspect
  open_destination id = inspect (λ d.
      reject_if (not (staged_version (lookup id d.staging)).is_directory)
        (release (archive "extraction destination is not a directory")))

  -- The members, in the order in which `extract_archive` writes them.
  unfoldable pub write_members : Str → Str → Str → Option (Str × Str) → Action V (Unit {0})
  unfolding create_member extract_launcher revalidate_destination
  write_members id payload bytes launcher = do
    create_member id payload bytes
    extract_launcher id payload launcher
    revalidate_destination id payload launcher

  -- `extract_archive` into the staged version: the archive is inspected whole before anything is written.
  unfoldable pub extract_archive : Str → Str → ReleaseAsset → Action V (Unit {0})
  unfolding inspect_archive target_from_asset launcher_name_for open_destination write_members
  extract_archive id bytes asset = do
    extracted ←
        lift (map_err release (inspect_archive h.ext h.zero_version h.formats h.app bytes asset))
    target ← lift (map_err release (target_from_asset h.ext h.zero_version h.app asset))
    open_destination id
    let payload = Target.payload_name target h.app
    launcher ← lift (launcher_name_for target extracted.launcher)
    write_members id payload extracted.payload.bytes launcher

  -- `extract_archive_file`: the staged archive is read back.
  unfoldable pub extract_archive_file : Str → FileNode → ReleaseAsset → Action V (Unit {0})
  unfolding extract_archive
  extract_archive_file id (regular bytes) asset = do
    lift (
        reject_if (ltb max_archive_size (length bytes))
          (release (archive "invalid or oversized release archive")))
    extract_archive id bytes asset
  extract_archive_file id _ asset = raise io

  -- `write_downloaded_version` with `cfg(unix)`.
  unfoldable pub write_downloaded_version :
      (ReleaseManifest V → ReleaseManifest V → Bool)
      → Str
      → ReleaseMetadata V
      → Str
      → Str
      → Target
      → Action V (Unit {0})
  unfolding verify_metadata inspect create_new stage_file extract_archive_file effect stage_member
      sync launcher_metadata validate_version_state version_document
  write_downloaded_version same_manifest id metadata archive_bytes installation_id target = do
    selected ← lift (verify_metadata h same_manifest metadata target)
    let name = selected.asset.archive
    exists ← inspect (λ d. ok (is_some (lookup name (staged_files (lookup id d.staging)))))
    create_new exists (stage_file id name archive_bytes)
    node ← inspect (λ d. ok (elim (lookup name (staged_files (lookup id d.staging))) [
      | none ↦ absent
      | some found ↦ found
    ]))
    extract_archive_file id node selected.asset
    effect (stage_member id manifest_file (regular metadata.manifest_bytes))
    effect (stage_member id signature_file (regular metadata.signature_bytes))
    -- `set_executable` changes the mode of the payload only.
    sync
    let state : VersionState V Target = record {
      schema_version = state_schema_version;
      version = metadata.version;
      target = target;
      binary_sha256 = selected.asset.payload.sha256;
      size = selected.asset.payload.size;
      installation_id = installation_id;
      launcher = elim selected.asset.launcher [ none ↦ none | some l ↦ some (launcher_metadata l) ];
    }
    lift (validate_version_state h.ext h.app state)
    effect (
        stage_member id version_file
          (regular (h.json.encode_version_state (version_document h state))))

  unfoldable pub verify_staged_version : Str → V → Str → Action V (VersionState V Target)
  unfolding inspect verify_contents
  verify_staged_version id version installation_id = do
    state ← inspect (λ d.
        verify_contents h (staged_version (lookup id d.staging)).members (some installation_id))
    lift (
        reject_if (not (version_eq h.ext state.version version))
          (invalid "staged version state differs from transaction version"))
    pure state
