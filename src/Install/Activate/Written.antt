-- ===== src/Install/Activate/Written.antt =====
-- Staging a download and renaming it into place (`create_transaction`, `write_downloaded_version`,
-- `verify_staged_version`, `activate_download_locked` in src/install/activation.rs), cut short or complete.
use relswap.Base.{
  Str, Bool, true, false, not, map_err, ◌≡◌, refl, Option, none, some, Result, ok, arith, lookup,
  reject_if, reject_if-eq-ok, if◌then◌else◌,
}
use relswap.External.{version_eq}
use relswap.Release.Target.{Target}
use relswap.Release.Manifest.{ReleaseManifest, ReleaseAsset}
use relswap.Release.Error.{archive}
use relswap.Release.Target.{payload_name}
use relswap.Release.Archive.Member.{target_from_asset}
use relswap.Release.Archive.Inspect.{inspect_archive}
use relswap.Install.State.{io, release, InstallError, InstallState, VersionState, staging_created}
use relswap.Install.Host.{Host}
use relswap.Install.Disk.{
  FileNode, absent, regular, special, Disk, DirState, missing, directory, not_directory, lift,
  effect, inspect, attempt, pure, raise, version_dir_state, ensure_dir_state, ◌>>◌, ◌>>=◌,
}
use relswap.Install.Disk.Triple.{
  Triple, Triple-pure, Triple-raise, Triple-effect, Triple-bind, Triple-weaken, Triple-attempt,
  Triple-fault,
}
use relswap.Install.Staging.{
  put_staged, stage_member, unstage_member, staged_version, create_new, create_member,
  create_transaction, extract_launcher, extract_archive, extract_archive_file,
  write_downloaded_version, verify_staged_version, remove_launcher, revalidate_destination,
  open_destination, version_of, empty_staged, put_version, launcher_name_for, write_members,
}
use relswap.Install.Verify.{ReleaseMetadata, verify_contents}
use relswap.Install.Health.{At}
use relswap.Install.Health.Frame.{At-make_slot}
use relswap.Install.Health.Rules.{
  Triple-read, Triple-check, Triple-sync, Triple-random_id, Triple-ensure_private_layout,
}
use relswap.Install.Activate.Staged.{
  Working, At-put_staged, Working-stage_file, Working-stage_member, Working-unstage_member,
  Working-put_version, Working-found,
}

module _ {V : Type 0} (P E : Disk → Type 0) (weak : (d : Disk) → P d → E d) where
  pub Triple-look :
      {A : Type 0} (f : Disk → Result (InstallError V) A) → Triple P (inspect f) (λ _. P) E
  Triple-look f = Triple-weaken _ (Triple-read P E weak f) (λ d x. x) (λ _ d x. x.0)

  pub Triple-test : {A : Type 0} (r : Result (InstallError V) A) → Triple P (lift r) (λ _. P) E
  Triple-test r = Triple-weaken _ (Triple-check P E weak r) (λ d x. x) (λ _ d x. x.0)

  Triple-change :
      (f : Disk → Disk) → ((d : Disk) → P d → P (f d)) → Triple {V = V} P (effect f) (λ _. P) E
  Triple-change f k = Triple-effect f weak (λ d x. weak (f d) (k d x)) k

  Triple-create_new :
      (exists : Bool) (f : Disk → Disk)
      → ((d : Disk) → P d → P (f d))
      → Triple {V = V} P (create_new exists f) (λ _. P) E
  unfolding create_new
  Triple-create_new true f k = Triple-raise _ weak
  Triple-create_new false f k = Triple-change f k

module _ {V : Type 0} (h : Host V) (install : Option (InstallState V)) (pointer : Option V)
    (E : Disk → Type 0) (weak : (d : Disk) → At h install none pointer d → E d) where
  abbrev Held : Disk → Type 0
  Held = At h install none pointer

  transaction_made :
      (id : Str) (s : DirState)
      → Triple {V = V} Held (ensure_dir_state s (put_staged id empty_staged)) (λ _. Held) E
  unfolding ensure_dir_state
  transaction_made id missing =
      Triple-change Held E weak (put_staged id empty_staged)
        (λ d x. At-put_staged h install pointer id empty_staged d refl x)
  transaction_made id (directory true) = Triple-pure tt (λ d x. x)
  transaction_made id (directory false) = Triple-raise _ weak
  transaction_made id not_directory = Triple-raise _ weak

  version_made :
      (id : Str) (s : DirState)
      → Triple {V = V}
          (λ d.
            Held d
            × ◌≡◌ {A = Result (InstallError V) DirState}
                (ok (version_dir_state (version_of (lookup id d.staging))))
                (ok s))
          (ensure_dir_state s (put_version id))
          (λ _. Working h install pointer id)
          E
  unfolding ensure_dir_state
  version_made id missing =
      Triple-effect _ (λ d x. weak d x.0)
        (λ d x. weak _ (Working-put_version h install pointer id d x.0).0)
        (λ d x. Working-put_version h install pointer id d x.0)
  version_made id (directory true) =
      Triple-pure tt (λ d x. Working-found h install pointer id d x.0 (ground (arith, x.1)))
  version_made id (directory false) = Triple-raise _ (λ d x. weak d x.0)
  version_made id not_directory = Triple-raise _ (λ d x. weak d x.0)

  -- A transaction is a private directory below `.staging` with a private version directory.
  pub Triple-create_transaction :
      Triple Held (create_transaction h) (λ id. Working h install pointer id) E
  unfolding create_transaction
  Triple-create_transaction =
      Triple-bind _ _ (Triple-ensure_private_layout Held E weak (λ slot d x. At-make_slot h x slot))
        (λ _. Triple-bind _ _ (Triple-random_id Held E weak) (λ id.
          Triple-bind _ _ (Triple-look Held E weak _) (λ state.
            Triple-bind _ _ (transaction_made id state) (λ _.
              Triple-bind _ _
                (Triple-read Held E weak
                  (λ d. ok (version_dir_state (version_of (lookup id d.staging)))))
                (λ version. Triple-bind _ _ (version_made id version) (λ _.
                  Triple-bind _ _
                    (Triple-fault {Q = λ _. Working h install pointer id} h staging_created
                      (λ d x. weak d x.0) (λ d x. x))
                    (λ _. Triple-pure id (λ d x. x))))))))

  module _ (id : Str) where
    abbrev W : Disk → Type 0
    W = Working h install pointer id

    weak_W : (d : Disk) → W d → E d
    weak_W d x = weak d x.0

    Triple-create_member :
        (F : Disk → Type 0)
        → ((d : Disk) → W d → F d)
        → (name bytes : Str) → Triple {V = V} W (create_member id name bytes) (λ _. W) F
    unfolding create_member
    Triple-create_member F weak_F name bytes = Triple-bind _ _ (Triple-look W F weak_F _) (λ exists.
        Triple-create_new W F weak_F exists _
          (λ d x. Working-stage_member h install pointer id name (regular bytes) d x))

    undo :
        (payload : Str) (written : Bool)
        → Triple {V = V} W
            (if written then pure tt else (effect (unstage_member id payload) >> raise io))
            (λ _. W)
            E
    undo payload true = Triple-pure tt (λ d x. x)
    undo payload false =
        Triple-bind _ _
          (Triple-change W E weak_W (unstage_member id payload)
            (λ d x. Working-unstage_member h install pointer id payload d x))
          (λ _. Triple-raise _ weak_W)

    Triple-extract_launcher :
        (payload : Str) (launcher : Option (Str × Str))
        → Triple W (extract_launcher h id payload launcher) (λ _. W) E
    unfolding extract_launcher
    Triple-extract_launcher payload none = Triple-pure tt (λ d x. x)
    Triple-extract_launcher payload (some (name, bytes)) =
        Triple-bind _ _ (Triple-attempt _ (Triple-create_member W (λ d x. x) name bytes))
          (λ written. undo payload written)

    -- Taking a member away, whether it succeeds or not.
    removed :
        (name : Str)
        → Triple {V = V} W (attempt {V = V} (effect (unstage_member id name))) (λ _. W) E
    removed name = Triple-attempt _ (
        Triple-change W W (λ d x. x) (unstage_member id name)
          (λ d x. Working-unstage_member h install pointer id name d x))

    Triple-remove_launcher :
        (launcher : Option (Str × Str)) → Triple W (remove_launcher h id launcher) (λ _. W) E
    unfolding remove_launcher
    Triple-remove_launcher none = Triple-pure tt (λ d x. x)
    Triple-remove_launcher (some (name, bytes)) =
        Triple-bind _ _ (removed name) (λ _. Triple-pure tt (λ d x. x))

    Triple-revalidate :
        (payload : Str) (launcher : Option (Str × Str))
        → Triple W (revalidate_destination h id payload launcher) (λ _. W) E
    unfolding revalidate_destination
    Triple-revalidate payload launcher =
        Triple-bind _ _ (Triple-attempt _ (Triple-look W W (λ d x. x) _)) (λ same. moved same)
      where
        moved :
            (same : Bool)
            → Triple W
                (if same
                  then pure tt
                  else (remove_launcher h id launcher
                      >> (attempt (effect (unstage_member id payload)) >>= λ _. raise (
                          release (
                            archive
                              "extraction destination changed or could not be revalidated")))))
                (λ _. W)
                E
        moved true = Triple-pure tt (λ d x. x)
        moved false = Triple-bind _ _ (Triple-remove_launcher launcher) (λ _.
            Triple-bind _ _ (removed payload) (λ _.
              Triple-raise
                (release (archive "extraction destination changed or could not be revalidated"))
                weak_W))

    Triple-write_members :
        (payload bytes : Str) (launcher : Option (Str × Str))
        → Triple W (write_members h id payload bytes launcher) (λ _. W) E
    unfolding write_members
    Triple-write_members payload bytes launcher =
        Triple-bind _ _ (Triple-create_member E weak_W payload bytes) (λ _.
          Triple-bind _ _ (Triple-extract_launcher payload launcher)
            (λ _. Triple-revalidate payload launcher))

    opened : Triple W (open_destination h id) (λ _. W) E
    unfolding open_destination
    opened = Triple-look W E weak_W _

    Triple-extract_archive :
        (bytes : Str) (asset : ReleaseAsset)
        → Triple W (extract_archive h id bytes asset) (λ _. W) E
    unfolding extract_archive
    Triple-extract_archive bytes asset =
        let inspected = inspect_archive h.ext h.zero_version h.formats h.app bytes asset in
        Triple-bind _ _ (Triple-test W E weak_W (map_err release inspected)) (λ extracted.
          Triple-bind _ _
            (Triple-test W E weak_W
              (map_err release (target_from_asset h.ext h.zero_version h.app asset)))
            (λ target. Triple-bind _ _ opened (λ _.
              Triple-bind _ _
                (Triple-test W E weak_W (launcher_name_for h target extracted.launcher))
                (λ launcher.
                  Triple-write_members (payload_name target h.app) extracted.payload.bytes
                    launcher))))

    Triple-extract_archive_file :
        (node : FileNode) (asset : ReleaseAsset)
        → Triple W (extract_archive_file h id node asset) (λ _. W) E
    unfolding extract_archive_file
    Triple-extract_archive_file (regular bytes) asset =
        Triple-bind _ _ (Triple-test W E weak_W _) (λ _. Triple-extract_archive bytes asset)
    Triple-extract_archive_file absent asset = Triple-raise _ weak_W
    Triple-extract_archive_file special asset = Triple-raise _ weak_W

    Triple-stage_member :
        (name : Str) (node : FileNode)
        → Triple {V = V} W (effect (stage_member id name node)) (λ _. W) E
    Triple-stage_member name node =
        Triple-change W E weak_W _ (λ d x. Working-stage_member h install pointer id name node d x)

    pub Triple-write_downloaded :
        (same_manifest : ReleaseManifest V → ReleaseManifest V → Bool)
        (metadata : ReleaseMetadata V) (archive_bytes owner : Str) (target : Target)
        → Triple W
            (write_downloaded_version h same_manifest id metadata archive_bytes owner target)
            (λ _. W)
            E
    unfolding write_downloaded_version
    Triple-write_downloaded same_manifest metadata archive_bytes owner target =
        Triple-bind _ _ (Triple-test W E weak_W _) (λ selected.
          Triple-bind _ _ (Triple-look W E weak_W _) (λ exists.
            Triple-bind _ _
              (Triple-create_new W E weak_W exists _ (λ d x.
                Working-stage_file h install pointer id selected.asset.archive archive_bytes d x))
              (λ _. Triple-bind _ _ (Triple-look W E weak_W _) (λ node.
                Triple-bind _ _ (Triple-extract_archive_file node selected.asset) (λ _.
                  Triple-bind _ _ (Triple-stage_member _ _) (λ _.
                    Triple-bind _ _ (Triple-stage_member _ _) (λ _.
                      Triple-bind _ _ (Triple-sync W E weak_W) (λ _.
                        Triple-bind _ _ (Triple-test W E weak_W _)
                          (λ _. Triple-stage_member _ _)))))))))

    -- The staged version has been verified for this installation.
    pub record IsChecked (version : V) (owner : Str) (s : VersionState V Target) (d : Disk)
        : Type 0 where
      pub working : W d
      pub contents :
          verify_contents h (staged_version (lookup id d.staging)).members (some owner) ≡ ok s
      pub named : version_eq h.ext s.version version ≡ true

    pub Triple-verify_staged :
        (version : V) (owner : Str)
        → Triple W (verify_staged_version h id version owner) (λ s. IsChecked version owner s) E
    unfolding verify_staged_version
    Triple-verify_staged version owner =
        Triple-bind _ _
          (Triple-read W E weak_W
            (λ d. verify_contents h (staged_version (lookup id d.staging)).members (some owner)))
          (λ s.
            Triple-bind _ _
              (Triple-check
                (λ d.
                  W d
                  × (verify_contents h (staged_version (lookup id d.staging)).members (some owner)
                      ≡ ok s))
                E (λ d x. weak_W d x.0) (reject_if (not (version_eq h.ext s.version version)) _))
              (λ _. Triple-pure s (λ d x. record {
                working = x.0.0;
                contents = x.0.1;
                named =
                    ground
                      (arith, reject_if-eq-ok (not (version_eq h.ext s.version version)) _ x.1);
              })))
