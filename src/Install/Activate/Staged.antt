-- ===== src/Install/Activate/Staged.antt =====
-- What the staging of a downloaded version keeps (`create_transaction`, `write_downloaded_version`,
-- `rename_new` in src/install/activation.rs and src/fs/executable.rs).
use relswap.Base.{
  Str, true, ◌≡◌, refl, Option, none, some, List, [], ◌∷◌, ok, arith, lookup, insert, lookup-insert,
  str_eq_refl, str_eq_iff, all,
}
use relswap.Release.Target.{Target}
use relswap.Install.State.{InstallState, VersionState}
use relswap.Install.Host.{Host, version_name}
use relswap.Install.Disk.{FileNode, VersionDir, StagedDir, Disk, directory, version_dir_state}
use relswap.Install.Staging.{
  put_staged, private_version, stage_file, stage_member, unstage_member, move_version,
  staged_version, kept_version, version_of, put_version,
}
use relswap.Install.Verify.{verify_contents}
use relswap.Install.Verify.Checked.{verify_contents-owned}
use relswap.External.{version_eq}
use relswap.Install.Health.{Verified, At}
use relswap.Install.Health.Frame.{At-same, Agree-map}
use relswap.Install.Activate.CrashSafe.{IsPrepared}

all-insert :
    (id : Str) (dir : StagedDir) (l : List (Str × StagedDir))
    → dir.is_directory ≡ true
    → all (λ (e : Str × StagedDir). e.1.is_directory) l ≡ true
    → all (λ (e : Str × StagedDir). e.1.is_directory) (insert id dir l) ≡ true
all-insert id dir [] t h = ground arith
all-insert id dir ((j, other) ∷ l) t h = ground (arith, all-insert id dir l t)

-- The staged version of a transaction is a private directory.
pub record IsStaged (id : Str) (d : Disk) : Type 0 where
  pub real : (staged_version (lookup id d.staging)).is_directory ≡ true
  pub hidden : (staged_version (lookup id d.staging)).is_private ≡ true

found_put :
    (id : Str) (dir : StagedDir) (d : Disk) → lookup id (put_staged id dir d).staging ≡ some dir
unfolding put_staged
found_put id dir d = rw lookup-insert (ground (arith, str_eq_refl id))

private_at :
    (id : Str) (files : List (Str × FileNode)) (v : VersionDir) (d : Disk)
    → v.is_directory ≡ true
    → v.is_private ≡ true
    → IsStaged id (
        put_staged id
          (record { is_directory = true; is_private = true; files = files; version = some v })
          d)
private_at id files v d a b =
    let dir : StagedDir = record {
      is_directory = true;
      is_private = true;
      files = files;
      version = some v;
    } in
    let e = found_put id dir d in record { real = rw e a; hidden = rw e b }

module _ {V : Type 0} (h : Host V) (install : Option (InstallState V)) (pointer : Option V) where
  pub At-put_staged :
      (id : Str) (dir : StagedDir) (d : Disk)
      → dir.is_directory ≡ true
      → At h install none pointer d
      → At h install none pointer (put_staged id dir d)
  unfolding put_staged
  At-put_staged id dir d t x =
      At-same h x (record d { staging = insert id dir d.staging }) refl refl refl refl
        (record {
          root_usable = x.laid_out.root_usable;
          versions_usable = x.laid_out.versions_usable;
          staging_usable = x.laid_out.staging_usable;
          staged = all-insert id dir d.staging t x.laid_out.staged;
        })

  -- A healthy disk with a transaction.
  abbrev pub Working : Str → Disk → Type 0
  Working id d = At h install none pointer d × IsStaged id d

  with_version :
      (id : Str) (files : List (Str × FileNode)) (v : VersionDir) (d : Disk)
      → v.is_directory ≡ true
      → v.is_private ≡ true
      → At h install none pointer d
      → Working id (
          put_staged id
            (record { is_directory = true; is_private = true; files = files; version = some v })
            d)
  with_version id files v d a b x = (At-put_staged id _ d refl x, private_at id files v d a b)

  pub Working-stage_file :
      (id name bytes : Str) (d : Disk) → Working id d → Working id (stage_file id name bytes d)
  unfolding stage_file
  Working-stage_file id name bytes d x = with_version id _ _ d x.1.real x.1.hidden x.0

  pub Working-stage_member :
      (id name : Str) (node : FileNode) (d : Disk)
      → Working id d
      → Working id (stage_member id name node d)
  unfolding stage_member
  Working-stage_member id name node d x = with_version id _ _ d x.1.real x.1.hidden x.0

  pub Working-unstage_member :
      (id name : Str) (d : Disk) → Working id d → Working id (unstage_member id name d)
  unfolding unstage_member
  Working-unstage_member id name d x = with_version id _ _ d x.1.real x.1.hidden x.0

  pub Working-put_version :
      (id : Str) (d : Disk) → At h install none pointer d → Working id (put_version id d)
  unfolding put_version
  Working-put_version id d x = with_version id _ private_version d refl refl x

  -- A version directory that is there and private is kept.
  private_version_of :
      (o : Option StagedDir)
      → version_dir_state (version_of o) ≡ directory true
      → ((staged_version o).is_directory ≡ true) × ((staged_version o).is_private ≡ true)
  private_version_of none e = cc
  private_version_of (some dir) e = at dir.version e
    where
      at :
          (v : Option VersionDir)
          → version_dir_state v ≡ directory true
          → ((kept_version v).is_directory ≡ true) × ((kept_version v).is_private ≡ true)
      at none e = cc
      at (some w) e = ground arith

  pub Working-found :
      (id : Str) (d : Disk)
      → At h install none pointer d
      → version_dir_state (version_of (lookup id d.staging)) ≡ directory true
      → Working id d
  Working-found id d x e =
      let (a, b) = private_version_of (lookup id d.staging) e in
      (x, record { real = a; hidden = b })

  module _ (id : Str) (version : V) where
    Verified-move :
        (v : V) (s : VersionState V Target) (d : Disk)
        → lookup (version_name h version) d.versions ≡ none
        → Verified h v s d
        → Verified h v s (move_version id (version_name h version) d)
    unfolding move_version put_staged
    Verified-move v s d free x = record {
      dir = x.dir;
      found =
          rw lookup-insert
            (ground (arith, str_eq_iff (version_name h version) (version_name h v), free, x.found));
      real = x.real;
      hidden = x.hidden;
      contents = x.contents;
      named = x.named;
    }

    pub At-move :
        (d : Disk)
        → lookup (version_name h version) d.versions ≡ none
        → At h install none pointer d
        → At h install none pointer (move_version id (version_name h version) d)
    unfolding move_version put_staged
    At-move d free x = record {
      laid_out = record {
        root_usable = x.laid_out.root_usable;
        versions_usable = x.laid_out.versions_usable;
        staging_usable = x.laid_out.staging_usable;
        staged = all-insert id _ d.staging refl x.laid_out.staged;
      };
      install_read = x.install_read;
      install_valid = x.install_valid;
      pending_read = x.pending_read;
      pending_valid = x.pending_valid;
      pointer_read = x.pointer_read;
      agree =
          Agree-map h install none pointer d (move_version id (version_name h version) d)
            (λ v s y. Verified-move v s d free y) x.agree;
    }

    -- The staged version that was verified is the one that is there after the rename.
    pub IsPrepared-move :
        (owner : Str) (s : VersionState V Target) (d : Disk)
        → IsStaged id d
        → verify_contents h (staged_version (lookup id d.staging)).members (some owner) ≡ ok s
        → version_eq h.ext s.version version ≡ true
        → IsPrepared h version owner (move_version id (version_name h version) d)
    unfolding move_version put_staged
    IsPrepared-move owner s d staged e named =
        let (contents, owned) =
          verify_contents-owned h (staged_version (lookup id d.staging)).members s owner e in
        record {
          state = s;
          verified = record {
            dir = staged_version (lookup id d.staging);
            found = rw lookup-insert (ground (arith, str_eq_refl (version_name h version)));
            real = staged.real;
            hidden = staged.hidden;
            contents = contents;
            named = named;
          };
          owned = owned;
        }
