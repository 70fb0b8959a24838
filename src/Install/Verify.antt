-- ===== src/Install/Verify.antt =====
-- The verification of a version directory and of downloaded metadata (`verify_version_dir_inner`,
-- `verify_final_version`, `validate_exact_version_members`, `verify_metadata` in
-- src/install/activation.rs). The checks of the contents are pure; the action also makes or checks
-- the directory, as `ensure_private_dir` does.
mod Contents
pub mod Checked
pub use Contents.{ReleaseMetadata, node_at}
unfoldable pub use Contents.{
  check_signature, read_regular_limited, verify_file_digest, check_launchers, exact_members,
  differs, verify_release, verify_contents, verify_metadata, require_target,
}
use relswap.Base.{
  Str, Bool, true, false, not, Option, none, some, List, [], ◌∷◌, ok, reject_if, lookup, str_eq,
}
use relswap.External.{version_eq}
use relswap.Release.Target.{Target}
use relswap.Install.State.{invalid, VersionState}
use relswap.Install.Host.{Host, version_name}
use relswap.Install.Disk.{
  FileNode, VersionDir, Disk, Action, pure, lift, inspect, ensure_private_version_dir, ◌>>=◌, ◌>>◌,
}

abbrev pub members_of : Option VersionDir → List (Str × FileNode)
members_of none = []
members_of (some dir) = dir.members

module _ {V : Type 0} (h : Host V) where
  -- `verify_version_dir_inner` at a directory of `versions`.
  unfoldable pub verify_version_dir : Str → Option Str → Action V (VersionState V Target)
  unfolding ensure_private_version_dir inspect verify_contents
  verify_version_dir name installation_id = do
    ensure_private_version_dir name
    inspect (λ d. verify_contents h (members_of (lookup name d.versions)) installation_id)

  unfoldable pub verify_final_version : V → Option Str → Action V (VersionState V Target)
  unfolding verify_version_dir version_name
  verify_final_version version installation_id = do
    state ← verify_version_dir (version_name h version) installation_id
    lift (
        reject_if (not (version_eq h.ext state.version version))
          (invalid "version.json does not match its immutable directory name"))
    pure state
