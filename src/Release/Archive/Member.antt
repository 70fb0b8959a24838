-- ===== src/Release/Archive/Member.antt =====
-- Members that matched the manifest, and which target and version an asset is for.
use relswap.Base.{
  ℕ, Str, text, Bool, true, false, not, ◌&&◌, ◌||◌, Option, none, some, List, [], ◌∷◌, ◌++◌, Result,
  ok, err, ok_or, reject_if, is_some, is_none, str_eq, strip_prefix, strip_suffix, split_on, length,
  find, ltb, ◌==◌, if◌then◌else◌, any,
}
use relswap.External.{External}
use relswap.App
use relswap.App.{App}
use relswap.Release.Error.{
  ReleaseError, archive, ◌>>=◌, ◌>>◌, max_archive_size, max_member_size, verify_bytes,
}
use relswap.Release.Target
use relswap.Release.Target.{Target, is_windows, all_targets, as_str, archive_suffix}
use relswap.Release.Manifest.{ReleaseAsset, LauncherInfo, validate_asset}
use relswap.Release.Archive.Names.{first_part}

pub record VerifiedMember : Type 0 where
  pub path : Str
  pub bytes : Str

pub record ExtractedRelease : Type 0 where
  pub payload : VerifiedMember
  pub launcher : Option VerifiedMember

abbrev or_else_text : Option Str → Str → Str
or_else_text none s = s
or_else_text (some t) s = t

abbrev and_then_strip : Option Str → (Str → Option Str) → Option Str
and_then_strip none f = none
and_then_strip (some s) f = f s

-- `semver::Version::new(0, 0, 0)` is the parameter `zero_version`.
module _ {V : Type 0} (ext : External V) (zero_version : V) (app : App) where
  abbrev version_or_zero : Option V → V
  version_or_zero none = zero_version
  version_or_zero (some v) = v

  unfoldable pub canonical_version_from_archive_name : Str → Target → V
  unfolding archive_suffix strip_suffix strip_prefix as_str App.archive_prefix
  canonical_version_from_archive_name name target =
      let stem = or_else_text (strip_suffix (archive_suffix target) name) [] in
      let version =
        or_else_text
          (and_then_strip (strip_prefix (App.archive_prefix app) stem)
            (strip_suffix (text "-" ++ as_str target)))
          (text "0.0.0") in
      version_or_zero (ext.parse_version version)

  unfoldable pub canonical_version_from_asset : ReleaseAsset → Target → V
  unfolding strip_suffix strip_prefix as_str App.archive_prefix split_on
  canonical_version_from_asset asset target =
      let root =
        or_else_text
          (and_then_strip
            (strip_prefix (App.archive_prefix app) (first_part (split_on b'/' asset.payload.path)))
            (strip_suffix (text "-" ++ as_str target)))
          (text "0.0.0") in
      version_or_zero (ext.parse_version root)

  unfoldable pub names_target : ReleaseAsset → Target → Bool
  unfolding canonical_version_from_archive_name str_eq
  names_target asset target = str_eq asset.archive (
      Target.archive_name ext target app (canonical_version_from_archive_name asset.archive target))

  unfoldable pub target_from_asset : ReleaseAsset → Result ReleaseError Target
  unfolding names_target
  target_from_asset asset =
      ok_or (find (names_target asset) all_targets)
        (archive "release asset has no supported target")

  unfoldable pub validate_shape_launcher :
      Bool → Option LauncherInfo → Result ReleaseError (Unit {0})
  unfolding App.launcher_protocol
  validate_shape_launcher true none = err (archive "Windows asset has no launcher metadata")
  validate_shape_launcher true (some launcher) = do
    protocol ← ok_or (App.launcher_protocol app) (archive "invalid Windows launcher metadata")
    reject_if
        (not (launcher.protocol == protocol)
          || launcher.size == 0
          || ltb max_member_size launcher.size)
        (archive "invalid Windows launcher metadata")
  validate_shape_launcher false (some _) = err (archive "unexpected launcher metadata")
  validate_shape_launcher false none = ok tt

  unfoldable pub validate_asset_against_manifest_shape :
      ReleaseAsset → Result ReleaseError (Unit {0})
  unfolding target_from_asset validate_shape_launcher is_windows
  validate_asset_against_manifest_shape asset = do
    reject_if
        (asset.archive_size == 0
          || ltb max_archive_size asset.archive_size
          || asset.payload.size == 0
          || ltb max_member_size asset.payload.size)
        (archive "invalid release asset size")
    reject_if (not (length asset.archive_sha256 == 64) || not (length asset.payload.sha256 == 64))
        (archive "invalid release asset hash")
    target ← target_from_asset asset
    validate_shape_launcher (is_windows target) asset.launcher

  unfoldable pub verify_archive_bytes : Str → ReleaseAsset → Result ReleaseError (Unit {0})
  unfolding target_from_asset canonical_version_from_asset validate_asset verify_bytes
  verify_archive_bytes bytes asset = do
    target ← target_from_asset asset
    validate_asset ext app (canonical_version_from_asset asset target) target asset
    reject_if (ltb max_archive_size (length bytes)) (archive "archive exceeds maximum size")
    verify_bytes ext bytes asset.archive_size asset.archive_sha256

  unfoldable pub finish_members :
      Option VerifiedMember
      → Option VerifiedMember
      → ReleaseAsset
      → Result ReleaseError ExtractedRelease
  unfolding target_from_asset is_windows
  finish_members payload launcher asset = do
    member ← ok_or payload (archive "archive did not contain exact payload")
    target ← target_from_asset asset
    reject_if (is_windows target && is_none launcher)
        (archive "archive did not contain the exact Windows launcher")
    reject_if (not (is_windows target) && is_some launcher)
        (archive "non-Windows archive contained an unexpected launcher")
    ok (record { payload = member; launcher = launcher })

-- What an archive has shown so far: the loop variables that the tar and the ZIP reader share.
pub record Found : Type 0 where
  pub names : List Str
  pub total_uncompressed : ℕ
  pub payload : Option VerifiedMember
  pub launcher : Option VerifiedMember
  pub root_seen : Bool

abbrev pub nothing_found : Found
nothing_found = record {
  names = [];
  total_uncompressed = 0;
  payload = none;
  launcher = none;
  root_seen = false;
}

-- The size and the digest that a member at this path must have, and whether it is the payload. The
-- source's `expect` on a missing launcher is the inner `none`: the callers validate the asset first.
unfoldable pub expected_member : ReleaseAsset → Option Str → Str → Option (ℕ × Str × Bool)
unfolding str_eq
expected_member asset expected_launcher path =
    if str_eq path asset.payload.path
    then some (asset.payload.size, asset.payload.sha256, true)
    else elim expected_launcher [
      | none ↦ none
      | some l ↦
          if str_eq l path
          then elim asset.launcher [
            | none ↦ none
            | some launcher ↦ some (launcher.size, launcher.sha256, false)
          ]
          else none
    ]

unfoldable pub store_member : Found → Bool → VerifiedMember → Found
store_member found true member = record found { payload = some member }
store_member found false member = record found { launcher = some member }

-- A complete regular member is digested and kept if the manifest names it.
unfoldable pub accept_member :
    {V : Type 0}
    → External V
    → Option (ℕ × Str × Bool)
    → Str
    → Str
    → Found
    → Result ReleaseError Found
unfolding verify_bytes store_member
accept_member ext none path bytes found = ok found
accept_member ext (some (size, hash, is_payload)) path bytes found = do
  verify_bytes ext bytes size hash
  ok (store_member found is_payload (record { path = path; bytes = bytes }))

unfoldable pub add_name : Str → Found → Result ReleaseError Found
unfolding str_eq
add_name path found = do
  reject_if (any (str_eq path) found.names) (archive "duplicate archive member")
  ok (record found { names = path ∷ found.names })
