-- ===== src/Release/Archive/Inspect.antt =====
-- `inspect_archive`: the shape of the asset, the digest of the whole archive, then every member.
use relswap.Base.{Str, Bool, Option, List, Result, if◌then◌else◌}
use relswap.External.{External}
use relswap.App.{App}
use relswap.Release.Error.{ReleaseError, ◌>>=◌, ◌>>◌}
use relswap.Release.Target.{is_windows}
use relswap.Release.Manifest.{ReleaseAsset}
use relswap.Release.Archive.Member.{
  ExtractedRelease, target_from_asset, validate_asset_against_manifest_shape, verify_archive_bytes,
}
use relswap.Release.Archive.Tar.{TarHeader, inspect_tar_gz}
use relswap.Release.Archive.Zip.{ZipEntry, inspect_zip}

-- The archive formats that flate2, tar and zip read.
pub record Formats : Type 0 where
  pub gunzip : Str → Str × Bool
  pub tar_header : Str → TarHeader
  pub zip_entries : Str → Option (List ZipEntry)

unfoldable pub inspect_archive :
    {V : Type 0}
    → External V
    → V
    → Formats
    → App
    → Str
    → ReleaseAsset
    → Result ReleaseError ExtractedRelease
unfolding validate_asset_against_manifest_shape verify_archive_bytes target_from_asset is_windows
    inspect_zip inspect_tar_gz
inspect_archive ext zero_version formats app bytes asset = do
  validate_asset_against_manifest_shape ext zero_version app asset
  verify_archive_bytes ext zero_version app bytes asset
  target ← target_from_asset ext zero_version app asset
  if is_windows target
      then inspect_zip ext zero_version formats.zip_entries app bytes asset
      else inspect_tar_gz ext zero_version formats.gunzip formats.tar_header app bytes asset
