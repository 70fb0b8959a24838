-- ===== src/Release/Download/Urls.antt =====
-- The URLs of a release (`latest_metadata_url`, `exact_metadata_url`, `repository_base`,
-- `release_base_from_manifest_url`, `versioned_manifest_url`, `versioned_release_version`,
-- `require_https` in src/release/download.rs).
use relswap.Base.{
  Str, text, Bool, not, ◌&&◌, ◌||◌, Option, none, some, List, ◌∷◌, ◌++◌, Result, ok, ok_or,
  reject_if, is_some, is_empty, str_eq, strip_prefix, strip_suffix, if◌then◌else◌,
}
use relswap.External.{External}
use relswap.App
use relswap.App.{App}
use relswap.Release.Error.{ReleaseError, download, ◌>>=◌, ◌>>◌}

-- What the source calls of `url::Url`.
pub record UrlCrate (U : Type 0) : Type 0 where
  pub scheme : U → Str
  pub path : U → Str
  pub path_segments : U → Option (List Str)
  pub query : U → Option Str
  pub fragment : U → Option Str
  pub join : U → Str → Option U
  pub set_path : U → Str → U
  -- `set_query(None)` and `set_fragment(None)`
  pub clear_query : U → U
  pub clear_fragment : U → U

module _ {V U : Type 0} (ext : External V) (urls : UrlCrate U) where
  unfoldable pub require_https : U → Result ReleaseError (Unit {0})
  unfolding str_eq
  require_https url =
      reject_if (not (str_eq (urls.scheme url) (text "https")))
        (download "release downloads require HTTPS")

  unfoldable pub ends_with_slash : Str → Bool
  unfolding strip_suffix
  ends_with_slash path = is_some (strip_suffix (text "/") path)

  unfoldable pub repository_base : U → Result ReleaseError U
  unfolding require_https ends_with_slash
  repository_base repository = do
    require_https repository
    reject_if (is_some (urls.query repository) || is_some (urls.fragment repository))
        (download "repository URL must not contain a query or fragment")
    ok (
        if ends_with_slash (urls.path repository)
        then repository
        else urls.set_path repository (urls.path repository ++ text "/"))

  module _ (app : App) where
    unfoldable pub latest_metadata_url : U → Result ReleaseError U
    unfolding repository_base App.metadata_filename
    latest_metadata_url repository = do
      base ← repository_base repository
      ok_or (urls.join base (text "releases/latest/download/" ++ App.metadata_filename app))
          (download "invalid latest metadata URL")

    unfoldable pub exact_metadata_url : U → V → Result ReleaseError U
    unfolding repository_base App.metadata_filename
    exact_metadata_url repository version = do
      base ← repository_base repository
      ok_or
          (urls.join base (
            text "releases/download/v"
            ++ (ext.version_text version ++ (text "/" ++ App.metadata_filename app))))
          (download "invalid release metadata URL")

    -- The version of a canonical tag `v<version>`.
    unfoldable pub manifest_version : U → Str → Result ReleaseError V
    unfolding strip_prefix str_eq
    manifest_version url tag = do
      raw ←
          ok_or (strip_prefix (text "v") tag) (download "versioned release URL is missing v prefix")
      version ← ok_or (ext.parse_version raw) (download "invalid release URL version")
      reject_if
          (not (str_eq (ext.version_text version) raw)
            || is_some (urls.query url)
            || is_some (urls.fragment url))
          (download "release manifest redirect URL is not canonical")
      ok version

    -- The loop of `versioned_manifest_url`, on the segments from the index on.
    unfoldable pub find_manifest : U → List Str → Result ReleaseError (Option (V × U))
    unfolding str_eq manifest_version App.metadata_filename
    find_manifest url (a ∷ b ∷ tag ∷ d ∷ rest) =
        let later = find_manifest url (b ∷ tag ∷ d ∷ rest) in
        if not (str_eq a (text "releases"))
          || not (str_eq b (text "download"))
          || not (str_eq d (App.metadata_filename app))
          || not (is_empty rest)
        then later
        else (do version ← manifest_version url tag; ok (some (version, url)))
    find_manifest url _ = ok none

    unfoldable pub versioned_manifest_url : U → Result ReleaseError (Option (V × U))
    unfolding find_manifest
    versioned_manifest_url url = do
      segments ← ok_or (urls.path_segments url) (download "release URL has no path segments")
      find_manifest url segments

    unfoldable pub release_base_from_manifest_url : U → Result ReleaseError U
    unfolding versioned_manifest_url App.metadata_filename strip_suffix
    release_base_from_manifest_url url = do
      found ← versioned_manifest_url url
      (version, _) ← ok_or found (download "URL is not a version-specific release manifest")
      let release = text "/releases/download/v" ++ ext.version_text version
      prefix ←
          ok_or (strip_suffix (release ++ (text "/" ++ App.metadata_filename app)) (urls.path url))
            (download "cannot derive exact release base URL")
      ok (
          urls.set_path (urls.clear_fragment (urls.clear_query url))
            (prefix ++ (release ++ text "/")))

  unfoldable pub release_version : Str → Result ReleaseError V
  unfolding strip_prefix str_eq
  release_version tag = do
    raw ←
        ok_or (strip_prefix (text "v") tag)
          (download "versioned release redirect is missing v prefix")
    version ← ok_or (ext.parse_version raw) (download "invalid release redirect version")
    reject_if (not (str_eq (ext.version_text version) raw))
        (download "release redirect version is not canonical")
    ok version

  -- The loop of `versioned_release_version`, on the segments from the index on.
  unfoldable pub find_release : List Str → Result ReleaseError (Option V)
  unfolding str_eq release_version
  find_release (a ∷ b ∷ tag ∷ rest) =
      let later = find_release (b ∷ tag ∷ rest) in
      if str_eq a (text "releases") && str_eq b (text "download")
      then (do version ← release_version tag; ok (some version))
      else later
  find_release _ = ok none

  unfoldable pub versioned_release_version : U → Result ReleaseError (Option V)
  unfolding find_release
  versioned_release_version url = elim (urls.path_segments url) [
    | none ↦ ok none
    | some segments ↦ find_release segments
  ]
