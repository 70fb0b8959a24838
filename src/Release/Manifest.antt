-- ===== src/Release/Manifest.antt =====
-- The signed release manifest and its validation (src/release/manifest.rs). A `String` field is the
-- list of its bytes; the manifest as serde_json decodes it, before the canonical version and the map
-- keys are read, is `ManifestDocument`, and the decoder itself is a parameter.
pub mod Selected
use relswap.Base.{
  ◌*◌, ◌^◌, ℕ, ◌+◌, Str, text, Bool, true, false, not, ◌&&◌, ◌||◌, Option, none, some, List, [],
  ◌∷◌, Result, ok, err, ok_or, reject_if, str_eq, starts_with, split_on, contains_byte, all_bytes,
  length, is_empty, any, ltb, leb, ◌==◌, if◌then◌else◌,
}
use relswap.External.{External}
use relswap.App.{App}
use relswap.Release.Error.{
  ReleaseError, invalid, json, ◌>>=◌, ◌>>◌, max_archive_size, max_member_size, max_metadata_size,
}
use relswap.Release.Target
use relswap.Release.Target.{Target, target_eq, is_windows, all_targets}

abbrev pub manifest_schema_version : ℕ
manifest_schema_version = 2

-- Twelve hours, in nanoseconds.
abbrev pub expiry_clock_skew : ℕ
expiry_clock_skew = 43200 * 10 ^ 9

pub record PayloadInfo : Type 0 where
  pub path : Str
  pub sha256 : Str
  pub size : ℕ

pub record LauncherInfo : Type 0 where
  pub path : Str
  pub sha256 : Str
  pub size : ℕ
  pub protocol : ℕ

pub record ReleaseAsset : Type 0 where
  pub archive : Str
  pub archive_sha256 : Str
  pub archive_size : ℕ
  pub payload : PayloadInfo
  pub launcher : Option LauncherInfo

pub record SelectedAsset : Type 0 where
  pub target : Target
  pub asset : ReleaseAsset

-- `targets` is a `BTreeMap`: its entries in order.
pub record ReleaseManifest (V : Type 0) : Type 0 where
  pub schema_version : ℕ
  pub version : V
  pub published_at : Str
  pub expires_at : Str
  pub targets : List (Target × ReleaseAsset)

pub record ManifestDocument : Type 0 where
  pub schema_version : ℕ
  pub version : Str
  pub published_at : Str
  pub expires_at : Str
  pub targets : List (Str × ReleaseAsset)

unfoldable pub validate_size : ℕ → ℕ → Result ReleaseError (Unit {0})
validate_size size maximum = do
  reject_if (size == 0) (invalid "size must be nonzero")
  reject_if (ltb maximum size) (invalid "size exceeds maximum")

-- `byte.is_ascii_digit() || (b'a'..=b'f').contains(byte)`
abbrev pub is_lower_hex : ℕ → Bool
is_lower_hex byte = (leb b'0' byte && leb byte b'9') || (leb b'a' byte && leb byte b'f')

unfoldable pub validate_sha256 : Str → Result ReleaseError (Unit {0})
unfolding all_bytes
validate_sha256 value =
    reject_if (not (length value == 64) || not (all_bytes is_lower_hex value))
      (invalid "invalid SHA-256: expected 64 lowercase hexadecimal characters")

unfoldable pub validate_basename : Str → Result ReleaseError (Unit {0})
unfolding str_eq contains_byte
validate_basename value =
    reject_if
      (is_empty value
        || str_eq value (text ".")
        || str_eq value (text "..")
        || contains_byte b'/' value
        || contains_byte 92 value
        || contains_byte 0 value
        || contains_byte b':' value)
      (invalid "noncanonical name")

-- `part.is_empty() || part == "." || part == ".."`
unfoldable pub is_unsafe_part : Str → Bool
unfolding str_eq
is_unsafe_part part = is_empty part || str_eq part (text ".") || str_eq part (text "..")

abbrev pub first_contains : ℕ → List Str → Bool
first_contains b [] = false
first_contains b (w ∷ ws) = contains_byte b w

unfoldable pub validate_member_path : Str → Result ReleaseError (Unit {0})
unfolding starts_with contains_byte split_on is_unsafe_part
validate_member_path value = do
  reject_if
      (is_empty value
        || starts_with (text "/") value
        || contains_byte 92 value
        || contains_byte 0 value
        || any is_unsafe_part (split_on b'/' value))
      (invalid "noncanonical path")
  reject_if (first_contains b':' (split_on b'/' value)) (invalid "noncanonical path")

-- `target.launcher_protocol(app).unwrap_or(0)`
abbrev pub protocol_or_zero : Option ℕ → ℕ
protocol_or_zero none = 0
protocol_or_zero (some p) = p

module _ {V : Type 0} (ext : External V) (app : App) where
  -- The `match` on the target and the launcher in `ReleaseAsset::validate`.
  unfoldable pub validate_launcher :
      V → Target → Str → Bool → Option LauncherInfo → Result ReleaseError (Unit {0})
  unfolding validate_member_path validate_size validate_sha256
  validate_launcher version target payload_path true (some launcher) = do
    expected ←
        ok_or (Target.launcher_path ext target app version)
          (invalid "app does not configure a Windows launcher required by the target")
    reject_if (not (str_eq launcher.path expected)) (invalid "noncanonical launcher path")
    reject_if (not (launcher.protocol == protocol_or_zero (Target.launcher_protocol target app)))
        (invalid "unsupported launcher protocol")
    validate_member_path launcher.path
    validate_size launcher.size max_member_size
    validate_sha256 launcher.sha256
    reject_if (str_eq launcher.path payload_path)
        (invalid "payload and launcher paths must be distinct")
  validate_launcher version target payload_path true none =
      err (invalid "Windows release asset is missing its protocol-1 launcher")
  validate_launcher version target payload_path false (some _) =
      err (invalid "non-Windows release asset must not contain a launcher")
  validate_launcher version target payload_path false none = ok tt

  -- `ReleaseAsset::validate`
  unfoldable pub validate_asset : V → Target → ReleaseAsset → Result ReleaseError (Unit {0})
  unfolding validate_launcher validate_basename
  validate_asset version target asset = do
    reject_if (not (str_eq asset.archive (Target.archive_name ext target app version)))
        (invalid "noncanonical archive name")
    validate_basename asset.archive
    validate_size asset.archive_size max_archive_size
    validate_sha256 asset.archive_sha256
    reject_if (not (str_eq asset.payload.path (Target.payload_path ext target app version)))
        (invalid "noncanonical payload path")
    validate_member_path asset.payload.path
    validate_size asset.payload.size max_member_size
    validate_sha256 asset.payload.sha256
    validate_launcher version target asset.payload.path (is_windows target) asset.launcher

  -- The loop over `targets`; `seen` is the `HashSet`.
  unfoldable pub validate_targets :
      V → List Target → List (Target × ReleaseAsset) → Result ReleaseError (Unit {0})
  unfolding target_eq
  validate_targets version seen [] = ok tt
  validate_targets version seen ((target, asset) ∷ rest) =
      let later = validate_targets version (target ∷ seen) rest in
      do
        reject_if (any (target_eq target) seen) (invalid "duplicate release target")
        validate_asset version target asset
        later

  -- `ReleaseManifest::validate`
  unfoldable pub validate : ReleaseManifest V → Result ReleaseError (Unit {0})
  unfolding validate_targets
  validate manifest = do
    reject_if (not (manifest.schema_version == manifest_schema_version))
        (invalid "unsupported release manifest schema_version")
    reject_if (is_empty (ext.version_text manifest.version))
        (invalid "release manifest version is empty")
    _ ←
        ok_or (ext.parse_rfc3339 manifest.published_at)
          (invalid "invalid published_at RFC3339 timestamp")
    _ ←
        ok_or (ext.parse_rfc3339 manifest.expires_at)
          (invalid "invalid expires_at RFC3339 timestamp")
    reject_if (is_empty manifest.targets)
        (invalid "release manifest must contain at least one target")
    reject_if (ltb (length all_targets) (length manifest.targets))
        (invalid "release manifest contains too many targets")
    validate_targets manifest.version [] manifest.targets

  -- `self.targets.get(&target)`
  unfoldable pub get_target : Target → List (Target × ReleaseAsset) → Option ReleaseAsset
  get_target target [] = none
  get_target target ((t, asset) ∷ rest) =
      if target_eq t target then some asset else get_target target rest

  -- `ReleaseManifest::new`
  unfoldable pub new :
      V → Str → Str → List (Target × ReleaseAsset) → Result ReleaseError (ReleaseManifest V)
  unfolding validate
  new version published_at expires_at targets =
      let manifest : ReleaseManifest V = record {
        schema_version = manifest_schema_version;
        version = version;
        published_at = published_at;
        expires_at = expires_at;
        targets = targets;
      } in
      do validate manifest; ok manifest

  -- `asset_for`: the map key is the authority on the target.
  unfoldable pub asset_for : ReleaseManifest V → Target → Result ReleaseError SelectedAsset
  unfolding validate get_target
  asset_for manifest target = do
    validate manifest
    asset ← ok_or (get_target target manifest.targets) (invalid "release has no asset for target")
    ok (record { target = target; asset = asset })

  -- `now - EXPIRY_CLOCK_SKEW > expires_at`
  unfoldable pub ensure_not_expired : ReleaseManifest V → ℕ → Result ReleaseError (Unit {0})
  ensure_not_expired manifest now = do
    expires_at ←
        ok_or (ext.parse_rfc3339 manifest.expires_at)
          (invalid "invalid expires_at RFC3339 timestamp")
    reject_if (ltb (expires_at + expiry_clock_skew) now) (invalid "release manifest has expired")

  -- `deserialize_canonical_version`
  unfoldable pub deserialize_canonical_version : Str → Result ReleaseError V
  deserialize_canonical_version raw = do
    parsed ← ok_or (ext.parse_version raw) json
    reject_if (not (str_eq (ext.version_text parsed) raw)) json
    ok parsed

  -- The keys of `targets`, read by `Target::from_str`.
  unfoldable pub deserialize_targets :
      List (Str × ReleaseAsset) → Result ReleaseError (List (Target × ReleaseAsset))
  deserialize_targets [] = ok []
  deserialize_targets ((key, asset) ∷ rest) =
      let later = deserialize_targets rest in
      do target ← Target.from_str key; targets ← later; ok ((target, asset) ∷ targets)

  -- `ReleaseManifest::from_bytes` over `serde_json`'s view of the bytes, `decode`.
  unfoldable pub from_bytes :
      (Str → Option ManifestDocument) → Str → Result ReleaseError (ReleaseManifest V)
  unfolding validate deserialize_canonical_version deserialize_targets
  from_bytes decode bytes = do
    reject_if (ltb max_metadata_size (length bytes)) (invalid "release manifest is too large")
    document ← ok_or (decode bytes) json
    version ← deserialize_canonical_version document.version
    targets ← deserialize_targets document.targets
    let manifest : ReleaseManifest V = record {
      schema_version = document.schema_version;
      version = version;
      published_at = document.published_at;
      expires_at = document.expires_at;
      targets = targets;
    }
    validate manifest
    ok manifest

  -- `ReleaseAsset::new` and `with_launcher`
  unfoldable pub new_asset : V → Target → ℕ → Str → ℕ → Str → ReleaseAsset
  new_asset version target archive_size archive_sha256 payload_size payload_sha256 = record {
    archive = Target.archive_name ext target app version;
    archive_sha256 = archive_sha256;
    archive_size = archive_size;
    payload = record {
      path = Target.payload_path ext target app version;
      sha256 = payload_sha256;
      size = payload_size;
    };
    launcher = none;
  }

  unfoldable pub with_launcher : ReleaseAsset → V → Target → ℕ → ℕ → Str → ReleaseAsset
  with_launcher asset version target protocol launcher_size launcher_sha256 =
      elim (Target.launcher_path ext target app version) [
        | none ↦ asset
        | some path ↦ record asset {
          launcher = some (record {
            path = path;
            sha256 = launcher_sha256;
            size = launcher_size;
            protocol = protocol;
          });
        }
      ]
