-- ===== src/Install/State.antt =====
-- The state documents and their validation (src/install/mod.rs, src/install/journal.rs). A document
-- over `Str` is what serde_json decodes, one over the type of versions has its versions read.
use relswap.Base.{
  ℕ, Str, String, Bool, true, false, not, ◌&&◌, ◌||◌, Option, none, some, List, [], ◌∷◌, Result, ok,
  err, ok_or, reject_if, and_then, is_some, is_none, str_eq, starts_with, split_on, contains_byte,
  all_bytes, length, is_empty, ◌==◌,
}
use relswap.External.{External, version_eq}
use relswap.App.{App, launcher_name, archive_prefix}
use relswap.Release.Error.{ReleaseError}
use relswap.Release.Target.{Target, is_windows, from_str}
use relswap.Release.Manifest.{LauncherInfo, is_lower_hex}

abbrev pub state_schema_version : ℕ
state_schema_version = 1

pub data FaultPoint : Type 0 where
  lock_acquired : FaultPoint
  staging_created : FaultPoint
  payload_written : FaultPoint
  verified : FaultPoint
  staging_synced : FaultPoint
  version_renamed : FaultPoint
  self_tested : FaultPoint
  pending_written : FaultPoint
  pointer_switched : FaultPoint
  install_written : FaultPoint
  pending_removed : FaultPoint
  parents_synced : FaultPoint

pub data InstallError (V : Type 0) : Type 0 where
  io : InstallError V
  release : ReleaseError → InstallError V
  json : InstallError V
  invalid : String → InstallError V
  unmanaged : InstallError V
  downgrade : V → V → InstallError V
  fault : FaultPoint → InstallError V

pub record LauncherMetadata : Type 0 where
  pub path : Str
  pub sha256 : Str
  pub size : ℕ
  pub protocol : ℕ

pub record LauncherOwnership : Type 0 where
  pub owned : Bool
  pub path : Str
  pub sha256 : Str
  pub size : ℕ
  pub protocol : ℕ

pub record VersionState (V T : Type 0) : Type 0 where
  pub schema_version : ℕ
  pub version : V
  pub target : T
  pub binary_sha256 : Str
  pub size : ℕ
  pub installation_id : Str
  pub launcher : Option LauncherMetadata

pub record InstallState (V : Type 0) : Type 0 where
  pub schema_version : ℕ
  pub active : Option V
  pub previous : Option V
  pub installation_id : Str
  pub launcher : Option LauncherOwnership

pub record PendingActivation (V : Type 0) : Type 0 where
  pub schema_version : ℕ
  pub from : Option V
  pub to : V
  pub transaction_id : Str

pub record ActivationResult (V : Type 0) : Type 0 where
  pub version : V
  pub changed : Bool

infixl 5 ◌>>=◌ ◌>>◌
abbrev pub ◌>>=◌ :
    {V A B : Type 0}
    → Result (InstallError V) A
    → (A → Result (InstallError V) B)
    → Result (InstallError V) B
m >>= f = and_then m f

abbrev pub ◌>>◌ :
    {V B : Type 0}
    → Result (InstallError V) (Unit {0})
    → Result (InstallError V) B
    → Result (InstallError V) B
m >> k = m >>= λ _. k

-- `valid_id` and `lower_sha256`: 64 lowercase hexadecimal characters.
unfoldable pub valid_id : Str → Bool
unfolding all_bytes
valid_id value = length value == 64 && all_bytes is_lower_hex value

unfoldable pub lower_sha256 : Str → Bool
unfolding all_bytes
lower_sha256 value = length value == 64 && all_bytes is_lower_hex value

-- `<archive root>/<launcher name>` and nothing more.
abbrev two_parts : Str → Str → List Str → Bool
two_parts prefix launcher (root ∷ name ∷ []) =
    not (is_empty root) && starts_with prefix root && str_eq name launcher
two_parts prefix launcher _ = false

unfoldable pub canonical_launcher_path : App → Str → Bool
unfolding launcher_name archive_prefix split_on starts_with str_eq contains_byte
canonical_launcher_path app path = elim (launcher_name app) [
  | none ↦ false
  | some launcher ↦
      two_parts (archive_prefix app) launcher (split_on b'/' path)
      && not (contains_byte 92 path)
      && not (contains_byte 0 path)
]

unfoldable pub launcher_metadata : LauncherInfo → LauncherMetadata
launcher_metadata l = record {
  path = l.path;
  sha256 = l.sha256;
  size = l.size;
  protocol = l.protocol;
}

module _ {V : Type 0} where
  unfoldable pub validate_launcher_metadata :
      App → LauncherMetadata → Result (InstallError V) (Unit {0})
  unfolding lower_sha256 canonical_launcher_path
  validate_launcher_metadata app launcher =
      reject_if
        (not (launcher.protocol == 1)
          || launcher.size == 0
          || not (lower_sha256 launcher.sha256)
          || not (canonical_launcher_path app launcher.path))
        (invalid "invalid signed launcher metadata")

  unfoldable pub validate_signed_launcher : App → LauncherInfo → Result (InstallError V) (Unit {0})
  unfolding lower_sha256 canonical_launcher_path
  validate_signed_launcher app launcher =
      reject_if
        (not (launcher.protocol == 1)
          || launcher.size == 0
          || not (lower_sha256 launcher.sha256)
          || not (canonical_launcher_path app launcher.path))
        (invalid "invalid signed launcher metadata")

  -- The launcher of `version.json` by the platform of its target.
  unfoldable pub validate_state_launcher :
      App → Bool → Option LauncherMetadata → Result (InstallError V) (Unit {0})
  unfolding validate_launcher_metadata
  validate_state_launcher app true none =
      err (invalid "Windows version state lacks launcher metadata")
  validate_state_launcher app true (some launcher) = validate_launcher_metadata app launcher
  validate_state_launcher app false (some _) =
      err (invalid "Unix version state contains launcher metadata")
  validate_state_launcher app false none = ok tt

module _ {V : Type 0} (ext : External V) where
  unfoldable pub validate_version_state :
      App → VersionState V Target → Result (InstallError V) (Unit {0})
  unfolding validate_state_launcher valid_id lower_sha256 is_windows
  validate_version_state app state = do
    reject_if (not (state.schema_version == state_schema_version))
        (invalid "unsupported version state schema")
    reject_if
        (is_empty (ext.version_text state.version)
          || not (valid_id state.installation_id)
          || state.size == 0
          || not (lower_sha256 state.binary_sha256))
        (invalid "invalid version state fields")
    validate_state_launcher app (is_windows state.target) state.launcher

  -- `==` on `Option<Version>`
  abbrev pub option_eq : Option V → Option V → Bool
  option_eq none none = true
  option_eq (some a) (some b) = version_eq ext a b
  option_eq _ _ = false

  -- With `cfg(not(windows))`.
  unfoldable pub validate_install_state : InstallState V → Result (InstallError V) (Unit {0})
  unfolding valid_id
  validate_install_state state = do
    reject_if
        (not (state.schema_version == state_schema_version) || not (valid_id state.installation_id))
        (invalid "invalid install state schema or installation id")
    reject_if (is_none state.active && is_some state.previous)
        (invalid "install state has previous without active")
    reject_if (option_eq state.active state.previous && is_some state.active)
        (invalid "install state active and previous are equal")
    reject_if (is_some state.launcher) (invalid "Unix install state contains launcher ownership")

  unfoldable pub validate_pending : PendingActivation V → Result (InstallError V) (Unit {0})
  unfolding valid_id
  validate_pending pending = do
    reject_if
        (not (pending.schema_version == state_schema_version)
          || not (valid_id pending.transaction_id))
        (invalid "invalid pending activation schema")
    reject_if (option_eq pending.from (some pending.to))
        (invalid "pending activation from and to are equal")

  -- `parse_canonical_version`
  unfoldable pub parse_canonical_version : Str → Result (InstallError V) V
  unfolding str_eq
  parse_canonical_version value = do
    version ← ok_or (ext.parse_version value) (invalid "invalid managed version")
    reject_if (not (str_eq (ext.version_text version) value))
        (invalid "managed version is not canonical")
    ok version

  -- `deserialize_canonical_version` and `deserialize_optional_canonical_version`
  unfoldable pub deserialize_version : Str → Result (InstallError V) V
  unfolding str_eq
  deserialize_version raw = do
    version ← ok_or (ext.parse_version raw) json
    reject_if (not (str_eq (ext.version_text version) raw)) json
    ok version

  unfoldable pub deserialize_optional_version : Option Str → Result (InstallError V) (Option V)
  unfolding deserialize_version
  deserialize_optional_version none = ok none
  deserialize_optional_version (some raw) = do version ← deserialize_version raw; ok (some version)

  -- The derived `Deserialize` of the three documents.
  unfoldable pub read_install_document : InstallState Str → Result (InstallError V) (InstallState V)
  unfolding deserialize_optional_version
  read_install_document d = do
    active ← deserialize_optional_version d.active
    previous ← deserialize_optional_version d.previous
    ok (record {
      schema_version = d.schema_version;
      active = active;
      previous = previous;
      installation_id = d.installation_id;
      launcher = d.launcher;
    })

  unfoldable pub read_pending_document :
      PendingActivation Str → Result (InstallError V) (PendingActivation V)
  unfolding deserialize_version deserialize_optional_version
  read_pending_document d = do
    from ← deserialize_optional_version d.from
    to ← deserialize_version d.to
    ok (record {
      schema_version = d.schema_version;
      from = from;
      to = to;
      transaction_id = d.transaction_id;
    })

  unfoldable pub read_version_document :
      VersionState Str Str → Result (InstallError V) (VersionState V Target)
  unfolding deserialize_version from_str
  read_version_document d = do
    version ← deserialize_version d.version
    target ← elim (from_str d.target) [ ok t ↦ ok t | err _ ↦ err json ]
    ok (record {
      schema_version = d.schema_version;
      version = version;
      target = target;
      binary_sha256 = d.binary_sha256;
      size = d.size;
      installation_id = d.installation_id;
      launcher = d.launcher;
    })
