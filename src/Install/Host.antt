-- ===== src/Install/Host.antt =====
-- What an `Installation` is given: the application, its paths, the trusted keys, the fault injector,
-- and what the operating system and the dependencies answer.
use relswap.Base.{ℕ, Str, text, Bool, Option, List, [], ◌∷◌, ◌++◌}
use relswap.External.{External}
use relswap.App.{App, payload_name}
use relswap.Release.Target.{Target}
use relswap.Release.Manifest.{ManifestDocument}
use relswap.Release.Signature.{TrustedKey, TrustedKeySet, SignatureEnvelope}
use relswap.Release.Archive.Inspect.{Formats}
use relswap.Install.State.{FaultPoint, VersionState, InstallState, PendingActivation}
use mathlib.Core.Bool.{false}

-- serde_json, document by document.
pub record Json : Type 0 where
  pub decode_install : Str → Option (InstallState Str)
  pub encode_install : InstallState Str → Str
  pub decode_pending : Str → Option (PendingActivation Str)
  pub encode_pending : PendingActivation Str → Str
  pub decode_version_state : Str → Option (VersionState Str Str)
  pub encode_version_state : VersionState Str Str → Str
  pub decode_manifest : Str → Option ManifestDocument
  pub decode_envelope : Str → Option SignatureEnvelope
  pub decode_key_set : Str → Option TrustedKeySet

-- How a self-test process ended: `run_self_test` up to its checks of the status and the output.
pub data ProbeRun : Type 0 where
  failed_to_run : ProbeRun
  timed_out : ProbeRun
  exited : Bool → Str → Str → ProbeRun

-- A path is absolute and normalised: the list of its components.
pub record Host (V : Type 0) : Type 0 where
  pub ext : External V
  pub json : Json
  pub formats : Formats
  pub zero_version : V
  pub app : App
  pub root : List Str
  pub command_path : List Str
  pub trusted_keys : Option (List TrustedKey)
  -- `FaultInjector::after(point).is_err()`
  pub injects : FaultPoint → Bool
  -- `ReleaseTarget::current()`
  pub current_target : Option Target
  -- `Utc::now()`, in nanoseconds from the earliest instant of chrono
  pub now : ℕ
  -- whether the path of a transaction's version directory still leads to the directory that was opened,
  -- which other processes may have moved: `path_still_identifies_directory` is `Ok(true)`
  pub still_identifies : Str → Bool
  -- the run of the payload at a path with the configured arguments
  pub probe : List Str → List Str → ProbeRun

abbrev pub versions_dir_name : Str
versions_dir_name = text "versions"

abbrev pub manifest_file : Str
manifest_file = text "release.json"

abbrev pub signature_file : Str
signature_file = text "release.signatures.json"

abbrev pub version_file : Str
version_file = text "version.json"

module _ {V : Type 0} (h : Host V) where
  -- The directory of a version is named by its text.
  unfoldable pub version_name : V → Str
  version_name v = h.ext.version_text v

  -- `App::host_payload_name` with `cfg!(windows)` false.
  unfoldable pub host_payload_name : Str
  unfolding payload_name
  host_payload_name = payload_name h.app false

  unfoldable pub payload_path : V → List Str
  unfolding version_name host_payload_name
  payload_path v = h.root ++ (versions_dir_name ∷ version_name v ∷ host_payload_name ∷ [])
