-- ===== src/Release/Target.antt =====
-- The release target matrix and the names that derive from it (src/release/target.rs).
pub mod Laws
use relswap.Base.{
  ℕ, Str, text, Bool, true, false, not, Option, none, some, List, [], ◌∷◌, ◌++◌, Result, ok, err,
  ok_or, reject_if, str_eq, if◌then◌else◌,
}
use relswap.External.{External}
use relswap.App
use relswap.App.{App}
use relswap.Release.Error.{ReleaseError, invalid, ◌>>=◌, ◌>>◌}
use mathlib.Core.Option as option

pub data Target : Type 0 where
  x86_64_unknown_linux_gnu : Target
  aarch64_unknown_linux_gnu : Target
  x86_64_apple_darwin : Target
  aarch64_apple_darwin : Target
  x86_64_pc_windows_msvc : Target

abbrev pub all_targets : List Target
all_targets =
    aarch64_apple_darwin ∷ aarch64_unknown_linux_gnu ∷ x86_64_apple_darwin ∷ x86_64_pc_windows_msvc
    ∷ x86_64_unknown_linux_gnu ∷ []

unfoldable pub as_str : Target → Str
as_str x86_64_unknown_linux_gnu = text "x86_64-unknown-linux-gnu"
as_str aarch64_unknown_linux_gnu = text "aarch64-unknown-linux-gnu"
as_str x86_64_apple_darwin = text "x86_64-apple-darwin"
as_str aarch64_apple_darwin = text "aarch64-apple-darwin"
as_str x86_64_pc_windows_msvc = text "x86_64-pc-windows-msvc"

unfoldable pub is_windows : Target → Bool
is_windows x86_64_pc_windows_msvc = true
is_windows _ = false

unfoldable pub archive_suffix : Target → Str
unfolding is_windows
archive_suffix t = if is_windows t then text ".zip" else text ".tar.gz"

-- `#[derive(PartialEq)]`
unfoldable pub target_eq : Target → Target → Bool
target_eq x86_64_unknown_linux_gnu x86_64_unknown_linux_gnu = true
target_eq aarch64_unknown_linux_gnu aarch64_unknown_linux_gnu = true
target_eq x86_64_apple_darwin x86_64_apple_darwin = true
target_eq aarch64_apple_darwin aarch64_apple_darwin = true
target_eq x86_64_pc_windows_msvc x86_64_pc_windows_msvc = true
target_eq _ _ = false

unfoldable pub from_str : Str → Result ReleaseError Target
unfolding str_eq
from_str value =
    if str_eq value (text "x86_64-unknown-linux-gnu")
    then ok x86_64_unknown_linux_gnu
    else if str_eq value (text "aarch64-unknown-linux-gnu")
    then ok aarch64_unknown_linux_gnu
    else if str_eq value (text "x86_64-apple-darwin")
    then ok x86_64_apple_darwin
    else if str_eq value (text "aarch64-apple-darwin")
    then ok aarch64_apple_darwin
    else if str_eq value (text "x86_64-pc-windows-msvc")
    then ok x86_64_pc_windows_msvc
    else err (invalid "unsupported release target")

unfoldable pub launcher_protocol : Target → App → Option ℕ
unfolding is_windows App.launcher_protocol
launcher_protocol t app = if is_windows t then App.launcher_protocol app else none

unfoldable pub payload_name : Target → App → Str
unfolding is_windows App.payload_name
payload_name t app = App.payload_name app (is_windows t)

unfoldable pub launcher_name : Target → App → Option Str
unfolding is_windows App.launcher_name
launcher_name t app = if is_windows t then App.launcher_name app else none

module _ {V : Type 0} (ext : External V) where
  unfoldable pub root_name : Target → App → V → Str
  unfolding as_str App.root_name
  root_name t app version = App.root_name ext app version (as_str t)

  unfoldable pub archive_name : Target → App → V → Str
  unfolding root_name archive_suffix
  archive_name t app version = root_name t app version ++ archive_suffix t

  unfoldable pub payload_path : Target → App → V → Str
  unfolding root_name payload_name
  payload_path t app version = root_name t app version ++ (text "/" ++ payload_name t app)

  unfoldable pub launcher_path : Target → App → V → Option Str
  unfolding root_name launcher_name
  launcher_path t app version =
      option.map (λ name. root_name t app version ++ (text "/" ++ name)) (launcher_name t app)

  -- `Target::parse_version`: a version string that prints back as it was written.
  unfoldable pub parse_version : Str → Result ReleaseError V
  parse_version version = do
    parsed ← ok_or (ext.parse_version version) (invalid "invalid release version")
    reject_if (not (str_eq (ext.version_text parsed) version))
        (invalid "release version is not canonical")
    ok parsed
