-- ===== src/App.antt =====
-- The consumer's identity (src/app.rs): the product's names, its trust anchor and how its stable
-- command is activated.
use relswap.Base.{ℕ, Str, text, Bool, Option, none, some, List, ◌++◌, if◌then◌else◌}
use relswap.External.{External}

pub data ActivationStrategy : Type 0 where
  unix_symlink : ActivationStrategy
  windows_launcher : Str → ℕ → ActivationStrategy

pub record SelfTest : Type 0 where
  pub args : List Str
  pub timeout : ℕ

pub record App : Type 0 where
  pub name : Str
  pub version : Str
  pub repository_url : Str
  pub trust_anchor : Str
  pub activation : ActivationStrategy
  pub self_test : Option SelfTest

unfoldable pub payload_name : App → Bool → Str
payload_name app windows = if windows then app.name ++ text ".exe" else app.name

launcher_name_of : ActivationStrategy → Option Str
launcher_name_of unix_symlink = none
launcher_name_of (windows_launcher name _) = some name

unfoldable pub launcher_name : App → Option Str
unfolding launcher_name_of
launcher_name app = launcher_name_of app.activation

launcher_protocol_of : ActivationStrategy → Option ℕ
launcher_protocol_of unix_symlink = none
launcher_protocol_of (windows_launcher _ protocol) = some protocol

unfoldable pub launcher_protocol : App → Option ℕ
unfolding launcher_protocol_of
launcher_protocol app = launcher_protocol_of app.activation

unfoldable pub metadata_filename : App → Str
metadata_filename app = app.name ++ text "-release.json"

unfoldable pub signature_filename : App → Str
signature_filename app = app.name ++ text "-release.signatures.json"

unfoldable pub root_name : {V : Type 0} → External V → App → V → Str → Str
root_name ext app version triple =
    app.name ++ (text "-" ++ (ext.version_text version ++ (text "-" ++ triple)))

unfoldable pub archive_prefix : App → Str
archive_prefix app = app.name ++ text "-"
