-- ===== src/Install/Config.antt =====
-- The configuration checks (`validate_configuration`, `validate_command_path` in src/install/mod.rs,
-- `is_safe_basename` in src/fs/executable.rs) with `cfg(not(windows))`, where no launcher is named.
use relswap.Base.{
  Str, text, Bool, true, false, not, ◌&&◌, ◌||◌, List, [], ◌∷◌, ◌++◌, Result, reject_if, str_eq,
  contains_byte, is_empty, any,
}
use relswap.Install.State.{InstallError, invalid, ◌>>◌}
use relswap.Install.Host.{Host, versions_dir_name}

-- `is_safe_basename(value, false)`
unfoldable pub is_safe_basename : Str → Bool
unfolding str_eq contains_byte
is_safe_basename value = not (
    is_empty value
    || str_eq value (text ".")
    || str_eq value (text "..")
    || contains_byte b'/' value
    || contains_byte 92 value
    || contains_byte 0 value
    || contains_byte b':' value)

-- `path.starts_with(base)` on components.
unfoldable pub path_starts_with : List Str → List Str → Bool
unfolding str_eq
path_starts_with path [] = true
path_starts_with [] (b ∷ base) = false
path_starts_with (a ∷ path) (b ∷ base) = str_eq a b && path_starts_with path base

-- The names under the root that the engine keeps for itself.
abbrev pub reserved_names : List Str
reserved_names =
    text "active"
    ∷ text ".lock"
    ∷ text ".staging"
    ∷ versions_dir_name
    ∷ text "install.json"
    ∷ text "pending-activation.json"
    ∷ []

module _ {V : Type 0} where
  -- A path that starts with `command_path` covers an equal one too.
  unfoldable pub validate_command_path : List Str → List Str → Result (InstallError V) (Unit {0})
  unfolding path_starts_with
  validate_command_path root command_path = do
    reject_if (path_starts_with root command_path)
        (invalid "managed command path collides with the installation root")
    reject_if (any (λ name. path_starts_with command_path (root ++ (name ∷ []))) reserved_names)
        (invalid "managed command path collides with internal path")

  unfoldable pub validate_configuration : Host V → Result (InstallError V) (Unit {0})
  unfolding is_safe_basename validate_command_path
  validate_configuration h = do
    reject_if (not (is_safe_basename h.app.name))
        (invalid "application name must be a plain platform-safe basename")
    validate_command_path h.root h.command_path
