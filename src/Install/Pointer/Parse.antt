-- ===== src/Install/Pointer/Parse.antt =====
-- Reading the target of the command symlink (`parse_pointer_version`, `read_pointer_unlocked`).
use relswap.Base.{
  Str, Bool, true, false, not, Option, none, some, List, [], ◌∷◌, ◌++◌, Result, ok, err, reject_if,
  str_eq, lookup, if◌then◌else◌, ◌&&◌,
}
use relswap.Install.State.{InstallError, io, invalid, parse_canonical_version, ◌>>=◌, ◌>>◌}
use relswap.Install.Host.{Host, host_payload_name, payload_path, versions_dir_name}
use relswap.Install.Disk.{
  FileNode, absent, regular, special, CommandNode, vacant, symlink, foreign, VersionDir,
}

-- `left == right` on paths of components.
unfoldable pub same_path : List Str → List Str → Bool
unfolding str_eq
same_path [] [] = true
same_path (a ∷ p) (b ∷ q) = str_eq a b && same_path p q
same_path _ _ = false

-- `pointer.strip_prefix(base)` on components.
unfoldable pub strip_path : List Str → List Str → Option (List Str)
unfolding str_eq
strip_path [] p = some p
strip_path (a ∷ base) [] = none
strip_path (a ∷ base) (b ∷ p) = let rest = strip_path base p in if str_eq a b then rest else none

module _ {V : Type 0} (h : Host V) where
  unfoldable pub parse_pointer_relative : List Str → Result (InstallError V) V
  unfolding parse_canonical_version host_payload_name str_eq
  parse_pointer_relative [] = err (invalid "managed command pointer has no version")
  parse_pointer_relative (version ∷ []) = err (invalid "managed command pointer has no payload")
  parse_pointer_relative (version ∷ payload ∷ []) = do
    reject_if (not (str_eq payload (host_payload_name h)))
        (invalid "managed command pointer has a noncanonical payload")
    parse_canonical_version h.ext version
  parse_pointer_relative (version ∷ payload ∷ extra ∷ rest) =
      err (invalid "managed command pointer has a noncanonical payload")

  unfoldable pub parse_pointer_version : List Str → Result (InstallError V) V
  unfolding strip_path parse_pointer_relative
  parse_pointer_version pointer = elim (strip_path (h.root ++ (versions_dir_name ∷ [])) pointer) [
    | none ↦ err (invalid "managed command pointer is outside versions directory")
    | some relative ↦ parse_pointer_relative relative
  ]

  unfoldable pub pointer_of : CommandNode → Result (InstallError V) (Option V)
  unfolding parse_pointer_version same_path payload_path
  pointer_of vacant = ok none
  pointer_of foreign = err io
  pointer_of (symlink absolute target) = do
    reject_if (not absolute)
        (invalid "managed command symlink must contain an absolute payload path")
    version ← parse_pointer_version target
    reject_if (not (same_path target (payload_path h version)))
        (invalid "managed command symlink points outside the current installation")
    ok (some version)

-- The node at a name of a version directory.
abbrev pub member_of : Option VersionDir → Str → FileNode
member_of none name = absent
member_of (some dir) name = elim (lookup name dir.members) [ none ↦ absent | some n ↦ n ]

-- `executable::ensure_regular_file`
unfoldable pub ensure_regular_file : {V : Type 0} → FileNode → Result (InstallError V) (Unit {0})
ensure_regular_file (regular _) = ok tt
ensure_regular_file absent = err io
ensure_regular_file special = err io
