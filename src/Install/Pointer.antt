-- ===== src/Install/Pointer.antt =====
-- The authoritative selector of a Unix host, the command symlink (`read_pointer_unlocked`,
-- `switch_pointer`), in src/install/mod.rs and src/install/activation.rs.
mod Parse
unfoldable pub use Parse.{
  same_path, strip_path, parse_pointer_relative, parse_pointer_version, pointer_of, member_of,
  ensure_regular_file,
}
use relswap.Base.{Bool, true, Option, ok, lookup}
use relswap.Install.State.{io}
use relswap.Install.Host.{Host, version_name, host_payload_name, payload_path}
use relswap.Install.Disk.{
  CommandNode, vacant, symlink, foreign, Disk, Action, raise, effect, inspect, ◌>>=◌, ◌>>◌,
}

module _ {V : Type 0} (h : Host V) where
  unfoldable pub read_pointer_unlocked : Action V (Option V)
  unfolding pointer_of inspect
  read_pointer_unlocked = inspect (λ d. pointer_of h d.command)

  unfoldable pub point_to : V → Disk → Disk
  unfolding payload_path
  point_to version d = record d { command = symlink true (payload_path h version) }

  -- `executable::atomic_switch_symlink`: only a symlink or nothing is replaced.
  unfoldable pub switch_command : CommandNode → V → Action V (Unit {0})
  unfolding effect point_to
  switch_command foreign version = raise io
  switch_command vacant version = effect (point_to version)
  switch_command (symlink _ _) version = effect (point_to version)

  unfoldable pub switch_pointer : V → Action V (Unit {0})
  unfolding inspect ensure_regular_file switch_command version_name host_payload_name
  switch_pointer version = do
    inspect (λ d.
        ensure_regular_file
          (member_of (lookup (version_name h version) d.versions) (host_payload_name h)))
    node ← inspect (λ d. ok d.command)
    switch_command node version
