-- ===== src/Install/Activate.antt =====
-- Activation (src/install/activation.rs): the self-test, the journal, the pointer switch and the
-- state document, in the order in which a crash can be recovered from.
pub mod CrashSafe
pub mod Prepared
pub mod Staged
pub mod Written
pub mod Rollback
pub mod RolledBack
pub mod Previous
pub mod Download
pub mod Installed
pub mod Landed
pub mod Updated
pub mod Versioned
use relswap.Base.{
  ℕ, Str, text, Bool, true, false, not, ◌&&◌, ◌||◌, Option, none, some, List, [], ◌∷◌, ◌++◌, Result,
  ok, err, ok_or, reject_if, is_some, is_none, str_eq, contains_str, lookup, if◌then◌else◌,
}
use relswap.External.{version_eq, version_lt}
use relswap.App.{SelfTest}
use relswap.Release.Target.{Target}
use relswap.Install.State.{
  InstallError, io, invalid, unmanaged, InstallState, PendingActivation, VersionState,
  ActivationResult, state_schema_version, option_eq, validate_install_state,
  parse_canonical_version, self_tested, pending_written, pointer_switched, install_written,
  pending_removed, parents_synced, verified,
}
use relswap.Install.Host.{
  Host, ProbeRun, failed_to_run, timed_out, exited, version_name, payload_path,
}
use relswap.Install.Disk.{
  DirState, missing, directory, not_directory, CommandNode, vacant, symlink, foreign, VersionDir,
  Disk, Action, pure, raise, lift, effect, sync, inspect, random_id, fault_at, dir_exists,
  command_exists, ◌>>=◌, ◌>>◌,
}
use relswap.Install.Journal.{read_install_state, write_install_state, write_pending, remove_pending}
use relswap.Install.Pointer.{read_pointer_unlocked, switch_pointer, same_path}
use relswap.Install.Verify.{verify_final_version}
use relswap.Install.Staging.{remove_transaction_after_rename}

module _ {V : Type 0} (h : Host V) where
  -- `run_self_test` on how the process ended. Its polling loop is in `Host.probe`.
  unfoldable pub check_probe : V → ProbeRun → Result (InstallError V) (Unit {0})
  unfolding contains_str
  check_probe version failed_to_run = err (invalid "self-test could not run staged payload")
  check_probe version timed_out = err (invalid "self-test timed out")
  check_probe version (exited false stdout stderr) = err (invalid "self-test failed")
  check_probe version (exited true stdout stderr) =
      reject_if (not (contains_str (h.ext.version_text version) (stdout ++ stderr)))
        (invalid "self-test output mismatch")

  unfoldable pub run_self_test : Option SelfTest → V → Action V (Unit {0})
  unfolding check_probe payload_path
  run_self_test none version = pure tt
  run_self_test (some config) version =
      lift (check_probe version (h.probe (payload_path h version) config.args))

  -- `sync_affected_parents` flushes the root, and `versions` and the command's parent where they are.
  unfoldable pub sync_affected_parents : Action V (Unit {0})
  unfolding sync
  sync_affected_parents = do sync; sync; sync

  -- `transaction_id.unwrap_or(random_id("transaction")?)` draws an identifier in either case.
  abbrev pub id_or : Option Str → Str → Str
  id_or none fresh = fresh
  id_or (some id) fresh = id

  -- With `cfg(unix)`, where `launcher_ownership_for` is `None` and no launcher is verified.
  unfoldable pub activate_pointer_and_state :
      Option V → V → Str → Option Str → Option Str → Action V (ActivationResult V)
  unfolding run_self_test fault_at random_id write_pending switch_pointer write_install_state
      remove_pending remove_transaction_after_rename sync_affected_parents
  activate_pointer_and_state from to installation_id transaction_id transaction = do
    run_self_test h.app.self_test to
    fault_at h self_tested
    fresh ← random_id
    write_pending h (record {
      schema_version = state_schema_version;
      from = from;
      to = to;
      transaction_id = id_or transaction_id fresh;
    })
    fault_at h pending_written
    switch_pointer h to
    fault_at h pointer_switched
    write_install_state h (record {
      schema_version = state_schema_version;
      active = some to;
      previous = from;
      installation_id = installation_id;
      launcher = none;
    })
    fault_at h install_written
    remove_pending
    fault_at h pending_removed
    remove_transaction_after_rename transaction
    sync_affected_parents
    fault_at h parents_synced
    pure (record { version = to; changed = true })

  -- `ensure_command_owned` with `cfg(unix)`, once the command is known to exist.
  unfoldable pub check_symlink : V → CommandNode → Result (InstallError V) (Unit {0})
  unfolding same_path payload_path
  check_symlink active vacant = err (invalid "managed Unix command is missing its symlink")
  check_symlink active foreign = err io
  check_symlink active (symlink absolute target) =
      reject_if (not absolute || not (same_path target (payload_path h active)))
        (invalid "existing command symlink is not owned by this installation")

  unfoldable pub ensure_existing_owned : Option V → Option (InstallState V) → Action V (Unit {0})
  unfolding verify_final_version inspect check_symlink
  ensure_existing_owned none install =
      raise (invalid "refusing to replace existing unmanaged command")
  ensure_existing_owned (some active) none =
      raise (invalid "existing command has no installation ownership record")
  ensure_existing_owned (some active) (some install) = do
    lift (
        reject_if (not (option_eq h.ext install.active (some active)))
          (invalid "existing command ownership does not match the active pointer"))
    _ ← verify_final_version h active (some install.installation_id)
    inspect (λ d. check_symlink active d.command)

  unfoldable pub ensure_command_owned : Option V → Option (InstallState V) → Action V (Unit {0})
  unfolding inspect ensure_existing_owned
  ensure_command_owned active install = do
    exists ← inspect (λ d. ok (command_exists d.command))
    if exists then ensure_existing_owned active install else pure tt

  unfoldable pub make_command_parent : Disk → Disk
  make_command_parent d = record d { command_parent = directory false }

  unfoldable pub ensure_parent_state : DirState → Action V (Unit {0})
  unfolding effect make_command_parent
  ensure_parent_state missing = effect make_command_parent
  ensure_parent_state (directory _) = pure tt
  ensure_parent_state not_directory =
      raise (invalid "managed command parent is not a real directory")

  unfoldable pub ensure_command_parent : Action V (Unit {0})
  unfolding inspect ensure_parent_state
  ensure_command_parent = do state ← inspect (λ d. ok d.command_parent); ensure_parent_state state

  unfoldable pub require_managed_current : Action V V
  unfolding read_pointer_unlocked read_install_state validate_install_state verify_final_version
      ensure_command_owned
  require_managed_current = do
    pointer ← read_pointer_unlocked h
    current ← lift (ok_or pointer unmanaged)
    state ← read_install_state h
    install ← lift (ok_or state unmanaged)
    lift (validate_install_state h.ext install)
    lift (
        reject_if (not (option_eq h.ext install.active (some current)))
          (invalid "managed install metadata does not describe the authoritative pointer"))
    _ ← verify_final_version h current (some install.installation_id)
    ensure_command_owned (some current) (some install)
    pure current

  -- `activate_existing_locked`
  unfoldable pub activate_existing_locked : V → Action V (ActivationResult V)
  unfolding read_install_state read_pointer_unlocked ensure_command_owned verify_final_version
      fault_at ensure_command_parent activate_pointer_and_state
  activate_existing_locked target = do
    state ← read_install_state h
    install ← lift (ok_or state unmanaged)
    pointer ← read_pointer_unlocked h
    from ← lift (ok_or pointer unmanaged)
    lift (
        reject_if (not (version_lt h.ext target from))
          (invalid "retained activation target must be older than active pointer"))
    ensure_command_owned (some from) (some install)
    _ ← verify_final_version h target (some install.installation_id)
    fault_at h verified
    ensure_command_parent
    activate_pointer_and_state (some from) target install.installation_id none none
