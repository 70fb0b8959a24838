-- ===== src/Install/Recovery.antt =====
-- Crash recovery and reconciliation of the state document (src/install/recovery.rs, `cfg(unix)`).
pub mod Completes
pub mod Keeps
pub mod Locked
pub mod Managed
use relswap.Base.{
  ℕ, Str, Bool, true, false, not, ◌&&◌, ◌||◌, Option, none, some, Result, ok, err, reject_if,
  is_some, str_eq, if◌then◌else◌, ◌==◌,
}
use relswap.External.{version_eq}
use relswap.Release.Target.{Target}
use relswap.Install.State.{
  InstallError, invalid, InstallState, PendingActivation, VersionState, state_schema_version,
  option_eq, validate_install_state, validate_pending, install_written, pending_removed,
  parents_synced, lock_acquired,
}
use relswap.Install.Host.{Host}
use relswap.Install.Disk.{
  FileNode, absent, regular, special, Disk, Action, pure, raise, lift, effect, sync, inspect,
  attempt, fault_at, root_slot, ensure_private_dir, ensure_private_layout, dir_exists, file_exists,
  is_symlink, ◌>>=◌, ◌>>◌,
}
use relswap.Install.Journal.{read_install_state, read_pending, write_install_state, remove_pending}
use relswap.Install.Pointer.{read_pointer_unlocked}
use relswap.Install.Verify.{verify_final_version}
use relswap.Install.Staging.{cleanup_staging}
use relswap.Install.Activate.{sync_affected_parents}
use relswap.Install.Config.{validate_configuration}

abbrev pub id_of : {V : Type 0} → Option (InstallState V) → Option Str
id_of none = none
id_of (some install) = some install.installation_id

abbrev pub active_of : {V : Type 0} → Option (InstallState V) → Option V
active_of none = none
active_of (some install) = install.active

abbrev pub previous_of : {V : Type 0} → Option (InstallState V) → Option V
previous_of none = none
previous_of (some install) = install.previous

module _ {V : Type 0} (h : Host V) where
  -- The common end of the branches that drop the journal.
  unfoldable pub finish_pending : Bool → Action V Bool
  unfolding remove_pending fault_at sync_affected_parents cleanup_staging
  finish_pending managed = do
    remove_pending
    fault_at h pending_removed
    sync_affected_parents h
    fault_at h parents_synced
    cleanup_staging
    pure managed

  -- The pointer was switched: the state document is completed.
  unfoldable pub complete_pending : PendingActivation V → Option (InstallState V) → Action V Bool
  unfolding verify_final_version write_install_state fault_at finish_pending str_eq
  complete_pending pending install = do
    state ← verify_final_version h pending.to (id_of install)
    lift (
        reject_if
          (elim install [
            | none ↦ false
            | some i ↦ not (str_eq i.installation_id state.installation_id)
          ])
          (invalid "pending target installation id differs from install.json"))
    write_install_state h (record {
      schema_version = state_schema_version;
      active = some pending.to;
      previous = pending.from;
      installation_id = state.installation_id;
      launcher = none;
    })
    fault_at h install_written
    finish_pending true

  -- The branches of the `match pointer` under a journal.
  unfoldable pub recover_pending :
      PendingActivation V → Option (InstallState V) → Option V → Action V Bool
  unfolding complete_pending finish_pending
  recover_pending pending install (some pointer) =
      if version_eq h.ext pointer pending.to
      then complete_pending pending install
      else if option_eq h.ext (some pointer) pending.from
      then finish_pending (is_some install)
      else raise (invalid "pending activation pointer is neither from nor to")
  recover_pending pending install none =
      if is_some pending.from
      then raise (invalid "pending activation lost its prior pointer")
      else finish_pending (is_some install)

  -- `metadata_matches` and `needs_repair`, with `cfg(unix)`.
  unfoldable pub needs_repair : Option (InstallState V) → V → VersionState V Target → Bool
  unfolding str_eq
  needs_repair none pointer state = true
  needs_repair (some install) pointer state =
      not (install.schema_version == state_schema_version)
      || not (option_eq h.ext install.active (some pointer))
      || not (str_eq install.installation_id state.installation_id)
      || is_some install.launcher
      || not (state.schema_version == state_schema_version)

  -- `.filter(|previous| previous != &pointer).filter(|previous| verify(..).is_ok())`
  unfoldable pub keep_previous : Option V → V → Str → Action V (Option V)
  unfolding attempt verify_final_version
  keep_previous none pointer id = pure none
  keep_previous (some previous) pointer id =
      if version_eq h.ext previous pointer then pure none else (do
        verified ← attempt (verify_final_version h previous (some id))
        pure (if verified then some previous else none))

  unfoldable pub repair :
      Bool → Option (InstallState V) → V → VersionState V Target → Action V (Unit {0})
  unfolding keep_previous write_install_state sync_affected_parents
  repair false install pointer state = pure tt
  repair true install pointer state = do
    previous ← keep_previous (previous_of install) pointer state.installation_id
    write_install_state h (record {
      schema_version = state_schema_version;
      active = some pointer;
      previous = previous;
      installation_id = state.installation_id;
      launcher = none;
    })
    sync_affected_parents h

  -- No journal: the pointer is authoritative and the document is regenerated from it.
  unfoldable pub reconcile : Option (InstallState V) → Option V → Action V Bool
  unfolding verify_final_version needs_repair repair cleanup_staging
  reconcile install none =
      if is_some (active_of install)
      then raise (invalid "install.json claims an active version but the pointer is missing")
      else pure false
  reconcile install (some pointer) = do
    state ← verify_final_version h pointer none
    repair (needs_repair install pointer state) install pointer state
    cleanup_staging
    pure true

  unfoldable pub validate_install_option : Option (InstallState V) → Action V (Unit {0})
  unfolding validate_install_state
  validate_install_option none = pure tt
  validate_install_option (some install) = lift (validate_install_state h.ext install)

  unfoldable pub recover_by_journal :
      Option (PendingActivation V) → Option (InstallState V) → Option V → Action V Bool
  unfolding validate_pending recover_pending reconcile
  recover_by_journal none install pointer = reconcile install pointer
  recover_by_journal (some pending) install pointer = do
    lift (validate_pending h.ext pending)
    recover_pending pending install pointer

  unfoldable pub recover_locked : Action V Bool
  unfolding ensure_private_layout read_pending read_install_state validate_install_option
      read_pointer_unlocked recover_by_journal
  recover_locked = do
    ensure_private_layout
    pending ← read_pending h
    install ← read_install_state h
    validate_install_option install
    pointer ← read_pointer_unlocked h
    recover_by_journal pending install pointer

  -- `open_lock`: with `create`, a missing lock file is made.
  unfoldable pub make_lock : Disk → Disk
  make_lock d = record d { lock = regular relswap.Base.[] }

  unfoldable pub open_lock_node : FileNode → Bool → Action V (Unit {0})
  unfolding effect make_lock sync
  open_lock_node special create = raise (invalid "managed lock path is not a regular file")
  open_lock_node (regular _) create = sync
  open_lock_node absent true = effect make_lock
  open_lock_node absent false = raise relswap.Install.State.io

  unfoldable pub open_lock : Bool → Action V (Unit {0})
  unfolding ensure_private_dir inspect open_lock_node fault_at
  open_lock create = do
    if create then ensure_private_dir root_slot else pure tt
    node ← inspect (λ d. ok d.lock)
    open_lock_node node create
    fault_at h lock_acquired

  -- A command symlink that is no pointer into the root is left alone.
  unfoldable pub is_unrelated : Bool → Action V Bool
  unfolding attempt read_pointer_unlocked
  is_unrelated false = pure false
  is_unrelated true = do readable ← attempt (read_pointer_unlocked h); pure (not readable)

  -- `recover_if_managed` once there is something to recover.
  unfoldable pub recover_evidence : Bool → Action V Bool
  unfolding ensure_private_dir is_unrelated open_lock recover_locked
  recover_evidence only_pointer = do
    ensure_private_dir root_slot
    unrelated ← is_unrelated only_pointer
    if unrelated then pure false else (do open_lock false; recover_locked)

  unfoldable pub recover_existing : Bool → Action V Bool
  unfolding inspect recover_evidence
  recover_existing false = pure false
  recover_existing true = do
    has_install ← inspect (λ d. ok (file_exists d.install))
    has_pending ← inspect (λ d. ok (file_exists d.pending))
    has_pointer ← inspect (λ d. ok (is_symlink d.command))
    if not has_install && not has_pending && not has_pointer
        then pure false
        else recover_evidence (has_pointer && not has_install && not has_pending)

  unfoldable pub recover_if_managed : Action V Bool
  unfolding validate_configuration inspect recover_existing
  recover_if_managed = do
    lift (validate_configuration h)
    exists ← inspect (λ d. ok (dir_exists d.root))
    recover_existing exists
