-- ===== src/Install/Health/Writes.antt =====
-- Rules for the durable writes: before a write its start holds, after it its end, and a failure on
-- either side leaves one of the two.
use relswap.Base.{Str, Bool, true, false, ◌≡◌, refl, Option, none, some, ok, arith}
use relswap.App.{SelfTest}
use relswap.Install.State.{
  InstallState, PendingActivation, validate_install_state, validate_pending,
}
use relswap.Install.Host.{Host}
use relswap.Install.Disk.{
  FileNode, absent, regular, special, CommandNode, vacant, symlink, foreign, Disk,
}
use relswap.Install.Disk.Triple.{
  Triple, Triple-pure, Triple-raise, Triple-effect, Triple-bind, Triple-weaken,
}
use relswap.Install.Journal.{
  replace_file, write_pending, write_install_state, remove_pending, remove_pending_node,
  put_pending, put_install, clear_pending,
}
use relswap.Install.Pointer.{switch_pointer, switch_command, point_to}
use relswap.Install.Staging.{remove_transaction, remove_transaction_after_rename, drop_staged}
use relswap.Install.Activate.{run_self_test, sync_affected_parents}
use relswap.Install.Health.Rules.{Triple-read, Triple-check, Triple-sync}

module _ {V : Type 0} (h : Host V) {P Q E : Disk → Type 0} where
  -- A document is replaced at once or stays as it was.
  Triple-replace_file :
      (node : FileNode) (put : Disk → Disk)
      → ((d : Disk) → P d → E d)
      → ((d : Disk) → Q d → E d)
      → ((d : Disk) → P d → Q (put d))
      → Triple {V = V} P (replace_file h node put) (λ _. Q) E
  unfolding replace_file
  Triple-replace_file special put weak after k = Triple-raise _ weak
  Triple-replace_file absent put weak after k =
      Triple-effect put weak (λ d p. after (put d) (k d p)) k
  Triple-replace_file (regular _) put weak after k =
      Triple-effect put weak (λ d p. after (put d) (k d p)) k

  Triple-switch_command :
      (node : CommandNode) (to : V)
      → ((d : Disk) → P d → E d)
      → ((d : Disk) → Q d → E d)
      → ((d : Disk) → P d → Q (point_to h to d))
      → Triple P (switch_command h node to) (λ _. Q) E
  unfolding switch_command
  Triple-switch_command foreign to weak after k = Triple-raise _ weak
  Triple-switch_command vacant to weak after k =
      Triple-effect (point_to h to) weak (λ d p. after (point_to h to d) (k d p)) k
  Triple-switch_command (symlink _ _) to weak after k =
      Triple-effect (point_to h to) weak (λ d p. after (point_to h to d) (k d p)) k

module _ {V : Type 0} {P Q E : Disk → Type 0} where
  Triple-remove_pending_node :
      (node : FileNode)
      → ((d : Disk) → P d → E d)
      → ((d : Disk) → Q d → E d)
      → ((d : Disk) → P d → Q (clear_pending d))
      → ((d : Disk) → P d → node ≡ absent → Q d)
      → Triple {V = V} P (remove_pending_node node) (λ _. Q) E
  unfolding remove_pending_node
  Triple-remove_pending_node special weak after k same = Triple-raise _ weak
  Triple-remove_pending_node absent weak after k same = Triple-pure tt (λ d p. same d p refl)
  Triple-remove_pending_node (regular _) weak after k same =
      Triple-effect clear_pending weak (λ d p. after (clear_pending d) (k d p)) k

module _ {V : Type 0} (h : Host V) {P Q E : Disk → Type 0} where
  pub Triple-write_pending :
      (p : PendingActivation V)
      → ((d : Disk) → P d → E d)
      → ((d : Disk) → Q d → E d)
      → ((d : Disk) → validate_pending h.ext p ≡ ok tt → P d → Q (put_pending h p d))
      → Triple P (write_pending h p) (λ _. Q) E
  unfolding write_pending
  Triple-write_pending p weak after k =
      Triple-bind _ _ (Triple-check P E weak (validate_pending h.ext p)) (λ u.
        Triple-bind _ _
          (Triple-read (λ d. P d × (validate_pending h.ext p ≡ ok u)) E (λ d x. weak d x.0) _)
          (λ node.
            Triple-replace_file h node (put_pending h p) (λ d x. weak d x.0.0) after
              (λ d x. k d x.0.1 x.0.0)))

  pub Triple-write_install :
      (i : InstallState V)
      → ((d : Disk) → P d → E d)
      → ((d : Disk) → Q d → E d)
      → ((d : Disk) → validate_install_state h.ext i ≡ ok tt → P d → Q (put_install h i d))
      → Triple P (write_install_state h i) (λ _. Q) E
  unfolding write_install_state
  Triple-write_install i weak after k =
      Triple-bind _ _ (Triple-check P E weak (validate_install_state h.ext i)) (λ u.
        Triple-bind _ _
          (Triple-read (λ d. P d × (validate_install_state h.ext i ≡ ok u)) E (λ d x. weak d x.0) _)
          (λ node.
            Triple-replace_file h node (put_install h i) (λ d x. weak d x.0.0) after
              (λ d x. k d x.0.1 x.0.0)))

  pub Triple-switch_pointer :
      (to : V)
      → ((d : Disk) → P d → E d)
      → ((d : Disk) → Q d → E d)
      → ((d : Disk) → P d → Q (point_to h to d))
      → Triple P (switch_pointer h to) (λ _. Q) E
  unfolding switch_pointer
  Triple-switch_pointer to weak after k = Triple-bind _ _ (Triple-read P E weak _) (λ u.
      Triple-bind _ _ (Triple-read _ E (λ d x. weak d x.0) _)
        (λ node. Triple-switch_command h node to (λ d x. weak d x.0.0) after (λ d x. k d x.0.0)))

module _ {V : Type 0} {P Q E : Disk → Type 0} where
  -- `same`: where there is no journal the file is left as it is.
  pub Triple-remove_pending :
      ((d : Disk) → P d → E d)
      → ((d : Disk) → Q d → E d)
      → ((d : Disk) → P d → Q (clear_pending d))
      → ((d : Disk) → P d → d.pending ≡ absent → Q d)
      → Triple {V = V} P remove_pending (λ _. Q) E
  unfolding remove_pending
  Triple-remove_pending weak after k same =
      Triple-bind _ _ (Triple-read P E weak (λ d. ok d.pending)) (λ node.
        Triple-remove_pending_node node (λ d x. weak d x.0) after (λ d x. k d x.0)
          (λ d x e. same d x.0 (ground arith)))

module _ {V : Type 0} (P E : Disk → Type 0) (weak : (d : Disk) → P d → E d) where
  Triple-remove_transaction :
      ((id : Str) (d : Disk) → P d → P (drop_staged id d))
      → (exists : Bool) (id : Str) → Triple {V = V} P (remove_transaction exists id) (λ _. P) E
  unfolding remove_transaction
  Triple-remove_transaction k false id = Triple-pure tt (λ d p. p)
  Triple-remove_transaction k true id =
      Triple-bind _ _
        (Triple-effect (drop_staged id) weak (λ d p. weak (drop_staged id d) (k id d p)) (k id))
        (λ _. Triple-sync P E weak)

  pub Triple-remove_after_rename :
      ((id : Str) (d : Disk) → P d → P (drop_staged id d))
      → (transaction : Option Str)
      → Triple {V = V} P (remove_transaction_after_rename transaction) (λ _. P) E
  unfolding remove_transaction_after_rename
  Triple-remove_after_rename k none = Triple-pure tt (λ d p. p)
  Triple-remove_after_rename k (some id) =
      Triple-bind _ _ (Triple-read P E weak _) (λ exists.
        Triple-weaken _ (Triple-remove_transaction k exists id) (λ d x. x.0) (λ _ d x. x))

  pub Triple-sync_parents : (h : Host V) → Triple P (sync_affected_parents h) (λ _. P) E
  unfolding sync_affected_parents
  Triple-sync_parents h =
      Triple-bind _ _ (Triple-sync P E weak)
        (λ _. Triple-bind _ _ (Triple-sync P E weak) (λ _. Triple-sync P E weak))

  pub Triple-self_test :
      (h : Host V) (config : Option SelfTest) (to : V)
      → Triple P (run_self_test h config to) (λ _. P) E
  unfolding run_self_test
  Triple-self_test h none to = Triple-pure tt (λ d p. p)
  Triple-self_test h (some config) to =
      Triple-weaken _ (Triple-check P E weak _) (λ d p. p) (λ _ d x. x.0)
