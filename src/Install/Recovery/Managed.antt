-- ===== src/Install/Recovery/Managed.antt =====
-- `recover_if_managed` and `open_lock` on a disk that has a root (src/install/recovery.rs,
-- src/install/mod.rs), cut short or complete.
use relswap.Base.{
  Bool, true, false, not, ◌&&◌, ◌≡◌, refl, ap, [], Option, none, ok, Result, Bool-cases, inl, inr,
  if◌then◌else◌, arith,
}
use mathlib.Core.Path.{subst}
use relswap.Install.State.{InstallError, InstallState, PendingActivation, lock_acquired}
use relswap.Install.Host.{Host}
use relswap.Install.Disk.{
  Disk, World, Action, FileNode, absent, regular, special, root_slot, make_slot, dir_exists,
  file_exists, is_symlink, sync, pure, ◌>>◌, ◌>>=◌,
}
use relswap.Install.Disk.Triple.{
  Triple, Triple-pure, Triple-raise, Triple-effect, Triple-bind, Triple-weaken, Triple-attempt,
  Triple-fault,
}
use relswap.Install.Config.{validate_configuration}
use relswap.Install.Journal.{pending_of, read_json}
use relswap.Install.Pointer.{pointer_of}
use relswap.Install.Recovery.{
  make_lock, open_lock_node, open_lock, is_unrelated, recover_evidence, recover_existing,
  recover_if_managed, recover_locked,
}
use relswap.Install.Recovery.Keeps.{RecoverableAt, Settled, Recovered-Settled}
use relswap.Install.Recovery.Locked.{recover_locked-Triple}
use relswap.Install.Health.{IsLawfulHost, At}
use relswap.Install.Health.Frame.{At-make_slot, At-same}
use relswap.Install.Health.Rules.{
  Triple-read, Triple-check, Triple-sync, Triple-ensure_private_dir, Triple-known, Triple-fact,
}

module _ {V : Type 0} (h : Host V) (P E : Disk → Type 0) (weak : (d : Disk) → P d → E d) where
  Triple-lock_node :
      (node : FileNode) (create : Bool)
      → ((d : Disk) → P d → P (make_lock h d))
      → Triple P (open_lock_node h node create) (λ _. P) E
  unfolding open_lock_node
  Triple-lock_node special create k = Triple-raise _ weak
  Triple-lock_node (regular _) create k = Triple-sync P E weak
  Triple-lock_node absent true k =
      Triple-effect (make_lock h) weak (λ d x. weak (make_lock h d) (k d x)) k
  Triple-lock_node absent false k = Triple-raise _ weak

  -- Taking the lock keeps what does not speak of the lock file or of a missing root.
  pub Triple-open_lock :
      (create : Bool)
      → ((d : Disk) → P d → P (make_slot root_slot d))
      → ((d : Disk) → P d → P (make_lock h d))
      → Triple P (open_lock h create) (λ _. P) E
  unfolding open_lock
  Triple-open_lock create root k = Triple-bind _ _ (made create) (λ _.
      Triple-bind _ _
        (Triple-weaken _ (Triple-read P E weak (λ d. ok d.lock)) (λ d x. x) (λ _ d x. x.0))
        (λ node.
          Triple-bind _ _ (Triple-lock_node node create k)
            (λ _. Triple-fault {Q = λ _. P} h lock_acquired weak (λ d x. x))))
    where
      made :
          (create : Bool)
          → Triple {V = V} P
              (if create then relswap.Install.Disk.ensure_private_dir root_slot else pure tt)
              (λ _. P)
              E
      made true = Triple-ensure_private_dir P E weak root_slot root
      made false = Triple-pure tt (λ d x. x)

module _ {V : Type 0} (h : Host V) where
  no_journal :
      (node : FileNode) (pending : Option (PendingActivation V))
      → pending_of h node ≡ ok pending
      → file_exists node ≡ false
      → pending ≡ none
  unfolding pending_of read_json
  no_journal absent pending e f = ground arith
  no_journal (regular b) pending e f = cc
  no_journal special pending e f = ground arith

-- The lock file holds nothing that the state is read from.
pub At-make_lock :
    {V : Type 0} (h : Host V) (install : Option (InstallState V))
    (pending : Option (PendingActivation V)) (pointer : Option V) (d : Disk)
    → At h install pending pointer d
    → At h install pending pointer (make_lock h d)
unfolding make_lock
At-make_lock h install pending pointer d x =
    At-same h x (record d { lock = regular [] }) refl refl refl refl
      (record {
        root_usable = x.laid_out.root_usable;
        versions_usable = x.laid_out.versions_usable;
        staging_usable = x.laid_out.staging_usable;
        staged = x.laid_out.staged;
      })

module _ {V : Type 0} (h : Host V) (lawful : IsLawfulHost h) (install : Option (InstallState V))
    (pending : Option (PendingActivation V)) (pointer : Option V) where
  abbrev Start : Disk → Type 0
  Start = At h install pending pointer

  abbrev Stop : Disk → Type 0
  Stop = RecoverableAt h pointer

  weak : (d : Disk) → Start d → Stop d
  weak d x = (install, pending, x)

  idle : pending ≡ none → (d : Disk) → Start d → Settled h pointer d
  idle e d x = (install, subst (λ p. At h install p pointer d) e x)

  under_lock : Triple Start (open_lock h false >> recover_locked h) (λ _. Settled h pointer) Stop
  under_lock =
      Triple-bind _ _
        (Triple-open_lock h Start Stop weak false (λ d x. At-make_slot h x root_slot)
          (λ d x. At-make_lock h install pending pointer d x))
        (λ _.
          Triple-weaken _ (recover_locked-Triple h lawful install pending pointer) (λ d x. x)
            (λ _ d x. Recovered-Settled h install pending pointer d x))

  related : Triple Start (is_unrelated h true) (λ _. Start) Stop
  unfolding is_unrelated
  related =
      Triple-bind _ _
        (Triple-attempt _ (
          Triple-weaken _ (Triple-read Start Start (λ d x. x) (λ d. pointer_of h d.command))
            (λ d x. x) (λ _ d x. x.0)))
        (λ readable. Triple-pure (not readable) (λ d x. x))

  -- A command that is taken for unrelated means that there is no journal.
  evidence :
      (only_pointer : Bool)
      → (only_pointer ≡ true → pending ≡ none)
      → Triple Start (recover_evidence h only_pointer) (λ _. Settled h pointer) Stop
  unfolding recover_evidence is_unrelated
  evidence false none_there =
      Triple-bind _ _
        (Triple-ensure_private_dir Start Stop weak root_slot (λ d x. At-make_slot h x root_slot))
        (λ _. under_lock)
  evidence true none_there =
      Triple-bind _ _
        (Triple-ensure_private_dir Start Stop weak root_slot (λ d x. At-make_slot h x root_slot))
        (λ _. Triple-bind _ _ related (λ unrelated. either unrelated))
    where
      either :
          (unrelated : Bool)
          → Triple Start
              (if unrelated then pure false else (open_lock h false >> recover_locked h))
              (λ _. Settled h pointer)
              Stop
      either true = Triple-pure false (idle (none_there refl))
      either false = under_lock

  -- Where there is neither a state document, a journal nor a link, there is nothing to recover.
  module _ (has_install has_pending has_pointer : Bool) where
    Looked : Disk → Type 0
    Looked d =
        Start d
        × ◌≡◌ {A = Result (InstallError V) Bool} (ok (file_exists d.pending)) (ok has_pending)

    only : (has_pointer && not has_install && not has_pending) ≡ true → has_pending ≡ false
    only e = ground arith

    nothing : (not has_install && not has_pending && not has_pointer) ≡ true → has_pending ≡ false
    nothing e = ground arith

    without_journal : (d : Disk) → Looked d → has_pending ≡ false → pending ≡ none
    unfolding Looked
    without_journal d x e = no_journal h d.pending pending x.0.pending_read (ground (arith, x.1, e))

    looked :
        Triple Looked
          (if not has_install && not has_pending && not has_pointer
            then pure false
            else recover_evidence h (has_pointer && not has_install && not has_pending))
          (λ _. Settled h pointer)
          Stop
    unfolding Looked
    looked = elim (Bool-cases (not has_install && not has_pending && not has_pointer)) [
      | inl t ↦ rw t (Triple-pure false (λ d x. idle (without_journal d x (nothing t)) d x.0))
      | inr f ↦ rw f (
          Triple-fact _ (λ d x. without_journal d x)
            (λ none_there.
              Triple-weaken _
                (evidence (has_pointer && not has_install && not has_pending)
                  (λ t. none_there (only t)))
                (λ d x. x.0) (λ _ d x. x)))
    ]

  managed : Triple Start (recover_existing h true) (λ _. Settled h pointer) Stop
  unfolding recover_existing Looked
  managed =
      Triple-bind _ _ (Triple-read Start Stop weak (λ d. ok (file_exists d.install)))
        (λ has_install.
          Triple-bind _ _
            (Triple-weaken _ (Triple-read Start Stop weak (λ d. ok (file_exists d.pending)))
              (λ d x. x.0) (λ _ d x. x))
            (λ has_pending.
              Triple-bind _ _
                (Triple-weaken _
                  (Triple-read
                    (λ d.
                      Start d
                      × ◌≡◌ {A = Result (InstallError V) Bool} (ok (file_exists d.pending))
                          (ok has_pending))
                    Stop (λ d x. weak d x.0) (λ d. ok (is_symlink d.command)))
                  (λ d x. x) (λ _ d x. x.0))
                (λ has_pointer. looked has_install has_pending has_pointer)))

  rooted : (d : Disk) → Start d → dir_exists d.root ≡ true
  rooted d x = ground (arith, x.laid_out.root_usable)

  -- The whole of `recover_if_managed`.
  pub recover_if_managed-Settled : Triple Start (recover_if_managed h) (λ _. Settled h pointer) Stop
  unfolding recover_if_managed
  recover_if_managed-Settled =
      Triple-bind _ _
        (Triple-weaken _ (Triple-check Start Stop weak (validate_configuration h)) (λ d x. x)
          (λ _ d x. x.0))
        (λ _.
          Triple-known Start Stop weak (λ d. ok (dir_exists d.root)) true _
            (λ d x. ap ok (rooted d x)) managed)
