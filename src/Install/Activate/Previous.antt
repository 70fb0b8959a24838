-- ===== src/Install/Activate/Previous.antt =====
-- The whole of `rollback` (src/install/activation.rs): recovery, the choice of the recorded previous
-- version and its activation, cut short anywhere or complete.
use relswap.Base.{
  Bool, Option, Result, ok, err, ap, refl, ◌∙◌, arith, inl, inr, none, not, ok_or, reject_if,
  reject_if-eq-ok, some, sym, true, ◌≡◌, ◌⊎◌,
}
use relswap.External.{version_lt}
use relswap.Install.State.{InstallError, unmanaged, invalid, InstallState}
use relswap.Install.Host.{Host}
use relswap.Install.Disk.{FileNode, Disk, World, Action, lift, ◌>>=◌, ◌>>◌}
use relswap.Install.Disk.Triple.{
  Ends, continue-Ends, Triple, Triple-bind, Triple-weaken, Triple-relax,
}
use relswap.Install.Journal.{install_of}
use relswap.Install.Activate.{require_managed_current}
use relswap.Install.Journal.{read_install_state}
use relswap.Install.Manager.{activate_existing, rollback}
use relswap.Install.State.{ActivationResult}
use relswap.Install.Recovery.Keeps.{RecoverableAt, Settled}
use relswap.Install.Recovery.Managed.{recover_if_managed-Settled}
use relswap.Install.Recovery.{recover_if_managed}
use relswap.Install.Activate.Rollback.{some_of}
use relswap.Install.Health.{IsLawfulHost, At}
use relswap.Install.Health.Rules.{Triple-check, Triple-known, Triple-fact}
use relswap.Install.Activate.RolledBack.{managed, permitted, IsOlder, RolledBack, Halfway}
use mathlib.Core.Path.{subst}

module _ {V : Type 0} (h : Host V) (lawful : IsLawfulHost h) where
  -- The version that the state document `node` records as the previous one.
  abbrev pub IsRecorded : FileNode → V → Type 0
  IsRecorded node target =
      (i : InstallState V) × (install_of h node ≡ ok (some i)) × (i.previous ≡ some target)

  -- The pointer is at the recorded previous version, which is older, and the state document says so.
  abbrev pub WentBack : FileNode → Option V → Disk → Type 0
  WentBack node pointer d =
      (target : V) × IsRecorded node target × RolledBack h lawful target pointer d

  -- The pointer is where it was, or at the recorded previous version, which is older.
  abbrev pub NotAhead : FileNode → Option V → Disk → Type 0
  NotAhead node pointer d =
      RecoverableAt h pointer d
      ⊎ ((target : V) × IsRecorded node target
          × IsOlder h lawful target pointer
          × RecoverableAt h (some target) d)

  behind :
      (node : FileNode) (target : V) (pointer : Option V) (d : Disk)
      → IsRecorded node target
      → Halfway h lawful target pointer d
      → NotAhead node pointer d
  behind node target pointer d recorded (inl x) = inl x
  behind node target pointer d recorded (inr x) = inr (target, recorded, x.0, x.1)

  chosen :
      (node : FileNode) (install : Option (InstallState V)) (current target : V)
      → IsRecorded node target
      → version_lt h.ext target current ≡ true
      → Triple
          (At h install none (some current))
          (activate_existing h target)
          (λ _. WentBack node (some current))
          (NotAhead node (some current))
  chosen node install current target recorded t =
      Triple-weaken _
        (Triple-relax _ (permitted h lawful target install current t)
          (λ d x. behind node target (some current) d recorded x))
        (λ d x. x) (λ _ d x. (target, recorded, x))

  -- What `rollback` does after recovery.
  abbrev resumption : Action V (ActivationResult V)
  resumption = require_managed_current h >>= λ current. read_install_state h >>= λ state.
      lift (ok_or state unmanaged) >>= λ install.
      lift (ok_or install.previous (invalid "managed installation has no previous version"))
      >>= λ target.
          lift (
            reject_if (not (version_lt h.ext target current))
              (invalid "managed installation previous version is not older than active"))
          >> activate_existing h target

  module _ (node : FileNode) (install : Option (InstallState V)) (pointer : Option V)
      (read : install_of h node ≡ ok install) where
    abbrev Rest : Disk → Type 0
    Rest = At h install none pointer

    abbrev Stopped : Disk → Type 0
    Stopped = NotAhead node pointer

    weak : (d : Disk) → Rest d → Stopped d
    weak d x = inl (install, none, x)

    got :
        {A : Type 0} (o : Option A) (e : InstallError V)
        → Triple Rest (lift (ok_or o e)) (λ a d. Rest d × (o ≡ some a)) Stopped
    got o e =
        Triple-weaken _ (Triple-check Rest Stopped weak (ok_or o e)) (λ d x. x)
          (λ a d x. (x.0, some_of o e a x.1))

    -- The checked activation of the recorded version.
    decided :
        (current target : V)
        → pointer ≡ some current
        → IsRecorded node target
        → Triple Rest
            (lift (
                reject_if
                  (not (version_lt h.ext target current))
                  (invalid "managed installation previous version is not older than active"))
              >> activate_existing h target)
            (λ _. WentBack node pointer)
            Stopped
    decided current target is recorded =
        Triple-bind _ _
          (Triple-check Rest Stopped weak (reject_if (not (version_lt h.ext target current)) _))
          (λ _.
            Triple-fact _
              (λ d x. ground (arith, reject_if-eq-ok (not (version_lt h.ext target current)) _ x.1))
              (λ t.
                Triple-weaken _
                  (subst
                    (λ o.
                      Triple (At h install none o) (activate_existing h target)
                        (λ _. WentBack node o) (NotAhead node o))
                    (sym is) (chosen node install current target recorded t))
                  (λ d x. x.0) (λ _ d x. x)))

    resumed : Triple Rest resumption (λ _. WentBack node pointer) Stopped
    unfolding read_install_state
    resumed = Triple-bind _ _ (managed h Stopped install pointer weak) (λ current.
        Triple-fact _ (λ d x. x.1)
          (λ is.
            Triple-weaken _
              (Triple-known Rest Stopped weak (λ d. install_of h d.install) install _
                (λ d x. x.install_read)
                (Triple-bind _ _ (got install unmanaged) (λ i.
                  Triple-fact _ (λ d x. x.1)
                    (λ known.
                      Triple-weaken _
                        (Triple-bind _ _
                          (got i.previous (invalid "managed installation has no previous version"))
                          (λ target.
                            Triple-fact _ (λ d x. x.1)
                              (λ recorded.
                                Triple-weaken _
                                  (decided current target is (i, read ∙ ap ok known, recorded))
                                  (λ d x. x.0) (λ _ d x. x))))
                        (λ d x. x.0) (λ _ d x. x)))))
              (λ d x. x.0) (λ _ d x. x)))

  -- What recovery left, with the state document in the file `node`.
  abbrev AfterRecovery : FileNode → Option V → Disk → Type 0
  AfterRecovery node pointer d = Settled h pointer d × (d.install ≡ node)

  came_out :
      (pointer : Option V) (r : Result (InstallError V) Bool) (w : World)
      → Ends (λ _. Settled h pointer) (RecoverableAt h pointer) (r, w)
      → Ends (λ _. AfterRecovery w.disk.install pointer) (NotAhead w.disk.install pointer) (r, w)
  came_out pointer (ok a) w x = (x, refl)
  came_out pointer (err e) w x = inl x

  resumed_then :
      (node : FileNode) (pointer : Option V)
      → Triple
          (AfterRecovery node pointer)
          resumption
          (λ _. WentBack node pointer)
          (NotAhead node pointer)
  resumed_then node pointer = record {
    at = λ w x.
        let read = subst (λ n. install_of h n ≡ ok x.0.0) x.1 x.0.1.install_read in
        (resumed node x.0.0 pointer read).at w x.0.1;
  }

  -- A rollback to the recorded previous version is atomic and only goes back, under every schedule of
  -- failures: from a recoverable disk, the whole of `rollback` ends without a journal at the version that
  -- the state document, as recovery left it, records as the previous one, which is older than the
  -- pointer's version before and which the state document now names, or it fails and leaves a recoverable
  -- disk whose pointer is where it was or at that version.
  pub rollback-WentBack :
      (pointer : Option V) (w : World)
      → RecoverableAt h pointer w.disk
      → Ends
          (λ _. WentBack (recover_if_managed h w).1.disk.install pointer)
          (NotAhead (recover_if_managed h w).1.disk.install pointer)
          (rollback h w)
  unfolding rollback ◌>>=◌
  rollback-WentBack pointer w (install, pending, x) =
      let (r, w') = recover_if_managed h w in
      continue-Ends r w' (λ _. resumption)
        (came_out pointer r w'
          ((recover_if_managed-Settled h lawful install pending pointer).at w x))
        (λ _. resumed_then w'.disk.install pointer)
