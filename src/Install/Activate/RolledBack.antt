-- ===== src/Install/Activate/RolledBack.antt =====
-- The whole of `rollback_to` and `rollback` (src/install/activation.rs): recovery, the checks, the lock
-- and the activation of the retained version, cut short anywhere or complete.
use relswap.Base.{
  Option, Result, arith, false, inl, inr, none, not, ok_or, refl, reject_if, reject_if-eq-ok, some,
  sym, true, ◌≡◌, ◌⊎◌,
}
use relswap.External.{version_lt}
use relswap.Install.State.{
  InstallError, unmanaged, invalid, InstallState, PendingActivation, option_eq,
  validate_install_state,
}
use relswap.Install.Host.{Host}
use relswap.Install.Disk.{
  Disk, World, Action, lift, ◌>>=◌, ◌>>◌, root_slot, dir_exists, make_version_dir,
}
use relswap.Install.Disk.Triple.{
  Ends, Triple, Triple-pure, Triple-bind, Triple-weaken, Triple-relax,
}
use relswap.Install.Journal.{install_of}
use relswap.Install.Pointer.{pointer_of}
use relswap.Install.Activate.{require_managed_current}
use relswap.Install.Manager.{activate_existing, rollback_to}
use relswap.Install.Recovery.Keeps.{RecoverableAt, Settled}
use relswap.Install.Recovery.Managed.{Triple-open_lock, At-make_lock, recover_if_managed-Settled}
use relswap.Install.Health.{IsLawfulHost, At}
use relswap.Install.Health.Frame.{At-make_slot, At-make_version_dir}
use relswap.Install.Health.Rules.{Triple-check, Triple-verify, Triple-known, Triple-fact}
use relswap.Install.Activate.CrashSafe.{Between, NowAt}
use relswap.Install.Activate.Rollback.{Triple-command_owned, existing-Between, some_of}
use mathlib.Core.Path.{subst}
use Prim.Native.Nat.{Ordering}

-- The current version is the pointer's, and finding it out changes nothing.
module _ {V : Type 0} (h : Host V) (E : Disk → Type 0) (install : Option (InstallState V))
    (pointer : Option V) where
  abbrev Rest : Disk → Type 0
  Rest = At h install none pointer

  module _ (weak : (d : Disk) → Rest d → E d) where
    pub checks :
        {A : Type 0} (r : Result (InstallError V) A)
        → Triple Rest (relswap.Install.Disk.lift r) (λ _. Rest) E
    checks r = Triple-weaken _ (Triple-check Rest E weak r) (λ d x. x) (λ _ d x. x.0)

    pub managed : Triple Rest (require_managed_current h) (λ v d. Rest d × (pointer ≡ some v)) E
    unfolding require_managed_current
    managed =
        Triple-known Rest E weak (λ d. pointer_of h d.command) pointer _ (λ d x. x.pointer_read)
          (Triple-bind _ _ (Triple-check Rest E weak (ok_or pointer unmanaged)) (λ current.
            Triple-fact _ (λ d x. some_of pointer unmanaged current x.1)
              (λ is.
                Triple-weaken _
                  (Triple-known Rest E weak (λ d. install_of h d.install) install _
                    (λ d x. x.install_read)
                    (Triple-bind _ _ (checks (ok_or install unmanaged)) (λ i.
                      Triple-bind _ _ (checks (validate_install_state h.ext i)) (λ _.
                        Triple-bind _ _
                          (checks (reject_if (not (option_eq h.ext i.active (some current))) _))
                          (λ _.
                            Triple-bind _ _
                              (Triple-weaken _
                                (Triple-verify h Rest E weak current (some i.installation_id)
                                  (λ name d x free. At-make_version_dir h x name free))
                                (λ d x. x) (λ _ d x. x.0))
                              (λ _.
                                Triple-bind _ _
                                  (Triple-command_owned h Rest E weak
                                    (λ name d x free. At-make_version_dir h x name free)
                                    (some current) (some i))
                                  (λ _. Triple-pure current (λ d x. (x, is)))))))))
                  (λ d x. x.0) (λ _ d x. x))))

module _ {V : Type 0} (h : Host V) (lawful : IsLawfulHost h) (target : V) where
  existing :
      (install : Option (InstallState V)) (current : V)
      → Triple
          (At h install none (some current))
          (activate_existing h target)
          (λ _. NowAt h (some current) target)
          (Between h (some current) target)
  unfolding activate_existing
  existing install current =
      Triple-bind _ _
        (Triple-open_lock h (At h install none (some current)) _ (λ d x. inl (install, none, x))
          true (λ d x. At-make_slot h x root_slot)
          (λ d x. At-make_lock h install none (some current) d x))
        (λ _. existing-Between h lawful target install current)

  -- The version is older than the pointer's.
  abbrev pub IsOlder : Option V → Type 0
  IsOlder pointer =
      (current : V) × (pointer ≡ some current) × (h.ext.version_cmp target current ≡ Ordering.lt)

  -- The version is older, the pointer is at it, and the state document says so.
  abbrev pub RolledBack : Option V → Disk → Type 0
  RolledBack pointer d = IsOlder pointer × NowAt h pointer target d

  -- The pointer is where it was, or the version is older and the pointer is at it.
  abbrev pub Halfway : Option V → Disk → Type 0
  Halfway pointer d =
      RecoverableAt h pointer d ⊎ (IsOlder pointer × RecoverableAt h (some target) d)

  lowered :
      (pointer : Option V) (d : Disk)
      → IsOlder pointer
      → Between h pointer target d
      → Halfway pointer d
  lowered pointer d older (inl x) = inl x
  lowered pointer d older (inr x) = inr (older, x)

  older_of :
      (current : V)
      → version_lt h.ext target current ≡ true
      → h.ext.version_cmp target current ≡ Ordering.lt
  older_of current t = lt (h.ext.version_cmp target current) t
    where
      lt : (o : Ordering) → (elim o [ Ordering.lt ↦ true | _ ↦ false ]) ≡ true → o ≡ Ordering.lt
      lt Ordering.lt t = refl
      lt Ordering.eq t = cc
      lt Ordering.gt t = cc

  pub permitted :
      (install : Option (InstallState V)) (current : V)
      → version_lt h.ext target current ≡ true
      → Triple
          (At h install none (some current))
          (activate_existing h target)
          (λ _. RolledBack (some current))
          (Halfway (some current))
  permitted install current t =
      let older : IsOlder (some current) = (current, refl, older_of current t) in
      Triple-weaken _
        (Triple-relax _ (existing install current) (λ d x. lowered (some current) d older x))
        (λ d x. x) (λ _ d x. (older, x))

  after_recovery :
      (install : Option (InstallState V)) (pointer : Option V)
      → Triple
          (At h install none pointer)
          (require_managed_current h >>= λ current.
            lift (
              reject_if
                (not (version_lt h.ext target current))
                (invalid "rollback target must be older than active version"))
            >> activate_existing h target)
          (λ _. RolledBack pointer)
          (Halfway pointer)
  after_recovery install pointer =
      let weak : (d : Disk) → At h install none pointer d → Halfway pointer d =
        λ d x. inl (install, none, x) in
      Triple-bind _ _ (managed h (Halfway pointer) install pointer weak) (λ current.
        Triple-fact _ (λ d x. x.1)
          (λ is.
            Triple-weaken _
              (Triple-bind _ _
                (Triple-check (At h install none pointer) (Halfway pointer) weak
                  (reject_if (not (version_lt h.ext target current)) _))
                (λ _.
                  Triple-fact _
                    (λ d x.
                      ground (arith, reject_if-eq-ok (not (version_lt h.ext target current)) _ x.1))
                    (λ t.
                      Triple-weaken _
                        (subst
                          (λ o.
                            Triple (At h install none o) (activate_existing h target)
                              (λ _. RolledBack o) (Halfway o))
                          (sym is) (permitted install current t))
                        (λ d x. x.0) (λ _ d x. x))))
              (λ d x. x.0) (λ _ d x. x)))

  resumed :
      (pointer : Option V)
      → Triple
          (Settled h pointer)
          (require_managed_current h >>= λ current.
            lift (
              reject_if
                (not (version_lt h.ext target current))
                (invalid "rollback target must be older than active version"))
            >> activate_existing h target)
          (λ _. RolledBack pointer)
          (Halfway pointer)
  resumed pointer = record { at = λ w x. (after_recovery x.0 pointer).at w x.1 }

  rollback_to-Triple :
      (install : Option (InstallState V)) (pending : Option (PendingActivation V))
      (pointer : Option V)
      → Triple
          (At h install pending pointer)
          (rollback_to h target)
          (λ _. RolledBack pointer)
          (Halfway pointer)
  unfolding rollback_to
  rollback_to-Triple install pending pointer =
      Triple-bind _ _
        (Triple-relax _ (recover_if_managed-Settled h lawful install pending pointer)
          (λ d x. inl x))
        (λ _. resumed pointer)

  -- A rollback is atomic and only goes back: from every disk that a crash can leave, it ends with the
  -- pointer at the target, verified and older, no journal and a state document that names the target and
  -- the version before, or it fails, whichever call fails, and leaves a disk from which recovery can go on,
  -- whose pointer is where it was, or at the target, which is then older.
  pub rollback_to-RolledBack :
      (pointer : Option V) (w : World)
      → RecoverableAt h pointer w.disk
      → Ends (λ _. RolledBack pointer) (Halfway pointer) (rollback_to h target w)
  rollback_to-RolledBack pointer w (install, pending, x) =
      (rollback_to-Triple install pending pointer).at w x
