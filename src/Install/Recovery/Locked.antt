-- ===== src/Install/Recovery/Locked.antt =====
-- The whole of `recover_locked` (src/install/recovery.rs), cut short or complete.
use relswap.Base.{
  Str, Bool, true, false, ◌≡◌, refl, arith, Option, none, some, is_some, Bool-cases, if◌then◌else◌,
  inl, inr,
}
use relswap.External.{version_eq}
use relswap.Release.Target.{Target}
use relswap.Install.State.{
  InstallState, PendingActivation, VersionState, state_schema_version, validate_pending,
}
use relswap.Install.Host.{Host}
use relswap.Install.Disk.{Disk, World, staging_slot}
use relswap.Install.Disk.Triple.{
  Ends, Triple, Triple-pure, Triple-raise, Triple-bind, Triple-weaken, Triple-attempt,
}
use relswap.Install.Journal.{install_of, pending_of}
use relswap.Install.Pointer.{pointer_of}
use relswap.Install.Recovery.{
  active_of, previous_of, needs_repair, keep_previous, repair, reconcile, validate_install_option,
  recover_by_journal, recover_locked,
}
use relswap.Install.Recovery.Keeps.{
  RecoverableAt, Recovered, option_eq→eq, recover, Triple-cleanup_staging,
}
use relswap.Install.Health.{IsLawfulHost, At}
use relswap.Install.Health.Frame.{At-make_slot, At-drop_staged, At-make_version_dir}
use relswap.Install.Health.Journaled.{At-put_install}
use relswap.Install.Health.Rules.{
  Triple-check, Triple-verify, Triple-ensure_private_layout, Triple-known,
}
use relswap.Install.Health.Writes.{Triple-write_install, Triple-sync_parents}

module _ {V : Type 0} (h : Host V) (lawful : IsLawfulHost h) (pointer : V) where
  abbrev Before : Option (InstallState V) → Disk → Type 0
  Before install = At h install none (some pointer)

  weak :
      (install : Option (InstallState V)) (d : Disk)
      → Before install d
      → RecoverableAt h (some pointer) d
  weak install d x = (install, none, x)

  -- The state document names the pointer's version.
  abbrev Agreed : Disk → Type 0
  Agreed d = (after : Option (InstallState V)) × Before after d × (active_of after ≡ some pointer)

  module _ (install : Option (InstallState V)) where
    kept :
        (previous : Option V) (id : Str)
        → Triple
            (Before install)
            (keep_previous h previous pointer id)
            (λ _. Before install)
            (RecoverableAt h (some pointer))
    unfolding keep_previous
    kept none id = Triple-pure none (λ d x. x)
    kept (some v) id = elim (Bool-cases (version_eq h.ext v pointer)) [
      | inl t ↦ rw t (Triple-pure none (λ d x. x))
      | inr f ↦ rw f (
          Triple-bind _ _
            (Triple-attempt _ (
              Triple-weaken _
                (Triple-verify h (Before install) (Before install) (λ d x. x) v (some id)
                  (λ name d x free. At-make_version_dir h x name free))
                (λ d x. x) (λ _ d x. x.0)))
            (λ verified. Triple-pure (if verified then some v else none) (λ d x. x)))
    ]

    -- The document that a repair writes.
    abbrev repaired : Option V → VersionState V Target → InstallState V
    repaired previous state = record {
      schema_version = state_schema_version;
      active = some pointer;
      previous = previous;
      installation_id = state.installation_id;
      launcher = none;
    }

    -- What needs no repair names the pointer's version.
    unrepaired :
        (state : VersionState V Target)
        → needs_repair h install pointer state ≡ false
        → active_of install ≡ some pointer
    unfolding needs_repair
    unrepaired state e = named install state e
      where
        named :
            (i : Option (InstallState V)) (state : VersionState V Target)
            → needs_repair h i pointer state ≡ false
            → active_of i ≡ some pointer
        named none state e = cc
        named (some i) state e =
            option_eq→eq h.ext lawful.ext_lawful i.active (some pointer) (ground (arith, e))

    repaired-Agreed :
        (needed : Bool) (state : VersionState V Target)
        → (needed ≡ false → active_of install ≡ some pointer)
        → Triple
            (Before install)
            (repair h needed install pointer state)
            (λ _. Agreed)
            (RecoverableAt h (some pointer))
    unfolding repair
    repaired-Agreed false state same = Triple-pure tt (λ d x. (install, x, same refl))
    repaired-Agreed true state same =
        Triple-bind _ _ (kept (previous_of install) state.installation_id) (λ previous.
          let after = Before (some (repaired previous state)) in
          Triple-bind _ _
            (Triple-write_install h {Q = after} (repaired previous state) (weak install)
              (weak (some (repaired previous state)))
              (λ d valid x. At-put_install h lawful (repaired previous state) valid x.agree x))
            (λ _.
              Triple-weaken _
                (Triple-sync_parents after (RecoverableAt h (some pointer))
                  (weak (some (repaired previous state))) h)
                (λ d x. x) (λ _ d x. (some (repaired previous state), x, refl))))

  weak_Agreed : (d : Disk) → Agreed d → RecoverableAt h (some pointer) d
  weak_Agreed d x = (x.0, none, x.1)

  reconcile-Agreed :
      (install : Option (InstallState V))
      → Triple
          (Before install)
          (reconcile h install (some pointer))
          (λ _. Agreed)
          (RecoverableAt h (some pointer))
  unfolding reconcile
  reconcile-Agreed install =
      Triple-bind _ _
        (Triple-verify h (Before install) (RecoverableAt h (some pointer)) (weak install) pointer
          none (λ name d x free. At-make_version_dir h x name free))
        (λ state.
          Triple-bind _ _
            (Triple-weaken _
              (repaired-Agreed install (needs_repair h install pointer state) state
                (unrepaired install state))
              (λ d x. x.0) (λ _ d x. x))
            (λ _.
              Triple-bind _ _
                (Triple-cleanup_staging Agreed (RecoverableAt h (some pointer)) weak_Agreed
                  (λ d x. (x.0, At-make_slot h x.1 staging_slot, x.2))
                  (λ id d x. (x.0, At-drop_staged h x.1 id, x.2)))
                (λ _. Triple-pure true (λ d x. x))))

module _ {V : Type 0} (h : Host V) (lawful : IsLawfulHost h) where
  unclaimed : (o : Option V) → is_some o ≡ false → o ≡ none
  unclaimed none e = refl
  unclaimed (some v) e = cc

  reconcile_any :
      (install : Option (InstallState V)) (pointer : Option V)
      → Triple
          (At h install none pointer)
          (reconcile h install pointer)
          (λ _. Recovered h install none pointer)
          (RecoverableAt h pointer)
  unfolding reconcile
  reconcile_any install (some v) = reconcile-Agreed h lawful v install
  reconcile_any install none = elim (Bool-cases (is_some (active_of install))) [
    | inl t ↦ rw t (Triple-raise _ (λ d x. (install, none, x)))
    | inr f ↦ rw f (Triple-pure false (λ d x. (install, x, unclaimed (active_of install) f)))
  ]

  recovered :
      (install : Option (InstallState V)) (pending : Option (PendingActivation V))
      (pointer : Option V)
      → Triple
          (At h install pending pointer)
          (recover_by_journal h pending install pointer)
          (λ _. Recovered h install pending pointer)
          (RecoverableAt h pointer)
  unfolding recover_by_journal
  recovered install none pointer = reconcile_any install pointer
  recovered install (some p) pointer =
      Triple-bind _ _ (Triple-check _ _ (λ d x. (install, some p, x)) (validate_pending h.ext p))
        (λ _. Triple-weaken _ (recover h lawful install p pointer) (λ d x. x.0) (λ _ d x. x))

  -- Checking the state document changes nothing.
  pub checked :
      (install : Option (InstallState V)) (P E : Disk → Type 0)
      → ((d : Disk) → P d → E d)
      → Triple {V = V} P (validate_install_option h install) (λ _. P) E
  unfolding validate_install_option
  checked none P E weak = Triple-pure tt (λ d x. x)
  checked (some i) P E weak = Triple-weaken _ (Triple-check P E weak _) (λ d x. x) (λ _ d x. x.0)

  pub recover_locked-Triple :
      (install : Option (InstallState V)) (pending : Option (PendingActivation V))
      (pointer : Option V)
      → Triple
          (At h install pending pointer)
          (recover_locked h)
          (λ _. Recovered h install pending pointer)
          (RecoverableAt h pointer)
  unfolding recover_locked
  recover_locked-Triple install pending pointer =
      let P = At h install pending pointer in
      let E = RecoverableAt h pointer in
      let weak : (d : Disk) → P d → E d = λ d x. (install, pending, x) in
      Triple-bind _ _ (Triple-ensure_private_layout P E weak (λ slot d x. At-make_slot h x slot))
        (λ _.
          Triple-known P E weak (λ d. pending_of h d.pending) pending _ (λ d x. x.pending_read)
            (Triple-known P E weak (λ d. install_of h d.install) install _ (λ d x. x.install_read)
              (Triple-bind _ _ (checked install P E weak) (λ _.
                Triple-known P E weak (λ d. pointer_of h d.command) pointer _
                  (λ d x. x.pointer_read) (recovered install pending pointer)))))

  -- The whole of `recover_locked`: from every recoverable disk it keeps the pointer. Where it completes, the
  -- journal is gone, and the state document names the pointer's version, or it is the one from before where
  -- there was a journal and the pointer had not been switched; where it fails, whichever call fails, it
  -- leaves a recoverable disk.
  pub recover_locked-Recovered :
      (install : Option (InstallState V)) (pending : Option (PendingActivation V))
      (pointer : Option V) (w : World)
      → At h install pending pointer w.disk
      → Ends
          (λ _. Recovered h install pending pointer)
          (RecoverableAt h pointer)
          (recover_locked h w)
  recover_locked-Recovered install pending pointer w x =
      (recover_locked-Triple install pending pointer).at w x
