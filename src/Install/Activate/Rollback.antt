-- ===== src/Install/Activate/Rollback.antt =====
-- Activating a retained version (`activate_existing_locked`, `rollback_to` in
-- src/install/activation.rs), cut short or complete.
use relswap.Base.{
  Str, Bool, true, false, not, ◌≡◌, refl, Option, none, some, inl, ok, ok_or, arith, lookup,
  reject_if, if◌then◌else◌,
}
use relswap.External.{version_lt}
use relswap.Install.State.{unmanaged, InstallState, verified}
use relswap.Install.Host.{Host}
use relswap.Install.Disk.{
  DirState, missing, directory, not_directory, Disk, World, Action, command_exists,
  make_version_dir, fault_at, ◌>>=◌, ◌>>◌,
}
use relswap.Install.Disk.Triple.{
  Triple, Triple-pure, Triple-raise, Triple-effect, Triple-fault, Triple-bind, Triple-weaken,
}
use relswap.Install.Journal.{install_of}
use relswap.Install.Pointer.{pointer_of}
use mathlib.Core.Path.{subst}
use relswap.Install.Verify.{verify_final_version}
use relswap.Install.Activate.{
  activate_pointer_and_state, ensure_existing_owned, ensure_command_owned, make_command_parent,
  ensure_parent_state, ensure_command_parent, activate_existing_locked, check_symlink,
}
use relswap.Install.Health.{IsLawfulHost, At}
use relswap.Install.Health.Frame.{At-same, At-make_version_dir}
use relswap.Install.Health.Rules.{
  Triple-read, Triple-check, Triple-verify, Triple-known, Triple-fact,
}
use relswap.Install.Activate.CrashSafe.{
  NowAt, IsPrepared, IsPrepared-same, Between, activate-Between_from,
}
use relswap.Install.Activate.Prepared.{Triple-IsPrepared}

module _ {V : Type 0} (h : Host V) (P E : Disk → Type 0) (weak : (d : Disk) → P d → E d)
    (k : (name : Str) (d : Disk)
      → P d
      → lookup name d.versions ≡ none
      → P (make_version_dir name d)) where
  Triple-existing_owned :
      (active : Option V) (install : Option (InstallState V))
      → Triple P (ensure_existing_owned h active install) (λ _. P) E
  unfolding ensure_existing_owned
  Triple-existing_owned none install = Triple-raise _ weak
  Triple-existing_owned (some a) none = Triple-raise _ weak
  Triple-existing_owned (some a) (some i) =
      Triple-bind _ _ (Triple-weaken _ (Triple-check P E weak _) (λ d x. x) (λ _ d x. x.0)) (λ _.
        Triple-bind _ _
          (Triple-weaken _ (Triple-verify h P E weak a (some i.installation_id) k) (λ d x. x)
            (λ _ d x. x.0))
          (λ _.
            Triple-weaken _ (Triple-read P E weak (λ d. check_symlink h a d.command)) (λ d x. x)
              (λ _ d x. x.0)))

  -- The checks of the command change nothing that `P` speaks of.
  pub Triple-command_owned :
      (active : Option V) (install : Option (InstallState V))
      → Triple P (ensure_command_owned h active install) (λ _. P) E
  unfolding ensure_command_owned
  Triple-command_owned active install =
      Triple-bind _ _
        (Triple-weaken _ (Triple-read P E weak (λ d. ok (command_exists d.command))) (λ d x. x)
          (λ _ d x. x.0))
        (λ exists. owned exists)
    where
      owned :
          (exists : Bool)
          → Triple P
              (if exists
                then ensure_existing_owned h active install
                else relswap.Install.Disk.pure tt)
              (λ _. P)
              E
      owned true = Triple-existing_owned active install
      owned false = Triple-pure tt (λ d x. x)

module _ {V : Type 0} (h : Host V) (P E : Disk → Type 0) (weak : (d : Disk) → P d → E d)
    (k : (d : Disk) → P d → P (make_command_parent h d)) where
  Triple-parent_state : (s : DirState) → Triple P (ensure_parent_state h s) (λ _. P) E
  unfolding ensure_parent_state
  Triple-parent_state missing =
      Triple-effect (make_command_parent h) weak (λ d x. weak (make_command_parent h d) (k d x)) k
  Triple-parent_state (directory b) = Triple-pure tt (λ d x. x)
  Triple-parent_state not_directory = Triple-raise _ weak

  pub Triple-command_parent : Triple P (ensure_command_parent h) (λ _. P) E
  unfolding ensure_command_parent
  Triple-command_parent =
      Triple-bind _ _ (Triple-read P E weak (λ d. ok d.command_parent))
        (λ s. Triple-weaken _ (Triple-parent_state s) (λ d x. x.0) (λ _ d x. x))

pub some_of : {E A : Type 0} (o : Option A) (e : E) (a : A) → ok_or o e ≡ ok a → o ≡ some a
some_of none e a x = cc
some_of (some b) e a x = ground arith

module _ {V : Type 0} (h : Host V) (lawful : IsLawfulHost h) (target : V) where
  module _ (i : InstallState V) (from : V) where
    abbrev Held : Disk → Type 0
    Held = At h (some i) none (some from)

    weak_Held : (d : Disk) → Held d → Between h (some from) target d
    weak_Held d x = inl (some i, none, x)

    abbrev Loaded : Disk → Type 0
    Loaded d = Held d × IsPrepared h target i.installation_id d

    with_parent : (d : Disk) → Loaded d → Loaded (make_command_parent h d)
    unfolding make_command_parent
    with_parent d x = (
      At-same h x.0 (make_command_parent h d) refl refl refl refl (record {
        root_usable = x.0.laid_out.root_usable;
        versions_usable = x.0.laid_out.versions_usable;
        staging_usable = x.0.laid_out.staging_usable;
        staged = x.0.laid_out.staged;
      }),
      IsPrepared-same h (make_command_parent h d) refl x.1,
    )

    weak_Loaded : (d : Disk) → Loaded d → Between h (some from) target d
    weak_Loaded d x = weak_Held d x.0

    ready :
        Triple Held
          (ensure_command_owned h (some from) (some i)
            >> (verify_final_version h target (some i.installation_id) >>= λ _.
                fault_at h verified
                >> (ensure_command_parent h
                    >> activate_pointer_and_state h
                        (some from)
                        target
                        i.installation_id
                        none
                        none)))
          (λ _. NowAt h (some from) target)
          (Between h (some from) target)
    ready =
        Triple-bind _ _
          (Triple-command_owned h Held _ weak_Held
            (λ name d x free. At-make_version_dir h x name free) (some from) (some i))
          (λ _.
            Triple-bind _ _
              (Triple-IsPrepared h Held _ weak_Held target i.installation_id
                (λ name d x free. At-make_version_dir h x name free))
              (λ _.
                Triple-bind _ _ (Triple-fault {Q = λ _. Loaded} h verified weak_Loaded (λ d x. x))
                  (λ _.
                    Triple-bind _ _ (Triple-command_parent h Loaded _ weak_Loaded with_parent) (λ _.
                      Triple-weaken _
                        (activate-Between_from h lawful (some i) (some from) target
                          i.installation_id refl none none)
                        (λ d x. x) (λ _ d x. (_, x.0, refl, refl))))))

  module _ (install : Option (InstallState V)) (from : V) where
    abbrev Start : Disk → Type 0
    Start = At h install none (some from)

    weak_Start : (d : Disk) → Start d → Between h (some from) target d
    weak_Start d x = inl (install, none, x)

    -- Only an older version is activated, and only where the installation has a state document.
    pub existing-Between :
        Triple Start
          (activate_existing_locked h target)
          (λ _. NowAt h (some from) target)
          (Between h (some from) target)
    unfolding activate_existing_locked
    existing-Between =
        Triple-known Start _ weak_Start (λ d. install_of h d.install) install _
          (λ d x. x.install_read)
          (Triple-bind _ _ (Triple-check Start _ weak_Start (ok_or install unmanaged)) (λ i.
            Triple-fact _ (λ d x. some_of install unmanaged i x.1)
              (λ is.
                Triple-weaken _
                  (Triple-known Start _ weak_Start (λ d. pointer_of h d.command) (some from) _
                    (λ d x. x.pointer_read)
                    (Triple-bind _ _
                      (Triple-check Start _ weak_Start
                        (reject_if (not (version_lt h.ext target from)) _))
                      (λ _.
                        Triple-weaken _ (ready i from)
                          (λ d x. subst (λ o. At h o none (some from) d) is x.0) (λ _ d x. x))))
                  (λ d x. x.0) (λ _ d x. x))))
