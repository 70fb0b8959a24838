-- ===== src/Install/Recovery/Keeps.antt =====
-- Recovery that is itself cut short (`recover_locked`, src/install/recovery.rs).
use relswap.Base.{
  Str, Bool, true, false, ◌≡◌, ◌⊎◌, refl, ap, sym, ◌∙◌, inl, inr, Option, none, some, List, [], ◌∷◌,
  ok, Result, arith, is_some, lookup, Bool-cases,
}
use relswap.External.{External, IsLawful, version_eq→eq, version_eq}
use relswap.Release.Target.{Target}
use relswap.Install.State.{
  InstallError, InstallState, PendingActivation, VersionState, option_eq, install_written,
  pending_removed, parents_synced,
}
use relswap.Install.Host.{Host, version_name}
use relswap.Install.Disk.{Disk, StagedDir, absent, staging_slot, make_slot, dir_exists, raise}
use relswap.Install.Disk.Triple.{
  Triple, Triple-pure, Triple-raise, Triple-effect, Triple-fault, Triple-bind, Triple-weaken,
}
use relswap.Install.Journal.{pending_of, read_json}
use relswap.Install.Staging.{cleanup_staging, cleanup_existing, remove_entries, drop_staged}
use relswap.Install.Verify.{verify_contents, members_of}
use relswap.Install.Recovery.{active_of, id_of, finish_pending, complete_pending, recover_pending}
use relswap.Install.Recovery.Completes.{named, At-Switched, completed, put_completed}
use relswap.Install.Health.{IsLawfulHost, Verified, At}
use relswap.Install.Health.Frame.{At-make_slot, At-drop_staged, At-make_version_dir}
use relswap.Install.Health.Journaled.{At-clear_pending}
use relswap.Install.Health.Rules.{
  Triple-read, Triple-check, Triple-sync, Triple-ensure_private_dir, Triple-verify,
}
use relswap.Install.Health.Writes.{Triple-write_install, Triple-remove_pending, Triple-sync_parents}

-- Optional versions that the code's `==` does not tell apart are equal.
pub option_eq→eq :
    {V : Type 0} (ext : External V)
    → IsLawful ext
    → (a b : Option V) → option_eq ext a b ≡ true
    → a ≡ b
option_eq→eq ext lawful none none e = refl
option_eq→eq ext lawful none (some b) e = cc
option_eq→eq ext lawful (some a) none e = cc
option_eq→eq ext lawful (some a) (some b) e = ap some (version_eq→eq ext lawful a b e)

module _ {V : Type 0} (P E : Disk → Type 0) (weak : (d : Disk) → P d → E d) where
  Triple-remove_entries :
      ((id : Str) (d : Disk) → P d → P (drop_staged id d))
      → (entries : List (Str × StagedDir)) → Triple {V = V} P (remove_entries entries) (λ _. P) E
  unfolding remove_entries
  Triple-remove_entries k [] = Triple-sync P E weak
  Triple-remove_entries k ((id, dir) ∷ rest) = elim (Bool-cases dir.is_directory) [
    | inl t ↦ rw t (
        Triple-bind _ _
          (Triple-effect (drop_staged id) weak (λ d x. weak (drop_staged id d) (k id d x)) (k id))
          (λ _. Triple-remove_entries k rest))
    | inr f ↦ rw f (Triple-raise _ weak)
  ]

  Triple-cleanup_existing :
      ((d : Disk) → P d → P (make_slot staging_slot d))
      → ((id : Str) (d : Disk) → P d → P (drop_staged id d))
      → (exists : Bool) → Triple {V = V} P (cleanup_existing exists) (λ _. P) E
  unfolding cleanup_existing
  Triple-cleanup_existing make k false = Triple-pure tt (λ d x. x)
  Triple-cleanup_existing make k true =
      Triple-bind _ _ (Triple-ensure_private_dir P E weak staging_slot make) (λ _.
        Triple-bind _ _ (Triple-read P E weak (λ d. ok d.staging))
          (λ entries. Triple-weaken _ (Triple-remove_entries k entries) (λ d x. x.0) (λ _ d x. x)))

  pub Triple-cleanup_staging :
      ((d : Disk) → P d → P (make_slot staging_slot d))
      → ((id : Str) (d : Disk) → P d → P (drop_staged id d))
      → Triple {V = V} P cleanup_staging (λ _. P) E
  unfolding cleanup_staging
  Triple-cleanup_staging make k =
      Triple-bind _ _ (Triple-read P E weak (λ d. ok (dir_exists d.staging_dir))) (λ exists.
        Triple-weaken _ (Triple-cleanup_existing make k exists) (λ d x. x.0) (λ _ d x. x))

module _ {V : Type 0} (h : Host V) where
  -- A disk from which recovery can go on, with this pointer.
  abbrev pub RecoverableAt : Option V → Disk → Type 0
  RecoverableAt pointer d =
      (install : Option (InstallState V)) × (pending : Option (PendingActivation V)) × At h install
        pending pointer d

  -- A healthy disk without a journal, with this pointer.
  abbrev pub Settled : Option V → Disk → Type 0
  Settled pointer d = (install : Option (InstallState V)) × At h install none pointer d

  -- What recovery makes of the state document: it names the pointer's version, or it is the one from
  -- before under a journal whose pointer had not been switched.
  abbrev pub Documented :
      Option (InstallState V)
      → Option (PendingActivation V)
      → Option V
      → Option (InstallState V)
      → Type 0
  Documented before none pointer after = active_of after ≡ pointer
  Documented before (some p) pointer after =
      (active_of after ≡ pointer) ⊎ ((after ≡ before) × (pointer ≡ p.from))

  -- A disk after a complete recovery: no journal, the pointer that was there, and such a document.
  abbrev pub Recovered :
      Option (InstallState V) → Option (PendingActivation V) → Option V → Disk → Type 0
  Recovered before pending pointer d =
      (after : Option (InstallState V)) × At h after none pointer d
      × Documented before pending pointer after

  pub Recovered-Settled :
      (before : Option (InstallState V)) (pending : Option (PendingActivation V))
      (pointer : Option V) (d : Disk)
      → Recovered before pending pointer d
      → Settled pointer d
  Recovered-Settled before pending pointer d x = (x.0, x.1)

  module _ {install : Option (InstallState V)} (pointer : Option V) (p : PendingActivation V) where
    present :
        (d : Disk)
        → At h install (some p) pointer d
        → d.pending ≡ absent
        → At h install none pointer d
    unfolding pending_of read_json
    present d x e = absurd (ground (arith, x.pending_read, e))

    finish :
        (managed : Bool)
        → Triple
            (At h install (some p) pointer)
            (finish_pending h managed)
            (λ _. At h install none pointer)
            (RecoverableAt pointer)
    unfolding finish_pending
    finish managed =
        Triple-bind _ _
          (Triple-remove_pending {Q = At h install none pointer} (λ d x. (install, some p, x))
            (λ d x. (install, none, x)) (λ d x. At-clear_pending h x) present)
          (λ _.
            Triple-bind _ _
              (Triple-fault {Q = λ _. At h install none pointer} h pending_removed
                (λ d x. (install, none, x)) (λ d x. x))
              (λ _. Triple-bind _ _ (Triple-sync_parents _ _ (λ d x. (install, none, x)) h) (λ _.
                Triple-bind _ _
                  (Triple-fault {Q = λ _. At h install none pointer} h parents_synced
                    (λ d x. (install, none, x)) (λ d x. x))
                  (λ _.
                    Triple-bind _ _
                      (Triple-cleanup_staging (At h install none pointer) _
                        (λ d x. (install, none, x)) (λ d x. At-make_slot h x staging_slot)
                        (λ id d x. At-drop_staged h x id))
                      (λ _. Triple-pure managed (λ d x. x))))))

module _ {V : Type 0} (h : Host V) (lawful : IsLawfulHost h) (install : Option (InstallState V))
    (p : PendingActivation V) where
  -- What the verification answered is the state that the disk is known to hold.
  known :
      (s : VersionState V Target) (d : Disk)
      → At h install (some p) (some p.to) d
      → verify_contents h (members_of (lookup (version_name h p.to) d.versions)) (id_of install)
        ≡ ok s
      → Verified h p.to s d
  known s d x e =
      let (t, v, same) = At-Switched h lawful install p d x in
      let f : verify_contents h (members_of (lookup (version_name h p.to) d.versions))
            (id_of install)
          ≡ ok t =
        rw v.found (named h lawful install p t install same v.dir.members v.contents) in
      let g : t ≡ s = ok_same t s (sym f ∙ e) in rw (← g) v
    where
      ok_same :
          (a b : VersionState V Target)
          → ◌≡◌ {A = Result (InstallError V) (VersionState V Target)} (ok a) (ok b)
          → a ≡ b
      ok_same a b e = ground arith

  complete :
      Triple
        (At h install (some p) (some p.to))
        (complete_pending h p install)
        (λ _. Recovered h install (some p) (some p.to))
        (RecoverableAt h (some p.to))
  unfolding complete_pending
  complete =
      Triple-bind _ _
        (Triple-verify h (At h install (some p) (some p.to)) _ (λ d x. (install, some p, x)) p.to
          (id_of install) (λ name d x free. At-make_version_dir h x name free))
        (λ s. Triple-bind _ _ (Triple-check _ _ (λ d x. (install, some p, x.0)) _) (λ u.
          Triple-bind _ _
            (Triple-write_install h
              {Q = At h (some (completed h lawful install p s)) (some p) (some p.to)}
              (completed h lawful install p s) (λ d x. (install, some p, x.0.0))
              (λ d x. (some (completed h lawful install p s), some p, x))
              (λ d valid x. put_completed h lawful install p s d x.0.0 (known s d x.0.0 x.0.1)))
            (λ _.
              Triple-bind _ _
                (Triple-fault
                  {Q = λ _. At h (some (completed h lawful install p s)) (some p) (some p.to)} h
                  install_written (λ d x. (some (completed h lawful install p s), some p, x))
                  (λ d x. x))
                (λ _.
                  Triple-weaken _ (finish h (some p.to) p true) (λ d x. x)
                    (λ _ d x. (some (completed h lawful install p s), x, inl refl))))))

  refused :
      {A : Type 0} (pointer : Option V) (e : InstallError V)
      → Triple {A = A}
          (At h install (some p) pointer)
          (raise e)
          (λ _. Recovered h install (some p) pointer)
          (RecoverableAt h pointer)
  refused pointer e = Triple-raise e (λ d x. (install, some p, x))

  -- The journal is dropped, and the pointer had not been switched.
  dropped :
      (pointer : Option V) (managed : Bool)
      → pointer ≡ p.from
      → Triple
          (At h install (some p) pointer)
          (finish_pending h managed)
          (λ _. Recovered h install (some p) pointer)
          (RecoverableAt h pointer)
  dropped pointer managed same =
      Triple-weaken _ (finish h pointer p managed) (λ d x. x)
        (λ _ d x. (install, x, inr (refl, same)))

  nothing_before : (o : Option V) → is_some o ≡ false → none ≡ o
  nothing_before none e = refl
  nothing_before (some v) e = cc

  -- Recovery from a journal, cut short, leaves it or a recoverable disk without it; complete, it leaves
  -- what `Recovered` says.
  pub recover :
      (pointer : Option V)
      → Triple
          (At h install (some p) pointer)
          (recover_pending h p install pointer)
          (λ _. Recovered h install (some p) pointer)
          (RecoverableAt h pointer)
  unfolding recover_pending
  recover none = elim (Bool-cases (is_some p.from)) [
    | inl t ↦ rw t (refused none _)
    | inr f ↦ rw f (dropped none (is_some install) (nothing_before p.from f))
  ]
  recover (some v) = elim (Bool-cases (version_eq h.ext v p.to)) [
    | inl t ↦ let same = version_eq→eq h.ext lawful.ext_lawful v p.to t in rw t (rw same complete)
    | inr f ↦ elim (Bool-cases (option_eq h.ext (some v) p.from)) [
      | inl t ↦
          rw (f, t)
            (dropped (some v) (is_some install)
              (option_eq→eq h.ext lawful.ext_lawful (some v) p.from t))
      | inr g ↦ rw (f, g) (refused (some v) _)
    ]
  ]
