-- ===== src/Install/Recovery/Completes.antt =====
-- Recovery when no call fails (`recover_locked`, src/install/recovery.rs).
use relswap.Base.{
  Str, Bool, true, false, not, ◌≡◌, ◌≢◌, refl, sym, ◌⊎◌, inl, inr, Option, none, some, List, [], ok,
  reject_if, is_some, Bool-cases, ap, arith, str_eq, str_eq_refl,
}
use relswap.External.{version_eq→eq, version_eq}
use relswap.Release.Target.{Target}
use relswap.Install.State.{
  invalid, InstallState, PendingActivation, VersionState, FaultPoint, state_schema_version,
  option_eq, validate_install_state, validate_pending, install_written, pending_removed,
  parents_synced,
}
use relswap.Install.Host.{Host}
use relswap.Install.Disk.{Disk, World, FileNode, absent, staging_slot, fault_at, ◌>>◌}
use relswap.Install.Disk.Runs.{Runs, Returns, Runs-pure, Runs-fault, Runs-bind, Runs-weaken}
use relswap.Install.Journal.{write_install_state, put_install, pending_of, read_json}
use relswap.Install.Staging.{cleanup_staging}
use relswap.Install.Recovery.{active_of, id_of, finish_pending, complete_pending, recover_pending}
use relswap.Install.Verify.{verify_contents}
use relswap.Install.Verify.Checked.{
  verify_contents-named, verify_contents-Valid, valid_version_state-valid_id,
}
use relswap.Install.Health.{IsLawfulHost, Verified, SameId, Switched, At}
use relswap.Install.Health.Frame.{At-make_slot, At-drop_staged}
use relswap.Install.Health.Journaled.{At-clear_pending, At-put_install}
use relswap.Install.Health.Succeeds.{
  Runs-fact, Runs-checks, Runs-verify, Runs-write_install, Runs-remove_pending, Runs-sync_parents,
  Runs-cleanup_staging,
}
use relswap.Install.Health.Completed.{
  install-real, pending-real, written_valid, validate_pending-from, option_eq-sym, option_eq_refl,
  option_eq-different,
}

module _ {V : Type 0} (h : Host V) (off : (point : FaultPoint) → h.injects point ≡ false) where
  Never : Disk → Type 0
  Never d = ⊥

  module _ {install : Option (InstallState V)} {pointer : Option V} where
    Runs-cleanup :
        {pending : Option (PendingActivation V)}
        → Runs {V = V}
            (At h install pending pointer)
            cleanup_staging
            (λ _. At h install pending pointer)
            Never
    Runs-cleanup =
        Runs-cleanup_staging _ (λ d x. x.laid_out.staging_usable)
          (λ d x. At-make_slot h x staging_slot) (λ d x. x.laid_out.staged)
          (λ id d x. At-drop_staged h x id)

    not_absent :
        (p : PendingActivation V) (d : Disk) → At h install (some p) pointer d → d.pending ≢ absent
    unfolding pending_of read_json
    not_absent p d x e = absurd (ground (arith, x.pending_read, e))

    -- The journal goes, and nothing else changes.
    finish :
        (p : PendingActivation V) (managed : Bool)
        → Runs
            (At h install (some p) pointer)
            (finish_pending h managed)
            (λ b d. At h install none pointer d × (b ≡ managed))
            Never
    unfolding finish_pending
    finish p managed =
        Runs-bind _ _
          (Runs-remove_pending h (λ d x. pending-real h x) (not_absent p)
            (λ d x. At-clear_pending h x))
          (λ _. Runs-bind _ _ (Runs-fault h pending_removed (off _) (λ d x. x)) (λ _.
            Runs-bind _ _ (Runs-sync_parents h) (λ _.
              Runs-bind _ _ (Runs-fault h parents_synced (off _) (λ d x. x))
                (λ _. Runs-bind _ _ Runs-cleanup (λ _. Runs-pure managed (λ d x. (x, refl)))))))

module _ {V : Type 0} (h : Host V) (lawful : IsLawfulHost h) (install : Option (InstallState V))
    (p : PendingActivation V) where
  pub named :
      (s : VersionState V Target) (i : Option (InstallState V))
      → SameId h i s.installation_id
      → (members : List (Str × FileNode)) → verify_contents h members none ≡ ok s
      → verify_contents h members (id_of i) ≡ ok s
  named s none same members e = e
  named s (some i) same members e = verify_contents-named h members s i.installation_id e (sym same)

  pub At-Switched : (d : Disk) → At h install (some p) (some p.to) d → Switched h install p.to d
  At-Switched d x = elim x.agree [
    | inl y ↦ y.1
    | inr y ↦
        let f = validate_pending-from h.ext p x.pending_valid in
        let t : option_eq h.ext p.from (some p.to) ≡ true =
          rw y.0 (option_eq_refl h.ext lawful.ext_lawful p.from) in
        absurd (ground (arith, f, t))
  ]

  abbrev same_id : Option (InstallState V) → VersionState V Target → Bool
  same_id i state = elim i [
    | none ↦ false
    | some i ↦ not (str_eq i.installation_id state.installation_id)
  ]

  same_id_lem :
      (i : Option (InstallState V)) (s : VersionState V Target)
      → SameId h i s.installation_id
      → same_id i s ≡ false
  same_id_lem none s same = refl
  same_id_lem (some i) s same = rw (same, str_eq_refl s.installation_id) refl

  -- What the completed activation writes.
  abbrev pub completed : VersionState V Target → InstallState V
  completed s = record {
    schema_version = state_schema_version;
    active = some p.to;
    previous = p.from;
    installation_id = s.installation_id;
    launcher = none;
  }

  completed_valid :
      (s : VersionState V Target) (d : Disk)
      → Verified h p.to s d
      → validate_pending h.ext p ≡ ok tt
      → validate_install_state h.ext (completed s) ≡ ok tt
  completed_valid s d v e =
      written_valid h.ext p.to p.from s.installation_id
        (valid_version_state-valid_id h v.dir.members s
          (verify_contents-Valid h v.dir.members s none v.contents))
        (option_eq-sym h.ext lawful.ext_lawful p.from (some p.to) (validate_pending-from h.ext p e))

  pub put_completed :
      (s : VersionState V Target) (d : Disk)
      → At h install (some p) (some p.to) d
      → Verified h p.to s d
      → At h (some (completed s)) (some p) (some p.to) (put_install h (completed s) d)
  put_completed s d x v =
      At-put_install h lawful (completed s) (completed_valid s d v x.pending_valid)
        (inl (refl, (s, v, refl))) x

module _ {V : Type 0} (h : Host V) (lawful : IsLawfulHost h)
    (off : (point : FaultPoint) → h.injects point ≡ false) (install : Option (InstallState V))
    (p : PendingActivation V) where
  -- After recovery from the journal `p`: no journal, the pointer that was there, and a state document
  -- that names it, or the one from before where the pointer was not switched.
  abbrev pub Finished : Option V → Disk → Type 0
  Finished pointer d =
      (install' : Option (InstallState V)) × At h install' none pointer d
      × ((active_of install' ≡ pointer) ⊎ ((install' ≡ install) × (pointer ≡ p.from)))

  complete :
      Runs
        (At h install (some p) (some p.to))
        (complete_pending h p install)
        (λ _. Finished (some p.to))
        (Never h off)
  unfolding complete_pending
  complete =
      Runs-bind _ _
        (Runs-verify h {X = λ s d. SameId h install s.installation_id} p.to (id_of install) (λ d x.
          let (s, v, same) = At-Switched h lawful install p d x in
          (s, v, named h lawful install p s install same, same)))
        (λ s.
          Runs-fact
            {X = (same_id h lawful install p install s ≡ false)
              × (validate_install_state h.ext (completed h lawful install p s) ≡ ok tt)}
            _
            (λ d x. (
              same_id_lem h lawful install p install s x.2,
              completed_valid h lawful install p s d x.1 x.0.pending_valid,
            ))
            (λ facts.
              Runs-checks
                (reject_if (same_id h lawful install p install s)
                  (invalid "pending target installation id differs from install.json"))
                tt
                (λ _.
                  write_install_state h (completed h lawful install p s)
                  >> (fault_at h install_written >> finish_pending h true))
                (ap
                  (λ b.
                    reject_if b
                      (invalid "pending target installation id differs from install.json"))
                  facts.0)
                (Runs-bind _ _
                  (Runs-write_install h
                    {Q = At h (some (completed h lawful install p s)) (some p) (some p.to)}
                    (completed h lawful install p s) facts.1 (λ d x. install-real h x.0)
                    (λ d x. put_completed h lawful install p s d x.0 x.1))
                  (λ _. Runs-bind _ _ (Runs-fault h install_written (off _) (λ d x. x)) (λ _.
                    Runs-weaken _ (finish h off p true)
                      (λ b d x. (some (completed h lawful install p s), x.0, inl refl)))))))

  -- The pointer was not switched: the journal is dropped.
  drop :
      (pointer : Option V)
      → pointer ≡ p.from
      → Runs
          (At h install (some p) pointer)
          (finish_pending h (is_some install))
          (λ _. Finished pointer)
          (Never h off)
  drop pointer e =
      Runs-weaken _ (finish h off p (is_some install)) (λ b d x. (install, x.0, inr (refl, e)))

  not_switched :
      (pointer : Option V) (d : Disk)
      → At h install (some p) pointer d
      → (pointer ≡ some p.to → ⊥)
      → pointer ≡ p.from
  not_switched pointer d x other = elim x.agree [ inl y ↦ absurd (other y.0) | inr y ↦ y.0 ]

  recover :
      (pointer : Option V)
      → Runs
          (At h install (some p) pointer)
          (recover_pending h p install pointer)
          (λ _. Finished pointer)
          (Never h off)
  unfolding recover_pending
  recover none =
      Runs-fact {X = none ≡ p.from} _ (λ d x. not_switched none d x (λ e. cc))
        (λ e. let b : is_some p.from ≡ false = rw (← e) refl in rw b (drop none e))
  recover (some v) = elim (Bool-cases (version_eq h.ext v p.to)) [
    | inl t ↦ let same = version_eq→eq h.ext lawful.ext_lawful v p.to t in rw t (rw same complete)
    | inr f ↦
        Runs-fact {X = some v ≡ p.from} _
          (λ d x.
            not_switched (some v) d x
              (λ e. option_eq-different h.ext lawful.ext_lawful (some v) (some p.to) e f))
          (λ e.
            let t : option_eq h.ext (some v) p.from ≡ true =
              rw (← e) (option_eq_refl h.ext lawful.ext_lawful (some v)) in
            rw (f, t) (drop (some v) e))
  ]

  -- When no fault is injected and no call fails, recovery from a journal on a recoverable disk returns a
  -- value and never an error; the journal is gone, the pointer is the one that was there and its version
  -- is verified; the state document names the pointer's version or, where the pointer had not been
  -- switched, is the one from before.
  pub recover_pending-Finished :
      (pointer : Option V) (w : World)
      → w.schedule ≡ []
      → At h install (some p) pointer w.disk
      → Returns (λ _. Finished pointer) (λ d. ⊥) (recover_pending h p install pointer w)
  unfolding Never
  recover_pending-Finished pointer w quiet x = (recover pointer).at w quiet x
