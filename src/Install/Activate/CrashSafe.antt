-- ===== src/Install/Activate/CrashSafe.antt =====
-- An activation that is cut short anywhere leaves a disk from which recovery can go on.
use relswap.Base.{
  Str, ◌≡◌, refl, sym, ◌∙◌, ap, Option, none, some, ◌⊎◌, inl, inr, Result, ok, err, arith,
}
use relswap.Release.Target.{Target}
use relswap.Install.State.{
  InstallError, InstallState, PendingActivation, VersionState, ActivationResult,
  state_schema_version, pending_removed, parents_synced, validate_install_state, validate_pending,
}
use relswap.Install.Host.{Host}
use relswap.Install.Disk.{absent, Disk, World, fault_at, pure, ◌>>◌}
use relswap.Install.Disk.Triple.{Ends, Triple, Triple-pure, Triple-fault, Triple-bind}
use relswap.Install.Journal.{put_pending, put_install, clear_pending, pending_of, read_json}
use relswap.Install.Pointer.{point_to}
use relswap.Install.Staging.{drop_staged, remove_transaction_after_rename}
use relswap.Install.Activate.{activate_pointer_and_state, sync_affected_parents, id_or}
use relswap.Install.Recovery.Keeps.{RecoverableAt}
use relswap.Install.Health.{IsLawfulHost, Verified, Switched, SameId, At, Recoverable}
use relswap.Install.Health.Frame.{Verified-same, At-drop_staged}
use relswap.Install.Health.Journaled.{At-put_pending, At-point_to, At-put_install, At-clear_pending}
use relswap.Install.Health.Rules.{Triple-random_id}
use relswap.Install.Health.Writes.{
  Triple-write_pending, Triple-write_install, Triple-switch_pointer, Triple-remove_pending,
  Triple-remove_after_rename, Triple-sync_parents, Triple-self_test,
}

module _ {V : Type 0} (h : Host V) where
  -- The version that is about to be activated is in place and belongs to the installation `id`.
  pub record IsPrepared (to : V) (id : Str) (d : Disk) : Type 0 where
    pub state : VersionState V Target
    pub verified : Verified h to state d
    pub owned : state.installation_id ≡ id

  pub IsPrepared-same :
      {to : V} {id : Str} {d : Disk} (e : Disk)
      → d.versions ≡ e.versions
      → IsPrepared to id d
      → IsPrepared to id e
  IsPrepared-same {to} {id} {d} e same x = record {
    state = x.state;
    verified = Verified-same h to x.state d e same x.verified;
    owned = x.owned;
  }

  IsPrepared-Switched :
      {to : V} {id : Str} {d : Disk} (install : Option (InstallState V))
      → SameId h install id
      → IsPrepared to id d
      → Switched h install to d
  IsPrepared-Switched none same x = (x.state, x.verified, tt)
  IsPrepared-Switched (some i) same x = (x.state, x.verified, same ∙ sym x.owned)

same_versions : (i : Str) (d : Disk) → d.versions ≡ (drop_staged i d).versions
unfolding drop_staged
same_versions i d = refl

-- A disk from which recovery can go on, whose pointer is the one before the activation or the new one.
abbrev pub Between : {V : Type 0} → Host V → Option V → V → Disk → Type 0
Between h from to d = RecoverableAt h from d ⊎ RecoverableAt h (some to) d

-- After a complete activation: no journal, the pointer at the new version, and a state document that names
-- it and, as the previous version, the one before.
abbrev pub NowAt : {V : Type 0} → Host V → Option V → V → Disk → Type 0
NowAt {V} h from to d =
    (i : InstallState V) × At h (some i) none (some to) d
    × (i.active ≡ some to)
    × (i.previous ≡ from)

-- The steps of an activation from `from` to `to`, from a disk without a journal.
module _ {V : Type 0} (h : Host V) (lawful : IsLawfulHost h) (install : Option (InstallState V))
    (from : Option V) (to : V) (id : Str) (same : SameId h install id) where
  abbrev journal : Option Str → Str → PendingActivation V
  journal transaction_id fresh = record {
    schema_version = state_schema_version;
    from = from;
    to = to;
    transaction_id = id_or h transaction_id fresh;
  }

  abbrev outcome : InstallState V
  outcome = record {
    schema_version = state_schema_version;
    active = some to;
    previous = from;
    installation_id = id;
    launcher = none;
  }

  abbrev pub Ready : Disk → Type 0
  Ready d = At h install none from d × IsPrepared h to id d

  abbrev Journaled : PendingActivation V → Disk → Type 0
  Journaled p d = At h install (some p) from d × IsPrepared h to id d

  abbrev SwitchedOver : PendingActivation V → Disk → Type 0
  SwitchedOver p d = At h install (some p) (some to) d × IsPrepared h to id d

  abbrev Recorded : PendingActivation V → Disk → Type 0
  Recorded p d = At h (some outcome) (some p) (some to) d × IsPrepared h to id d

  -- The state after a complete activation.
  abbrev pub Activated : Disk → Type 0
  Activated d = At h (some outcome) none (some to) d × IsPrepared h to id d

  journaled :
      (p : PendingActivation V) (d : Disk)
      → p.from ≡ from
      → validate_pending h.ext p ≡ ok tt
      → Ready d
      → Journaled p (put_pending h p d)
  unfolding put_pending
  journaled p d e valid x =
      (At-put_pending h lawful p valid (sym e) x.0, IsPrepared-same h (put_pending h p d) refl x.1)

  switched_over :
      (p : PendingActivation V) (d : Disk)
      → p.to ≡ to
      → Journaled p d
      → SwitchedOver p (point_to h to d)
  unfolding point_to
  switched_over p d e x = (
    rw (← e) (At-point_to h lawful p (rw e (IsPrepared-Switched h install same x.1)) x.0),
    IsPrepared-same h (point_to h to d) refl x.1,
  )

  recorded :
      (p : PendingActivation V) (d : Disk)
      → p.to ≡ to
      → validate_install_state h.ext outcome ≡ ok tt
      → SwitchedOver p d
      → Recorded p (put_install h outcome d)
  unfolding put_install
  recorded p d e valid x = (
    At-put_install h lawful outcome valid
        (inl (ap some (sym e), rw e (IsPrepared-Switched h (some outcome) refl x.1))) x.0,
    IsPrepared-same h (put_install h outcome d) refl x.1,
  )

  activated : (p : PendingActivation V) (d : Disk) → Recorded p d → Activated (clear_pending d)
  unfolding clear_pending
  activated p d x = (At-clear_pending h x.0, IsPrepared-same h (clear_pending d) refl x.1)

  not_absent :
      (p : PendingActivation V) (d : Disk) → Recorded p d → d.pending ≡ absent → Activated d
  unfolding pending_of read_json
  not_absent p d x e = absurd (ground (arith, x.0.pending_read, e))

  weak_Ready : (d : Disk) → Ready d → Between h from to d
  weak_Ready d x = inl (install, none, x.0)

  weak_Journaled : (p : PendingActivation V) (d : Disk) → Journaled p d → Between h from to d
  weak_Journaled p d x = inl (install, some p, x.0)

  weak_SwitchedOver : (p : PendingActivation V) (d : Disk) → SwitchedOver p d → Between h from to d
  weak_SwitchedOver p d x = inr (install, some p, x.0)

  weak_Recorded : (p : PendingActivation V) (d : Disk) → Recorded p d → Between h from to d
  weak_Recorded p d x = inr (some outcome, some p, x.0)

  weak_Activated : (d : Disk) → Activated d → Between h from to d
  weak_Activated d x = inr (some outcome, none, x.0)

  -- The steps after the journal is gone.
  ends :
      (transaction : Option Str) (result : ActivationResult V)
      → Triple Activated
          (fault_at h pending_removed
            >> (remove_transaction_after_rename transaction
                >> (sync_affected_parents h >> (fault_at h parents_synced >> pure result))))
          (λ _. Activated)
          (Between h from to)
  ends transaction result =
      Triple-bind _ _ (Triple-fault {Q = λ _. Activated} h _ weak_Activated (λ d x. x)) (λ _.
        Triple-bind _ _
          (Triple-remove_after_rename Activated (Between h from to) weak_Activated
            (λ i d x.
              (At-drop_staged h x.0 i, IsPrepared-same h (drop_staged i d) (same_versions i d) x.1))
            transaction)
          (λ _.
            Triple-bind _ _ (Triple-sync_parents Activated (Between h from to) weak_Activated h)
              (λ _.
                Triple-bind _ _ (Triple-fault {Q = λ _. Activated} h _ weak_Activated (λ d x. x))
                  (λ _. Triple-pure result (λ d x. x)))))

  pub activate-Between_from :
      (transaction_id transaction : Option Str)
      → Triple Ready
          (activate_pointer_and_state h from to id transaction_id transaction)
          (λ _. Activated)
          (Between h from to)
  unfolding activate_pointer_and_state
  activate-Between_from transaction_id transaction =
      Triple-bind _ _ (Triple-self_test Ready (Between h from to) weak_Ready h _ to) (λ _.
        Triple-bind _ _ (Triple-fault {Q = λ _. Ready} h _ weak_Ready (λ d x. x)) (λ _.
          Triple-bind _ _ (Triple-random_id Ready (Between h from to) weak_Ready) (λ fresh.
            let p = journal transaction_id fresh in
            Triple-bind _ _
              (Triple-write_pending h {Q = Journaled p} p weak_Ready (weak_Journaled p)
                (λ d valid x. journaled p d refl valid x))
              (λ _.
                Triple-bind _ _
                  (Triple-fault {Q = λ _. Journaled p} h _ (weak_Journaled p) (λ d x. x))
                  (λ _.
                    Triple-bind _ _
                      (Triple-switch_pointer h {Q = SwitchedOver p} to (weak_Journaled p)
                        (weak_SwitchedOver p) (λ d x. switched_over p d refl x))
                      (λ _.
                        Triple-bind _ _
                          (Triple-fault {Q = λ _. SwitchedOver p} h _ (weak_SwitchedOver p)
                            (λ d x. x))
                          (λ _.
                            Triple-bind _ _
                              (Triple-write_install h {Q = Recorded p} outcome (weak_SwitchedOver p)
                                (weak_Recorded p) (λ d valid x. recorded p d refl valid x))
                              (λ _.
                                Triple-bind _ _
                                  (Triple-fault {Q = λ _. Recorded p} h _ (weak_Recorded p)
                                    (λ d x. x))
                                  (λ _.
                                    Triple-bind _ _
                                      (Triple-remove_pending {Q = Activated} (weak_Recorded p)
                                        weak_Activated (activated p) (not_absent p))
                                      (λ _. ends transaction _))))))))))

  -- From a disk that holds an installation without a journal, whose pointer's version is verified, and the
  -- verified version `to` of that installation, an activation ends complete (the pointer at `to`, the state document naming it, no
  -- journal) or leaves a disk from which recovery can go on, whichever call fails, before or after its
  -- effect, and whatever the fault injector answers.
  pub activate-Recoverable :
      (transaction_id transaction : Option Str) (w : World)
      → Ready w.disk
      → Ends
          (λ _. Activated)
          (Recoverable h)
          (activate_pointer_and_state h from to id transaction_id transaction w)
  activate-Recoverable transaction_id transaction w x =
      let (r, w') = activate_pointer_and_state h from to id transaction_id transaction w in
      relax r w' ((activate-Between_from transaction_id transaction).at w x)
    where
      relax :
          (r : Result (InstallError V) (ActivationResult V)) (w' : World)
          → Ends (λ _. Activated) (Between h from to) (r, w')
          → Ends (λ _. Activated) (Recoverable h) (r, w')
      relax (ok a) w' y = y
      relax (err e) w' (inl (i, p, y)) = (i, p, from, y)
      relax (err e) w' (inr (i, p, y)) = (i, p, some to, y)
