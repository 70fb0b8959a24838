-- ===== src/Install/Activate/Updated.antt =====
-- The whole of `update` (src/install/activation.rs): recovery, the comparison with the current version and
-- the activation of a newer one, cut short anywhere or complete.
use relswap.Base.{
  Bool, true, false, ◌≡◌, refl, sym, Option, none, some, ◌⊎◌, inl, inr, Result, ok, map_err,
  Bool-cases,
}
use relswap.External.{External, IsLawful, version_lt, version_eq}
use relswap.Release.Error.{ReleaseError}
use relswap.Release.Manifest.{ReleaseManifest}
use relswap.Install.State.{InstallState, PendingActivation, release}
use relswap.Install.Host.{Host}
use relswap.Install.Disk.{Disk, World, lift, ◌>>=◌}
use relswap.Install.Disk.Triple.{
  Ends, Triple, Triple-pure, Triple-raise, Triple-bind, Triple-weaken, Triple-relax,
}
use relswap.Install.Verify.{ReleaseMetadata}
use relswap.Install.Activate.{require_managed_current}
use relswap.Install.Manager.{DownloadedArchive, update_to, update}
use relswap.Install.Recovery.Keeps.{RecoverableAt, Settled}
use relswap.Install.Recovery.Managed.{recover_if_managed-Settled}
use relswap.Install.Health.{IsLawfulHost, At}
use relswap.Install.Health.Rules.{Triple-fact}
use relswap.Install.Activate.CrashSafe.{Between, NowAt}
use relswap.Install.Activate.RolledBack.{managed}
use relswap.Install.Activate.Written.{Triple-test}
use relswap.Install.Activate.Landed.{activate_download-Landed}
use mathlib.Core.Path.{subst}
use Prim.Native.Nat.{Ordering}

-- The order of versions, where neither of two tests holds.
newer_of :
    {V : Type 0} (ext : External V)
    → IsLawful ext
    → (version current : V) → version_lt ext version current ≡ false
    → version_eq ext version current ≡ false
    → ext.version_cmp current version ≡ Ordering.lt
newer_of ext lawful version current a b =
    (lawful.cmp_flip current version).1 (greater (ext.version_cmp version current) a b)
  where
    greater :
        (o : Ordering)
        → (elim o [ Ordering.lt ↦ true | _ ↦ false ]) ≡ false
        → (elim o [ Ordering.eq ↦ true | _ ↦ false ]) ≡ false
        → o ≡ Ordering.gt
    greater Ordering.lt a b = cc
    greater Ordering.eq a b = cc
    greater Ordering.gt a b = refl

module _ {V : Type 0} (h : Host V) (lawful : IsLawfulHost h)
    (same_manifest : ReleaseManifest V → ReleaseManifest V → Bool) (metadata : ReleaseMetadata V)
    (download : ReleaseMetadata V → Result ReleaseError DownloadedArchive) where
  -- The version is newer than the pointer's.
  abbrev pub IsNewer : Option V → Type 0
  IsNewer pointer =
      (current : V) × (pointer ≡ some current)
      × (h.ext.version_cmp current metadata.version ≡ Ordering.lt)

  -- The pointer is where it was, or the version is newer, the pointer is at it and the state document says
  -- so.
  abbrev pub Updated : Option V → Disk → Type 0
  Updated pointer d = Settled h pointer d ⊎ (IsNewer pointer × NowAt h pointer metadata.version d)

  abbrev pub Interrupted : Option V → Disk → Type 0
  Interrupted pointer d =
      RecoverableAt h pointer d ⊎ (IsNewer pointer × RecoverableAt h (some metadata.version) d)

  raised :
      (pointer : Option V) (d : Disk)
      → IsNewer pointer
      → Between h pointer metadata.version d
      → Interrupted pointer d
  raised pointer d newer (inl x) = inl x
  raised pointer d newer (inr x) = inr (newer, x)

  landed :
      (pointer : Option V) (d : Disk)
      → IsNewer pointer
      → (Settled h pointer d ⊎ NowAt h pointer metadata.version d)
      → Updated pointer d
  landed pointer d newer (inl x) = inl x
  landed pointer d newer (inr x) = inr (newer, x)

  module _ (install : Option (InstallState V)) (current : V) where
    abbrev Here : Disk → Type 0
    Here = At h install none (some current)

    here : (d : Disk) → Here d → Interrupted (some current) d
    here d x = inl (install, none, x)

    compared :
        Triple Here
          (update_to h same_manifest metadata download current)
          (λ _. Updated (some current))
          (Interrupted (some current))
    unfolding update_to
    compared = elim (Bool-cases (version_lt h.ext metadata.version current)) [
      | inl t ↦ rw t (Triple-raise _ here)
      | inr f ↦ elim (Bool-cases (version_eq h.ext metadata.version current)) [
        | inl t ↦ rw (f, t) (Triple-pure _ (λ d x. inl (install, x)))
        | inr g ↦
            let newer : IsNewer (some current) =
              (current, refl, newer_of h.ext lawful.ext_lawful metadata.version current f g) in
            rw (f, g)
              (Triple-bind _ _ (Triple-test Here _ here (map_err release (download metadata)))
                (λ archive.
                  Triple-weaken _
                    (Triple-relax _
                      (activate_download-Landed h lawful metadata.version same_manifest metadata
                        archive install (some current))
                      (λ d x. raised (some current) d newer x))
                    (λ d x. x) (λ _ d x. landed (some current) d newer x)))
      ]
    ]

  module _ (pointer : Option V) where
    settled :
        (install : Option (InstallState V))
        → Triple
            (At h install none pointer)
            (require_managed_current h >>= λ current. lift (map_err release (ok metadata)) >>= λ m.
              update_to h same_manifest m download current)
            (λ _. Updated pointer)
            (Interrupted pointer)
    unfolding ◌>>=◌
    settled install =
        let start : (d : Disk) → At h install none pointer d → Interrupted pointer d =
          λ d x. inl (install, none, x) in
        Triple-bind _ _ (managed h (Interrupted pointer) install pointer start) (λ current.
          Triple-fact _ (λ d x. x.1)
            (λ is.
              Triple-weaken _
                (subst
                  (λ o.
                    Triple (At h install none o)
                      (update_to h same_manifest metadata download current) (λ _. Updated o)
                      (Interrupted o))
                  (sym is) (compared install current))
                (λ d x. x.0) (λ _ d x. x)))

    resumed :
        Triple
          (Settled h pointer)
          (require_managed_current h >>= λ current. lift (map_err release (ok metadata)) >>= λ m.
            update_to h same_manifest m download current)
          (λ _. Updated pointer)
          (Interrupted pointer)
    resumed = record { at = λ w x. (settled x.0).at w x.1 }

    whole :
        (install : Option (InstallState V)) (pending : Option (PendingActivation V))
        → Triple
            (At h install pending pointer)
            (update h same_manifest (ok metadata) download)
            (λ _. Updated pointer)
            (Interrupted pointer)
    unfolding update
    whole install pending =
        Triple-bind _ _
          (Triple-relax _ (recover_if_managed-Settled h lawful install pending pointer)
            (λ d x. inl x))
          (λ _. resumed)

  -- An update is atomic and never downgrades: from every disk that a crash can leave, whatever the downloader answers and whichever call fails, it ends without a journal or it
  -- leaves a disk from which recovery can go on, and the pointer is where it was, or at the resolved version,
  -- which is then newer and which, where the update ended, the state document names.
  pub update-Updated :
      (pointer : Option V) (w : World)
      → RecoverableAt h pointer w.disk
      → Ends
          (λ _. Updated pointer)
          (Interrupted pointer)
          (update h same_manifest (ok metadata) download w)
  update-Updated pointer w (install, pending, x) = (whole pointer install pending).at w x
