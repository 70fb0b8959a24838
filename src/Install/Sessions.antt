-- ===== src/Install/Sessions.antt =====
-- Sequences of sessions of an installation (recoveries, rollbacks and updates of src/install, each cut
-- short anywhere or complete), against an abstract machine whose state is the active version alone.
use relswap.Base.{◌≡◌, Bool, Option, none, some, List, [], ◌∷◌, inl, inr, Result, ok, err}
use relswap.Release.Error.{ReleaseError}
use relswap.Release.Manifest.{ReleaseManifest}
use relswap.Install.State.{InstallError}
use relswap.Install.Host.{Host}
use relswap.Install.Disk.{Disk, World}
use relswap.Install.Disk.Triple.{Ends}
use relswap.Install.Verify.{ReleaseMetadata}
use relswap.Install.Manager.{DownloadedArchive, rollback_to, update}
use relswap.Install.Recovery.{recover_locked}
use relswap.Install.Recovery.Keeps.{RecoverableAt, Settled, Recovered-Settled}
use relswap.Install.Activate.CrashSafe.{NowAt}
use relswap.Install.Recovery.Locked.{recover_locked-Recovered}
use relswap.Install.Activate.RolledBack.{IsOlder, Halfway, rollback_to-RolledBack}
use relswap.Install.Activate.Updated.{IsNewer, Updated, Interrupted, update-Updated}
use relswap.Install.Health.{IsLawfulHost}
use Prim.Native.Nat.{Ordering}

-- What a session is asked to do. An update carries the release that the downloader resolved.
pub data Request (V : Type 0) : Type 0 where
  recovery : Request V
  rollback_of : V → Request V
  update_of : ReleaseMetadata V → Request V

-- The abstract machine, whose state is the active version: every request may leave it alone, only the
-- request of a rollback goes back, to the version that it names and only from a newer one, and only the
-- request of an update goes on, to the version that was resolved and only from an older one.
pub data Moves {V : Type 0} (h : Host V) : Request V → Option V → Option V → Type 0 where
  stays : (r : Request V) (before : Option V) → Moves h r before before
  goes_back :
      (current target : V)
      → h.ext.version_cmp target current ≡ Ordering.lt
      → Moves h (rollback_of target) (some current) (some target)
  advances :
      (current : V) (metadata : ReleaseMetadata V)
      → h.ext.version_cmp current metadata.version ≡ Ordering.lt
      → Moves h (update_of metadata) (some current) (some metadata.version)

-- One session, from the disk before to the disk after, under any schedule of failures.
pub data Session {V : Type 0} (h : Host V) : Request V → Disk → Disk → Type 0 where
  recovers : (w : World) → Session h recovery w.disk (recover_locked h w).1.disk
  rolls_back :
      (target : V) (w : World)
      → Session h (rollback_of target) w.disk (rollback_to h target w).1.disk
  updates :
      (same_manifest : ReleaseManifest V → ReleaseManifest V → Bool) (metadata : ReleaseMetadata V)
      (download : ReleaseMetadata V → Result ReleaseError DownloadedArchive) (w : World)
      → Session h
          (update_of metadata)
          w.disk
          (update h same_manifest (ok metadata) download w).1.disk

-- Sessions one after the other, the last request first.
pub data Reachable {V : Type 0} (h : Host V) (before : Disk)
    : List (Request V) → Disk → Type 0 where
  start : Reachable h before [] before
  next :
      {requests : List (Request V)} {r : Request V} {d e : Disk}
      → Reachable h before requests d
      → Session h r d e
      → Reachable h before (r ∷ requests) e

-- The abstract machine on the same requests.
pub data Traces {V : Type 0} (h : Host V) (before : Option V)
    : List (Request V) → Option V → Type 0 where
  unmoved : Traces h before [] before
  moved :
      {requests : List (Request V)} {r : Request V} {p q : Option V}
      → Traces h before requests p
      → Moves h r p q
      → Traces h before (r ∷ requests) q

-- What holds of the disk however an action ended.
either_end :
    {V A : Type 0} (Q : A → Disk → Type 0) (E R : Disk → Type 0)
    (o : Result (InstallError V) A × World)
    → ((a : A) (d : Disk) → Q a d → R d)
    → ((d : Disk) → E d → R d)
    → Ends Q E o
    → R o.1.disk
either_end Q E R (ok a, w) q e x = q a w.disk x
either_end Q E R (err x, w) q e y = e w.disk y

module _ {V : Type 0} (h : Host V) (lawful : IsLawfulHost h) where
  -- The disk is recoverable, at a version that the abstract machine can go to on this request.
  abbrev pub Simulates : Request V → Option V → Disk → Type 0
  Simulates r before d = (after : Option V) × Moves h r before after × RecoverableAt h after d

  kept :
      (r : Request V) (pointer : Option V) (d : Disk)
      → RecoverableAt h pointer d
      → Simulates r pointer d
  kept r pointer d x = (pointer, stays r pointer, x)

  calm : (pointer : Option V) (d : Disk) → Settled h pointer d → RecoverableAt h pointer d
  calm pointer d x = (x.0, none, x.1)

  now :
      (pointer : Option V) (to : V) (d : Disk) → NowAt h pointer to d → RecoverableAt h (some to) d
  now pointer to d (i, x, _, _) = (some i, none, x)

  lowered :
      (target : V) (pointer : Option V) (d : Disk)
      → IsOlder h lawful target pointer
      → RecoverableAt h (some target) d
      → Simulates (rollback_of target) pointer d
  lowered target pointer d (current, is, older) x =
      (some target, rw is (goes_back current target older), x)

  back :
      (target : V) (pointer : Option V) (d : Disk)
      → Halfway h lawful target pointer d
      → Simulates (rollback_of target) pointer d
  back target pointer d (inl x) = kept (rollback_of target) pointer d x
  back target pointer d (inr (older, x)) = lowered target pointer d older x

  module _ (same_manifest : ReleaseManifest V → ReleaseManifest V → Bool)
      (metadata : ReleaseMetadata V)
      (download : ReleaseMetadata V → Result ReleaseError DownloadedArchive) (pointer : Option V)
      (d : Disk) where
    raised :
        IsNewer h lawful same_manifest metadata download pointer
        → RecoverableAt h (some metadata.version) d
        → Simulates (update_of metadata) pointer d
    raised (current, is, newer) x =
        (some metadata.version, rw is (advances current metadata newer), x)

    interrupted :
        Interrupted h lawful same_manifest metadata download pointer d
        → Simulates (update_of metadata) pointer d
    interrupted (inl x) = kept (update_of metadata) pointer d x
    interrupted (inr (newer, x)) = raised newer x

    updated :
        Updated h lawful same_manifest metadata download pointer d
        → Simulates (update_of metadata) pointer d
    updated (inl x) = kept (update_of metadata) pointer d (calm pointer d x)
    updated (inr (newer, x)) = raised newer (now pointer metadata.version d x)

  pub Session-Simulates :
      (pointer : Option V) (r : Request V) (d e : Disk)
      → Session h r d e
      → RecoverableAt h pointer d
      → Simulates r pointer e
  Session-Simulates pointer r d e (recovers w) (install, pending, x) =
      either_end _ _ (Simulates recovery pointer) (recover_locked h w)
        (λ _ f y.
          kept recovery pointer f
            (calm pointer f (Recovered-Settled h install pending pointer f y)))
        (λ f y. kept recovery pointer f y)
        (recover_locked-Recovered h lawful install pending pointer w x)
  Session-Simulates pointer r d e (rolls_back target w) x =
      either_end _ _ (Simulates (rollback_of target) pointer) (rollback_to h target w)
        (λ _ f y. lowered target pointer f y.0 (now pointer target f y.1))
        (λ f y. back target pointer f y) (rollback_to-RolledBack h lawful target pointer w x)
  Session-Simulates pointer r d e (updates same metadata download w) x =
      either_end _ _ (Simulates (update_of metadata) pointer)
        (update h same (ok metadata) download w)
        (λ _ f y. updated same metadata download pointer f y)
        (λ f y. interrupted same metadata download pointer f y)
        (update-Updated h lawful same metadata download pointer w x)

  -- After any sequence of sessions, each cut short anywhere or complete, the disk is one from which
  -- recovery can go on, and the active version is one that the abstract machine reaches on the same
  -- requests in the same order.
  pub Reachable-Traces :
      (pointer : Option V) (d : Disk) (requests : List (Request V)) (e : Disk)
      → RecoverableAt h pointer d
      → Reachable h d requests e
      → (after : Option V) × Traces h pointer requests after × RecoverableAt h after e
  Reachable-Traces pointer d requests e x start = (pointer, unmoved, x)
  Reachable-Traces pointer d requests e x (next {requests = earlier} {r} {d = middle} path step) =
      let (at, trace, y) = Reachable-Traces pointer d earlier middle x path in
      let (after, move, z) = Session-Simulates at r middle e step y in (after, moved trace move, z)
