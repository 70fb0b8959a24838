-- ===== src/Tests/Sessions.antt =====
-- The theorems on sequences of sessions at a disk whose activation was cut short: a recovery that is cut
-- short too, and a rollback.
use relswap.Base.{Option, none, some, [], ◌∷◌}
use relswap.Install.Disk.{Disk, World}
use relswap.Install.Manager.{rollback_to}
use relswap.Install.Recovery.{recover_locked}
use relswap.Install.Recovery.Keeps.{RecoverableAt}
use relswap.Install.Sessions.{
  recovery, rollback_of, recovers, rolls_back, start, next, Traces, Reachable-Traces,
}
use relswap.Tests.Sample.{Version, v1, v2, host, host-IsLawfulHost, hash}
use relswap.Tests.Install.{formats}
use relswap.Tests.Rollback.{switched, At-switched, journal_2, cut_short, quiet}

abbrev rolled_back : Disk
rolled_back = (rollback_to (host formats) v1 quiet).1.disk

abbrev half_recovered : Disk
half_recovered = (recover_locked (host formats) cut_short).1.disk

abbrev later : World
later = record { disk = half_recovered; schedule = []; ids = hash ∷ [] }

abbrev last : Disk
last = (rollback_to (host formats) v1 later).1.disk

Reachable-Traces_example :
    (after : Option Version) × Traces
      (host formats)
      (some v2)
      (rollback_of v1 ∷ recovery ∷ [])
      after
    × RecoverableAt (host formats) after last
Reachable-Traces_example =
    Reachable-Traces (host formats) (host-IsLawfulHost formats) (some v2) switched
      (rollback_of v1 ∷ recovery ∷ []) last (none, some journal_2, At-switched)
      (next (next start (recovers cut_short)) (rolls_back v1 later))
