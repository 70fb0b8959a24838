-- ===== src/Install/Health/Frame.antt =====
-- What each change of the disk keeps of `Verified` and `At`.
use relswap.Base.{
  Str, true, false, ◌≡◌, refl, ◌⊎◌, inl, inr, Option, none, some, List, [], ◌∷◌, arith, str_eq_iff,
  lookup, erase, lookup-insert, all,
}
use relswap.Release.Target.{Target}
use relswap.Install.State.{InstallState, PendingActivation, VersionState}
use relswap.Install.Host.{Host, version_name}
use relswap.Install.Disk.{
  DirState, missing, directory, not_directory, StagedDir, Disk, Slot, root_slot, versions_slot,
  staging_slot, make_slot, make_version_dir,
}
use relswap.Install.Staging.{drop_staged}
use relswap.Install.Health.{Usable, IsLaidOut, Verified, Standing, Agree, At}

all-erase :
    (id : Str) (l : List (Str × StagedDir))
    → all (λ (e : Str × StagedDir). e.1.is_directory) l ≡ true
    → all (λ (e : Str × StagedDir). e.1.is_directory) (erase id l) ≡ true
all-erase id [] h = refl
all-erase id ((j, dir) ∷ l) h = ground (arith, all-erase id l)

Usable-private : (s : DirState) → Usable s → (s ≡ missing) ⊎ (s ≡ directory true)
Usable-private missing u = inl refl
Usable-private (directory true) u = inr refl
Usable-private (directory false) u = absurd u
Usable-private not_directory u = absurd u

module _ {V : Type 0} (h : Host V) where
  -- Only the entries of `versions` matter to a verified version.
  pub Verified-same :
      (v : V) (s : VersionState V Target) (d e : Disk)
      → d.versions ≡ e.versions
      → Verified h v s d
      → Verified h v s e
  Verified-same v s d e same x = record {
    dir = x.dir;
    found = rw (← same) x.found;
    real = x.real;
    hidden = x.hidden;
    contents = x.contents;
    named = x.named;
  }

  -- A directory that is made under a free name hides no version.
  Verified-make :
      (v : V) (s : VersionState V Target) (name : Str) (d : Disk)
      → lookup name d.versions ≡ none
      → Verified h v s d
      → Verified h v s (make_version_dir name d)
  unfolding make_version_dir
  Verified-make v s name d free x = record {
    dir = x.dir;
    found = rw lookup-insert (ground (arith, str_eq_iff name (version_name h v), free, x.found));
    real = x.real;
    hidden = x.hidden;
    contents = x.contents;
    named = x.named;
  }

  module _ (install : Option (InstallState V)) where
    Standing-map :
        (pointer : Option V) (d e : Disk)
        → ((v : V) (s : VersionState V Target) → Verified h v s d → Verified h v s e)
        → Standing h install pointer d
        → Standing h install pointer e
    Standing-map none d e k x = x
    Standing-map (some v) d e k (s, x) = (s, k v s x)

  pub Agree-map :
      (install : Option (InstallState V)) (pending : Option (PendingActivation V))
      (pointer : Option V) (d e : Disk)
      → ((v : V) (s : VersionState V Target) → Verified h v s d → Verified h v s e)
      → Agree h install pending pointer d
      → Agree h install pending pointer e
  Agree-map install none pointer d e k x = Standing-map install pointer d e k x
  Agree-map install (some p) pointer d e k (inl (same, (s, x, id))) =
      inl (same, (s, k p.to s x, id))
  Agree-map install (some p) pointer d e k (inr (same, x)) =
      inr (same, Standing-map install pointer d e k x)

  module _ {install : Option (InstallState V)} {pending : Option (PendingActivation V)}
      {pointer : Option V} {d : Disk} (x : At h install pending pointer d) where
    -- Nothing that the state is read from has changed.
    pub At-same :
        (e : Disk)
        → d.install ≡ e.install
        → d.pending ≡ e.pending
        → d.command ≡ e.command
        → d.versions ≡ e.versions
        → IsLaidOut e
        → At h install pending pointer e
    At-same e i p c v l = record {
      laid_out = l;
      install_read = rw (← i) x.install_read;
      install_valid = x.install_valid;
      pending_read = rw (← p) x.pending_read;
      pending_valid = x.pending_valid;
      pointer_read = rw (← c) x.pointer_read;
      agree = Agree-map install pending pointer d e (λ w s. Verified-same w s d e v) x.agree;
    }

    pub At-drop_staged : (id : Str) → At h install pending pointer (drop_staged id d)
    unfolding drop_staged
    At-drop_staged id = At-same (drop_staged id d) refl refl refl refl (record {
      root_usable = x.laid_out.root_usable;
      versions_usable = x.laid_out.versions_usable;
      staging_usable = x.laid_out.staging_usable;
      staged = all-erase id d.staging x.laid_out.staged;
    })

    pub At-make_version_dir :
        (name : Str)
        → lookup name d.versions ≡ none
        → At h install pending pointer (make_version_dir name d)
    unfolding make_version_dir
    At-make_version_dir name free = record {
      laid_out = record {
        root_usable = ground (arith, x.laid_out.root_usable);
        versions_usable = ground (arith, Usable-private d.versions_dir x.laid_out.versions_usable);
        staging_usable = x.laid_out.staging_usable;
        staged = x.laid_out.staged;
      };
      install_read = x.install_read;
      install_valid = x.install_valid;
      pending_read = x.pending_read;
      pending_valid = x.pending_valid;
      pointer_read = x.pointer_read;
      agree =
          Agree-map install pending pointer d (make_version_dir name d)
            (λ v s. Verified-make v s name d free) x.agree;
    }

    pub At-make_slot : (slot : Slot) → At h install pending pointer (make_slot slot d)
    unfolding make_slot
    At-make_slot root_slot = At-same (make_slot root_slot d) refl refl refl refl (record {
      root_usable = refl;
      versions_usable = x.laid_out.versions_usable;
      staging_usable = x.laid_out.staging_usable;
      staged = x.laid_out.staged;
    })
    At-make_slot versions_slot = At-same (make_slot versions_slot d) refl refl refl refl (record {
      root_usable = ground (arith, x.laid_out.root_usable);
      versions_usable = tt;
      staging_usable = x.laid_out.staging_usable;
      staged = x.laid_out.staged;
    })
    At-make_slot staging_slot = At-same (make_slot staging_slot d) refl refl refl refl (record {
      root_usable = ground (arith, x.laid_out.root_usable);
      versions_usable = x.laid_out.versions_usable;
      staging_usable = tt;
      staged = x.laid_out.staged;
    })
