-- ===== src/Install/Health/Journaled.antt =====
-- What each durable write of an activation does to `At`: the journal, the pointer, the state document
-- and the removal of the journal.
use relswap.Base.{◌≡◌, refl, inl, inr, Option, none, some, ok}
use relswap.Install.State.{
  InstallState, PendingActivation, validate_install_state, validate_pending,
}
use relswap.Install.Host.{Host}
use relswap.Install.Disk.{Disk}
use relswap.Install.Journal.{put_install, put_pending, clear_pending, pending_of, read_json}
use relswap.Install.Pointer.{point_to}
use relswap.Install.Health.{IsLawfulHost, Standing, Switched, Agree, At}
use relswap.Install.Health.Frame.{Verified-same, Agree-map}
use relswap.Install.Health.Documents.{
  install_of-install_bytes, pending_of-pending_bytes, pointer_of-payload_path,
}

module _ {V : Type 0} (h : Host V) where
  -- Whatever the journal says, the version that the pointer names is intact.
  pub Agree-Standing :
      (install : Option (InstallState V)) (pending : Option (PendingActivation V))
      (pointer : Option V) (d : Disk)
      → Agree h install pending pointer d
      → Standing h install pointer d
  Agree-Standing install none pointer d x = x
  Agree-Standing install (some p) pointer d (inl (same, (s, x, id))) = rw same (s, x)
  Agree-Standing install (some p) pointer d (inr (same, x)) = x

  pub At-clear_pending :
      {install : Option (InstallState V)} {pending : Option (PendingActivation V)}
      {pointer : Option V} {d : Disk}
      → At h install pending pointer d
      → At h install none pointer (clear_pending d)
  unfolding clear_pending pending_of read_json
  At-clear_pending {install} {pending} {pointer} {d} x = record {
    laid_out = record {
      root_usable = x.laid_out.root_usable;
      versions_usable = x.laid_out.versions_usable;
      staging_usable = x.laid_out.staging_usable;
      staged = x.laid_out.staged;
    };
    install_read = x.install_read;
    install_valid = x.install_valid;
    pending_read = refl;
    pending_valid = tt;
    pointer_read = x.pointer_read;
    agree =
        Agree-map h install none pointer d (clear_pending d)
          (λ v s. Verified-same h v s d (clear_pending d) refl)
          (Agree-Standing install pending pointer d x.agree);
  }

  module _ (lawful : IsLawfulHost h) where
    pub At-put_pending :
        {install : Option (InstallState V)} {pointer : Option V} {d : Disk}
        (p : PendingActivation V)
        → validate_pending h.ext p ≡ ok tt
        → pointer ≡ p.from
        → At h install none pointer d
        → At h install (some p) pointer (put_pending h p d)
    unfolding put_pending
    At-put_pending {install} {pointer} {d} p valid from x = record {
      laid_out = record {
        root_usable = x.laid_out.root_usable;
        versions_usable = x.laid_out.versions_usable;
        staging_usable = x.laid_out.staging_usable;
        staged = x.laid_out.staged;
      };
      install_read = x.install_read;
      install_valid = x.install_valid;
      pending_read = pending_of-pending_bytes h lawful p valid;
      pending_valid = valid;
      pointer_read = x.pointer_read;
      agree = inr (
        from,
        Agree-map h install none pointer d (put_pending h p d)
            (λ v s. Verified-same h v s d (put_pending h p d) refl) x.agree,
      );
    }

    pub At-point_to :
        {install : Option (InstallState V)} {pointer : Option V} {d : Disk}
        (p : PendingActivation V)
        → Switched h install p.to d
        → At h install (some p) pointer d
        → At h install (some p) (some p.to) (point_to h p.to d)
    unfolding point_to
    At-point_to {install} {pointer} {d} p (s, verified, id) x = record {
      laid_out = record {
        root_usable = x.laid_out.root_usable;
        versions_usable = x.laid_out.versions_usable;
        staging_usable = x.laid_out.staging_usable;
        staged = x.laid_out.staged;
      };
      install_read = x.install_read;
      install_valid = x.install_valid;
      pending_read = x.pending_read;
      pending_valid = x.pending_valid;
      pointer_read = pointer_of-payload_path h lawful p.to;
      agree = inl (refl, (s, Verified-same h p.to s d (point_to h p.to d) refl verified, id));
    }

    pub At-put_install :
        {install : Option (InstallState V)} {pending : Option (PendingActivation V)}
        {pointer : Option V} {d : Disk} (i : InstallState V)
        → validate_install_state h.ext i ≡ ok tt
        → Agree h (some i) pending pointer d
        → At h install pending pointer d
        → At h (some i) pending pointer (put_install h i d)
    unfolding put_install
    At-put_install {install} {pending} {pointer} {d} i valid agree x = record {
      laid_out = record {
        root_usable = x.laid_out.root_usable;
        versions_usable = x.laid_out.versions_usable;
        staging_usable = x.laid_out.staging_usable;
        staged = x.laid_out.staged;
      };
      install_read = install_of-install_bytes h lawful i valid;
      install_valid = valid;
      pending_read = x.pending_read;
      pending_valid = x.pending_valid;
      pointer_read = x.pointer_read;
      agree =
          Agree-map h (some i) pending pointer d (put_install h i d)
            (λ v s. Verified-same h v s d (put_install h i d) refl) agree;
    }
