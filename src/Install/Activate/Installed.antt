-- ===== src/Install/Activate/Installed.antt =====
-- Installing a version that is not active (`activate_download_locked`, `choose_installation_id` in
-- src/install/activation.rs), cut short or complete.
use relswap.Base.{
  Str, Bool, true, false, not, ◌||◌, ◌≡◌, refl, Option, none, some, List, [], ◌∷◌, ok, lookup,
  is_some, str_eq, inl, reject_if, if◌then◌else◌,
}
use relswap.Release.Target.{Target}
use relswap.Release.Manifest.{ReleaseManifest}
use relswap.Install.State.{InstallState, invalid, validate_install_state, parse_canonical_version}
use relswap.Install.Host.{Host, version_name}
use relswap.Install.Disk.{
  Disk, VersionDir, pure, inspect, staging_slot, make_version_dir, command_exists, ◌>>=◌, ◌>>◌,
}
use relswap.Install.Disk.Triple.{Triple, Triple-pure, Triple-bind, Triple-weaken}
use relswap.Install.Staging.{cleanup_staging}
use relswap.Install.Verify.{ReleaseMetadata, verify_final_version}
use relswap.Install.Activate.{
  ensure_command_owned, ensure_command_parent, make_command_parent, activate_pointer_and_state,
}
use relswap.Install.Manager.{
  DownloadedArchive, shared_id, id_or_random, choose_retained_id, choose_installation_id,
  prepare_version, activate_new,
}
use relswap.Install.Recovery.Keeps.{Triple-cleanup_staging}
use relswap.Install.Health.{IsLawfulHost, At, SameId}
use relswap.Install.Health.Frame.{At-same, At-make_slot, At-make_version_dir, At-drop_staged}
use relswap.Install.Health.Rules.{
  Triple-verify, Triple-random_id, Triple-ensure_private_layout, Triple-fact,
}
use relswap.Install.Activate.CrashSafe.{
  NowAt, IsPrepared, IsPrepared-same, Between, activate-Between_from,
}
use relswap.Install.Activate.Rollback.{Triple-command_owned, Triple-command_parent}
use relswap.Install.Activate.Written.{Triple-look, Triple-test}
use relswap.Install.Activate.Download.{Triple-prepare_version}

module _ {V : Type 0} (h : Host V) (lawful : IsLawfulHost h) (install : Option (InstallState V))
    (pointer : Option V) (version : V) where
  abbrev Still : Disk → Type 0
  Still = At h install none pointer

  -- The disk is as an activation that was cut short may leave it.
  abbrev Cut : Disk → Type 0
  Cut = Between h pointer version

  weak : (d : Disk) → Still d → Cut d
  weak d x = inl (install, none, x)

  made :
      (name : Str) (d : Disk)
      → Still d
      → lookup name d.versions ≡ none
      → Still (make_version_dir name d)
  made name d x free = At-make_version_dir h x name free

  verifies : (v : V) (id : Option Str) → Triple Still (verify_final_version h v id) (λ _. Still) Cut
  verifies v id =
      Triple-weaken _ (Triple-verify h Still Cut weak v id made) (λ d x. x) (λ _ d x. x.0)

  shared :
      (entries : List (Str × VersionDir)) (found : Option Str)
      → Triple Still (shared_id h entries found) (λ _. Still) Cut
  unfolding shared_id
  shared [] found = Triple-pure found (λ d x. x)
  shared ((name, dir) ∷ rest) found =
      Triple-bind _ _
        (Triple-test Still Cut weak
          (reject_if (not dir.is_directory) (invalid "versions contains a non-directory entry")))
        (λ _.
          Triple-bind _ _ (Triple-test Still Cut weak (parse_canonical_version h.ext name))
            (λ retained. Triple-bind _ _ (verifies retained none) (λ state.
              Triple-bind _ _
                (Triple-test Still Cut weak (
                  reject_if
                    (elim found [ none ↦ false | some id ↦ not (str_eq id state.installation_id) ])
                    (invalid "retained versions belong to different installations")))
                (λ _.
                  shared rest
                    (some (elim found [ none ↦ state.installation_id | some id ↦ id ]))))))

  drawn : (found : Option Str) → Triple Still (id_or_random h found) (λ _. Still) Cut
  unfolding id_or_random
  drawn (some id) = Triple-pure id (λ d x. x)
  drawn none = Triple-random_id Still Cut weak

  retained_id :
      (retained : Bool) → Triple Still (choose_retained_id h version retained) (λ _. Still) Cut
  unfolding choose_retained_id
  retained_id true =
      Triple-bind _ _ (verifies version none)
        (λ state. Triple-pure state.installation_id (λ d x. x))
  retained_id false =
      Triple-bind _ _ (Triple-look Still Cut weak _)
        (λ entries. Triple-bind _ _ (shared entries none) (λ id. drawn id))

  tidy :
      (clean : Bool)
      → Triple {V = V} Still (if clean then cleanup_staging else pure tt) (λ _. Still) Cut
  tidy true =
      Triple-cleanup_staging Still Cut weak (λ d x. At-make_slot h x staging_slot)
        (λ id d x. At-drop_staged h x id)
  tidy false = Triple-pure tt (λ d x. x)

  with_parent :
      (owner : Str) (d : Disk)
      → (Still d × IsPrepared h version owner d)
      → (Still (make_command_parent h d) × IsPrepared h version owner (make_command_parent h d))
  unfolding make_command_parent
  with_parent owner d x = (
    At-same h x.0 (make_command_parent h d) refl refl refl refl (record {
      root_usable = x.0.laid_out.root_usable;
      versions_usable = x.0.laid_out.versions_usable;
      staging_usable = x.0.laid_out.staging_usable;
      staged = x.0.laid_out.staged;
    }),
    IsPrepared-same h (make_command_parent h d) refl x.1,
  )

module _ {V : Type 0} (h : Host V) (lawful : IsLawfulHost h) (pointer : Option V)
    (version : V) where
  -- The installation's own identifier, or for a first installation any.
  chosen :
      (install : Option (InstallState V))
      → Triple
          (At h install none pointer)
          (choose_installation_id h version install)
          (λ id d. At h install none pointer d × SameId h install id)
          (Between h pointer version)
  unfolding choose_installation_id
  chosen (some i) =
      Triple-bind _ _
        (Triple-test (At h (some i) none pointer) _ (weak h lawful (some i) pointer version)
          (validate_install_state h.ext i))
        (λ _. Triple-pure i.installation_id (λ d x. (x, refl)))
  chosen none =
      Triple-bind _ _
        (Triple-look (At h none none pointer) _ (weak h lawful none pointer version) _)
        (λ retained.
          Triple-weaken _ (retained_id h lawful none pointer version retained) (λ d x. x)
            (λ _ d x. (x, tt)))

  module _ (same_manifest : ReleaseManifest V → ReleaseManifest V → Bool)
      (metadata : ReleaseMetadata V) (archive : DownloadedArchive) (target : Target)
      (install : Option (InstallState V)) where
    abbrev Start : Disk → Type 0
    Start = At h install none pointer

    begin : (d : Disk) → Start d → Between h pointer version d
    begin = weak h lawful install pointer version

    placed :
        (owner : Str)
        → SameId h install owner
        → Triple Start
            (inspect (λ d. ok (command_exists d.command)) >>= λ occupied.
              (if is_some pointer || not occupied then cleanup_staging else pure tt)
              >> (ensure_command_owned h pointer install
                  >> (inspect (λ d. ok (is_some (lookup (version_name h version) d.versions)))
                      >>= λ existing.
                          prepare_version h same_manifest existing metadata archive version owner
                            target
                          >>= λ transaction.
                              ensure_command_parent h
                              >> activate_pointer_and_state h pointer version owner transaction
                                  transaction)))
            (λ _. NowAt h pointer version)
            (Between h pointer version)
    placed owner same = Triple-bind _ _ (Triple-look Start _ begin _) (λ occupied.
        Triple-bind _ _ (tidy h lawful install pointer version _) (λ _.
          Triple-bind _ _
            (Triple-command_owned h Start _ begin (made h lawful install pointer version) pointer
              install)
            (λ _. Triple-bind _ _ (Triple-look Start _ begin _) (λ existing.
              Triple-bind _ _
                (Triple-prepare_version h install pointer _ begin version owner same_manifest
                  metadata archive target existing)
                (λ transaction.
                  Triple-bind _ _
                    (Triple-command_parent h (λ d. Start d × IsPrepared h version owner d) _
                      (λ d x. begin d x.0) (with_parent h lawful install pointer version owner))
                    (λ _.
                      Triple-weaken _
                        (activate-Between_from h lawful install pointer version owner same
                          transaction transaction)
                        (λ d x. x) (λ _ d x. (_, x.0, refl, refl))))))))

    pub activate_new-Between :
        Triple Start
          (activate_new h same_manifest metadata archive version target install pointer)
          (λ _. NowAt h pointer version)
          (Between h pointer version)
    unfolding activate_new
    activate_new-Between =
        Triple-bind _ _
          (Triple-ensure_private_layout Start _ begin (λ slot d x. At-make_slot h x slot))
          (λ _. Triple-bind _ _ (chosen install) (λ owner.
            Triple-fact _ (λ d x. x.1)
              (λ same. Triple-weaken _ (placed owner same) (λ d x. x.0) (λ _ d x. x))))
