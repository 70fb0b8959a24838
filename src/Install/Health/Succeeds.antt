-- ===== src/Install/Health/Succeeds.antt =====
-- Rules for actions on a healthy disk when no call fails: each read, check and write goes through.
use relswap.Base.{
  Str, Bool, true, false, not, ◌≡◌, ◌≢◌, refl, Option, none, some, List, [], ◌∷◌, Result, ok,
  reject_if, all, ap, &&-true, lookup,
}
use relswap.External.{version_eq}
use relswap.Release.Target.{Target}
use relswap.Install.State.{InstallError, InstallState, VersionState, validate_install_state}
use relswap.Install.Host.{Host, version_name}
use relswap.Install.Disk.{
  FileNode, absent, regular, special, DirState, missing, directory, not_directory, VersionDir,
  StagedDir, Disk, Action, Slot, root_slot, versions_slot, staging_slot, slot_state, make_slot,
  version_dir_state, pure, lift, inspect, sync, ensure_dir_state, ensure_private_dir,
  ensure_private_layout, ensure_private_version_dir, dir_exists, ◌>>=◌,
}
use relswap.Install.Disk.Triple.{Post}
use relswap.Install.Disk.Runs.{Runs, Runs-pure, Runs-raise, Runs-inspect, Runs-effect, Runs-bind}
use relswap.Install.Journal.{
  replace_file, write_install_state, remove_pending, remove_pending_node, put_install,
  clear_pending,
}
use relswap.Install.Verify.{verify_contents, verify_version_dir, verify_final_version, members_of}
use relswap.Install.Staging.{cleanup_staging, cleanup_existing, remove_entries, drop_staged}
use relswap.Install.Activate.{sync_affected_parents}
use relswap.Install.Health.{Usable, Verified}

Usable-same : (s state : DirState) → s ≡ state → Usable s → Usable state
Usable-same s state e u = rw (← e) u

directory-there :
    (o : Option VersionDir) (dir : VersionDir)
    → o ≡ some dir
    → dir.is_directory ≡ true
    → dir.is_private ≡ true
    → version_dir_state o ≡ directory true
directory-there o dir e real hidden = rw (e, real, hidden) refl

Post-ok :
    {V A : Type 0} (Q : A → Disk → Type 0) (E : Disk → Type 0) (d : Disk)
    (r : Result (InstallError V) A) (a : A)
    → r ≡ ok a
    → Q a d
    → Post Q E d r
Post-ok Q E d r a e q = rw e q

module _ {V B : Type 0} {P : Disk → Type 0} {Q : B → Disk → Type 0} {E : Disk → Type 0} where
  -- What `P` says of the disk may be used to choose the proof.
  pub Runs-fact :
      {X : Type 0} (m : Action V B) → ((d : Disk) → P d → X) → (X → Runs P m Q E) → Runs P m Q E
  Runs-fact m f k = record { at = λ w c p. (k (f w.disk p)).at w c p }

module _ {V A B : Type 0} {P : Disk → Type 0} {Q : B → Disk → Type 0} {E : Disk → Type 0} where
  pub Runs-reads :
      (f : Disk → Result (InstallError V) A) (a : A) (k : A → Action V B)
      → ((d : Disk) → P d → f d ≡ ok a)
      → Runs P (k a) Q E
      → Runs P (inspect f >>= k) Q E
  Runs-reads f a k known t =
      Runs-bind {R = λ b d. P d × (b ≡ a)} (inspect f) k
        (Runs-inspect f (λ d p. rw (known d p) (p, refl)))
        (λ b. record { at = λ w c x. rw x.1 (t.at w c x.0) })

  pub Runs-checks :
      (r : Result (InstallError V) A) (a : A) (k : A → Action V B)
      → r ≡ ok a
      → Runs P (k a) Q E
      → Runs P (lift r >>= k) Q E
  unfolding ◌>>=◌
  Runs-checks r a k e t = record { at = λ w c p. rw e (t.at w c p) }

module _ {V : Type 0} {P : Disk → Type 0} {E : Disk → Type 0} where
  pub Runs-sync : Runs {V = V} P sync (λ _. P) E
  unfolding sync
  Runs-sync = Runs-effect (λ d. d) (λ d p. p)

  -- Every file that is read is kept; the outcome of the read is known.
  pub Runs-sees :
      {A : Type 0} (f : Disk → A)
      → Runs {V = V} P (inspect (λ d. ok (f d))) (λ a d. P d × (f d ≡ a)) E
  Runs-sees f = Runs-inspect (λ d. ok (f d)) (λ d p. (p, refl))

module _ (V : Type 0) {P : Disk → Type 0} {E : Disk → Type 0} where
  Runs-ensure_dir :
      (slot : Slot) (state : DirState)
      → ((d : Disk) → P d → Usable (slot_state slot d))
      → ((d : Disk) → P d → P (make_slot slot d))
      → Runs {V = V}
          (λ d. P d × (slot_state slot d ≡ state))
          (ensure_dir_state state (make_slot slot))
          (λ _. P)
          E
  unfolding ensure_dir_state
  Runs-ensure_dir slot missing usable k = Runs-effect (make_slot slot) (λ d x. k d x.0)
  Runs-ensure_dir slot (directory true) usable k = Runs-pure tt (λ d x. x.0)
  Runs-ensure_dir slot (directory false) usable k =
      Runs-raise _ (λ d x. absurd (Usable-same _ (directory false) x.1 (usable d x.0)))
  Runs-ensure_dir slot not_directory usable k =
      Runs-raise _ (λ d x. absurd (Usable-same _ not_directory x.1 (usable d x.0)))

  pub Runs-ensure_private_dir :
      (slot : Slot)
      → ((d : Disk) → P d → Usable (slot_state slot d))
      → ((d : Disk) → P d → P (make_slot slot d))
      → Runs {V = V} P (ensure_private_dir slot) (λ _. P) E
  unfolding ensure_private_dir
  Runs-ensure_private_dir slot usable k =
      Runs-bind _ _ (Runs-sees (slot_state slot)) (λ state. Runs-ensure_dir slot state usable k)

  pub Runs-ensure_private_layout :
      ((slot : Slot) (d : Disk) → P d → Usable (slot_state slot d))
      → ((slot : Slot) (d : Disk) → P d → P (make_slot slot d))
      → Runs {V = V} P ensure_private_layout (λ _. P) E
  unfolding ensure_private_layout
  Runs-ensure_private_layout usable k =
      Runs-bind _ _ (Runs-ensure_private_dir root_slot (usable root_slot) (k root_slot)) (λ _.
        Runs-bind _ _
          (Runs-ensure_private_dir versions_slot (usable versions_slot) (k versions_slot))
          (λ _. Runs-ensure_private_dir staging_slot (usable staging_slot) (k staging_slot)))

  Runs-remove_entries :
      (entries : List (Str × StagedDir))
      → all (λ (e : Str × StagedDir). e.1.is_directory) entries ≡ true
      → ((id : Str) (d : Disk) → P d → P (drop_staged id d))
      → Runs {V = V} P (remove_entries entries) (λ _. P) E
  unfolding remove_entries
  Runs-remove_entries [] e k = Runs-sync
  Runs-remove_entries ((id, dir) ∷ rest) e k =
      let (a, b) = &&-true dir.is_directory _ e in
      rw a (Runs-bind _ _ (Runs-effect (drop_staged id) (k id)) (λ _. Runs-remove_entries rest b k))

  Runs-cleanup_existing :
      (exists : Bool)
      → ((d : Disk) → P d → Usable (slot_state staging_slot d))
      → ((d : Disk) → P d → P (make_slot staging_slot d))
      → ((d : Disk) → P d → all (λ (e : Str × StagedDir). e.1.is_directory) d.staging ≡ true)
      → ((id : Str) (d : Disk) → P d → P (drop_staged id d))
      → Runs {V = V} P (cleanup_existing exists) (λ _. P) E
  unfolding cleanup_existing
  Runs-cleanup_existing false usable make staged k = Runs-pure tt (λ d p. p)
  Runs-cleanup_existing true usable make staged k =
      Runs-bind _ _ (Runs-ensure_private_dir staging_slot usable make) (λ _.
        Runs-bind _ _ (Runs-sees (λ d. d.staging)) (λ entries.
          Runs-fact _ (λ d x. rw (← x.1) (staged d x.0))
            (λ e. record { at = λ w c x. (Runs-remove_entries entries e k).at w c x.0 })))

  pub Runs-cleanup_staging :
      ((d : Disk) → P d → Usable (slot_state staging_slot d))
      → ((d : Disk) → P d → P (make_slot staging_slot d))
      → ((d : Disk) → P d → all (λ (e : Str × StagedDir). e.1.is_directory) d.staging ≡ true)
      → ((id : Str) (d : Disk) → P d → P (drop_staged id d))
      → Runs {V = V} P cleanup_staging (λ _. P) E
  unfolding cleanup_staging
  Runs-cleanup_staging usable make staged k =
      Runs-bind _ _ (Runs-sees (λ d. dir_exists d.staging_dir)) (λ exists. record {
        at = λ w c x. (Runs-cleanup_existing exists usable make staged k).at w c x.0;
      })

module _ {V : Type 0} (h : Host V) where
  contents_at :
      (version : V) (id : Option Str) (d : Disk) (s : VersionState V Target)
      → Verified h version s d
      → ((members : List (Str × FileNode))
          → verify_contents h members none ≡ ok s
          → verify_contents h members id ≡ ok s)
      → verify_contents h (members_of (lookup (version_name h version) d.versions)) id ≡ ok s
  contents_at version id d s v m = rw v.found (m v.dir.members v.contents)

module _ {V : Type 0} (h : Host V) {P : Disk → Type 0} {E : Disk → Type 0} where
  -- A version that is in place verifies, and nothing is made.
  pub Runs-verify :
      {X : VersionState V Target → Disk → Type 0} (version : V) (id : Option Str)
      → ((d : Disk)
          → P d
          → (s : VersionState V Target) × Verified h version s d
            × ((members : List (Str × FileNode))
                → verify_contents h members none ≡ ok s
                → verify_contents h members id ≡ ok s)
            × X s d)
      → Runs P (verify_final_version h version id) (λ s d. P d × Verified h version s d × X s d) E
  unfolding verify_final_version verify_version_dir ensure_private_version_dir ensure_dir_state
  Runs-verify {X} version id k =
      Runs-bind {R = λ s d. P d × Verified h version s d × X s d} _ _
        (Runs-bind {R = λ _. P} _ _
          (Runs-reads _ (directory true) _
            (λ d p.
              let (s, v, m, x) = k d p in ap ok (directory-there _ v.dir v.found v.real v.hidden))
            (Runs-pure tt (λ d p. p)))
          (λ _. Runs-inspect _ (λ d p.
            let (s, v, m, x) = k d p in
            Post-ok (λ s d. P d × Verified h version s d × X s d) E d _ s
              (contents_at h version id d s v m) (p, v, x))))
        (λ s.
          Runs-fact _ (λ d x. x.1.named)
            (λ e.
              Runs-checks (reject_if (not (version_eq h.ext s.version version)) _) tt (λ _. pure s)
                (rw e refl) (Runs-pure s (λ d x. x))))

module _ {V : Type 0} (h : Host V) {P Q : Disk → Type 0} {E : Disk → Type 0} where
  -- A valid document is written where no link or directory is in the way.
  pub Runs-write_install :
      (i : InstallState V)
      → validate_install_state h.ext i ≡ ok tt
      → ((d : Disk) → P d → d.install ≢ special)
      → ((d : Disk) → P d → Q (put_install h i d))
      → Runs P (write_install_state h i) (λ _. Q) E
  unfolding write_install_state replace_file
  Runs-write_install i valid real k =
      Runs-checks _ tt _ valid (Runs-bind _ _ (Runs-sees (λ d. d.install)) (λ node. replaced node))
    where
      replaced :
          (node : FileNode)
          → Runs (λ d. P d × (d.install ≡ node)) (replace_file h node (put_install h i)) (λ _. Q) E
      replaced special = Runs-raise _ (λ d x. absurd (real d x.0 x.1))
      replaced absent = Runs-effect (put_install h i) (λ d x. k d x.0)
      replaced (regular _) = Runs-effect (put_install h i) (λ d x. k d x.0)

  pub Runs-remove_pending :
      ((d : Disk) → P d → d.pending ≢ special)
      → ((d : Disk) → P d → d.pending ≢ absent)
      → ((d : Disk) → P d → Q (clear_pending d))
      → Runs {V = V} P remove_pending (λ _. Q) E
  unfolding remove_pending remove_pending_node
  Runs-remove_pending real there k =
      Runs-bind _ _ (Runs-sees (λ d. d.pending)) (λ node. removed node)
    where
      removed :
          (node : FileNode)
          → Runs {V = V} (λ d. P d × (d.pending ≡ node)) (remove_pending_node node) (λ _. Q) E
      removed special = Runs-raise _ (λ d x. absurd (real d x.0 x.1))
      removed absent = Runs-pure tt (λ d x. absurd (there d x.0 x.1))
      removed (regular _) = Runs-effect clear_pending (λ d x. k d x.0)

module _ {V : Type 0} (h : Host V) {P : Disk → Type 0} {E : Disk → Type 0} where
  pub Runs-sync_parents : Runs P (sync_affected_parents h) (λ _. P) E
  unfolding sync_affected_parents
  Runs-sync_parents = Runs-bind _ _ Runs-sync (λ _. Runs-bind _ _ Runs-sync (λ _. Runs-sync))
