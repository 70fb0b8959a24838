-- ===== src/Install/Activate/Prepared.antt =====
-- A version directory that was verified is ready to be activated (`verify_final_version` in
-- src/install/activation.rs).
use relswap.Base.{
  Str, true, false, not, ◌≡◌, refl, Option, none, some, inl, inr, Result, ok, arith, lookup,
  lookup-insert, str_eq_refl, Bool-cases, reject_if, reject_if-eq-ok,
}
use relswap.External.{version_eq}
use relswap.Release.Target.{Target}
use mathlib.Core.Path.{subst}
use relswap.Install.State.{InstallError, invalid, VersionState}
use relswap.Install.Host.{Host, version_name}
use relswap.Install.Disk.{
  DirState, missing, directory, not_directory, VersionDir, Disk, ensure_dir_state,
  ensure_private_version_dir, version_dir_state, make_version_dir,
}
use relswap.Install.Disk.Triple.{Triple, Triple-pure, Triple-raise, Triple-effect, Triple-bind}
use relswap.Install.Verify.{verify_version_dir, verify_final_version, verify_contents, members_of}
use relswap.Install.Verify.Checked.{verify_contents-owned}
use relswap.Install.Health.Rules.{Triple-read, Triple-check}
use relswap.Install.Activate.CrashSafe.{IsPrepared}

-- The directory of a version is there, and private.
abbrev IsThere : Str → Disk → Type 0
IsThere name d = version_dir_state (lookup name d.versions) ≡ directory true

free_name : (o : Option VersionDir) → version_dir_state o ≡ missing → o ≡ none
free_name none e = refl
free_name (some dir) e = ground arith

made : (name : Str) (d : Disk) → IsThere name (make_version_dir name d)
unfolding make_version_dir
made name d = rw lookup-insert (ground (arith, str_eq_refl name))

module _ {V : Type 0} (P E : Disk → Type 0) (weak : (d : Disk) → P d → E d) (name : Str)
    (k : (d : Disk) → P d → lookup name d.versions ≡ none → P (make_version_dir name d)) where
  found_dir :
      (state : DirState)
      → Triple {V = V}
          (λ d.
            P d
            × ◌≡◌ {A = Result (InstallError V) DirState}
                (ok (version_dir_state (lookup name d.versions)))
                (ok state))
          (ensure_dir_state state (make_version_dir name))
          (λ _ d. P d × IsThere name d)
          E
  unfolding ensure_dir_state
  found_dir missing =
      Triple-effect (make_version_dir name) (λ d p. weak d p.0)
        (λ d p. weak (make_version_dir name d) (k d p.0 (free_name _ (ground (arith, p.1)))))
        (λ d p. (k d p.0 (free_name _ (ground (arith, p.1))), made name d))
  found_dir (directory true) = Triple-pure tt (λ d p. (p.0, ground (arith, p.1)))
  found_dir (directory false) = Triple-raise _ (λ d p. weak d p.0)
  found_dir not_directory = Triple-raise _ (λ d p. weak d p.0)

  Triple-found : Triple {V = V} P (ensure_private_version_dir name) (λ _ d. P d × IsThere name d) E
  unfolding ensure_private_version_dir
  Triple-found =
      Triple-bind _ _ (Triple-read P E weak (λ d. ok (version_dir_state (lookup name d.versions))))
        (λ state. found_dir state)

there_parts :
    (o : Option VersionDir)
    → version_dir_state o ≡ directory true
    → (dir : VersionDir) × (o ≡ some dir) × (dir.is_directory ≡ true) × (dir.is_private ≡ true)
there_parts none e = cc
there_parts (some dir) e = elim (Bool-cases dir.is_directory) [
  | inl t ↦ (dir, refl, t, ground (arith, e, t))
  | inr f ↦ absurd (ground (arith, e, f))
]

module _ {V : Type 0} (h : Host V) where
  prepared :
      (version : V) (id : Str) (s : VersionState V Target) (d : Disk)
      → IsThere (version_name h version) d
      → verify_contents h (members_of (lookup (version_name h version) d.versions)) (some id) ≡ ok s
      → version_eq h.ext s.version version ≡ true
      → IsPrepared h version id d
  prepared version id s d there e named =
      let (dir, found, real, hidden) =
        there_parts (lookup (version_name h version) d.versions) there in
      let f : verify_contents h dir.members (some id) ≡ ok s =
        subst (λ o. verify_contents h (members_of o) (some id) ≡ ok s) found e in
      let (contents, owned) = verify_contents-owned h dir.members s id f in
      record {
        state = s;
        verified = record {
          dir = dir;
          found = found;
          real = real;
          hidden = hidden;
          contents = contents;
          named = named;
        };
        owned = owned;
      }

module _ {V : Type 0} (h : Host V) (P E : Disk → Type 0) (weak : (d : Disk) → P d → E d) where
  -- A version that was verified for an installation is ready to be activated.
  pub Triple-IsPrepared :
      (version : V) (id : Str)
      → ((name : Str) (d : Disk)
          → P d
          → lookup name d.versions ≡ none
          → P (make_version_dir name d))
      → Triple P
          (verify_final_version h version (some id))
          (λ _ d. P d × IsPrepared h version id d)
          E
  unfolding verify_final_version verify_version_dir
  Triple-IsPrepared version id k =
      let name = version_name h version in
      let Q = λ (d : Disk). P d × IsThere name d in
      Triple-bind _ _
        (Triple-bind _ _ (Triple-found P E weak name (k name)) (λ _.
          Triple-read Q E (λ d x. weak d x.0)
            (λ d. verify_contents h (members_of (lookup name d.versions)) (some id))))
        (λ s.
          Triple-bind _ _
            (Triple-check
              (λ d.
                Q d × (verify_contents h (members_of (lookup name d.versions)) (some id) ≡ ok s))
              E (λ d x. weak d x.0.0)
              (reject_if (not (version_eq h.ext s.version version))
                (invalid "version.json does not match its immutable directory name")))
            (λ _. Triple-pure s (λ d x. (
              x.0.0.0,
              prepared h version id s d x.0.0.1 x.0.1 (
                  ground (arith, reject_if-eq-ok (not (version_eq h.ext s.version version)) _ x.1)),
            ))))
