-- ===== src/Install/Health.antt =====
-- What the disk of a managed installation looks like between the steps of an activation: the predicate
-- that the crash theorems carry. `At install pending pointer d` says that the disk `d` holds these
-- documents and this pointer, and that they agree.
pub mod Documents
pub mod Frame
pub mod Journaled
pub mod Rules
pub mod Writes
pub mod Succeeds
pub mod Completed
use relswap.Base.{
  ℕ, Str, Bool, true, false, ◌≡◌, ◌≢◌, ◌⊎◌, Option, none, some, List, ok, length, ltb, all, lookup,
}
use relswap.External.{IsLawful, version_eq}
use relswap.Release.Error.{max_metadata_size}
use relswap.Release.Target.{Target}
use relswap.Install.State.{
  InstallState, PendingActivation, VersionState, validate_install_state, validate_pending,
}
use relswap.Install.Host.{Host, version_name}
use relswap.Install.Disk.{DirState, missing, directory, not_directory, VersionDir, StagedDir, Disk}
use relswap.Install.Journal.{install_of, pending_of, install_document, pending_document}
use relswap.Install.Pointer.{pointer_of}
use relswap.Install.Verify.{verify_contents}
use relswap.Install.Recovery.{active_of}

-- What the crash theorems rely on: the laws of `semver::Version`, that serde_json reads back what it
-- wrote, and that the documents which are written stay under the size limit of a state file.
pub record IsLawfulHost {V : Type 0} (h : Host V) : Type 0 where
  pub ext_lawful : IsLawful h.ext
  pub decode-encode_install :
      (d : InstallState Str) → h.json.decode_install (h.json.encode_install d) ≡ some d
  pub decode-encode_pending :
      (d : PendingActivation Str) → h.json.decode_pending (h.json.encode_pending d) ≡ some d
  pub install_fits :
      (s : InstallState V)
      → validate_install_state h.ext s ≡ ok tt
      → ltb max_metadata_size (length (h.json.encode_install (install_document h s))) ≡ false
  pub pending_fits :
      (p : PendingActivation V)
      → validate_pending h.ext p ≡ ok tt
      → ltb max_metadata_size (length (h.json.encode_pending (pending_document h p))) ≡ false

-- Missing, or a private directory.
abbrev pub Usable : DirState → Type 0
Usable missing = Unit
Usable (directory true) = Unit
Usable (directory false) = ⊥
Usable not_directory = ⊥

pub record IsLaidOut (d : Disk) : Type 0 where
  pub root_usable : d.root ≡ directory true
  pub versions_usable : Usable d.versions_dir
  pub staging_usable : Usable d.staging_dir
  pub staged : all (λ (e : Str × StagedDir). e.1.is_directory) d.staging ≡ true

module _ {V : Type 0} (h : Host V) where
  -- The version is there, in a private directory whose contents verify as the state `s`.
  pub record Verified (v : V) (s : VersionState V Target) (d : Disk) : Type 0 where
    pub dir : VersionDir
    pub found : lookup (version_name h v) d.versions ≡ some dir
    pub real : dir.is_directory ≡ true
    pub hidden : dir.is_private ≡ true
    pub contents : verify_contents h dir.members none ≡ ok s
    pub named : version_eq h.ext s.version v ≡ true

  abbrev pub ValidInstall : Option (InstallState V) → Type 0
  ValidInstall none = Unit
  ValidInstall (some i) = validate_install_state h.ext i ≡ ok tt

  abbrev pub ValidPending : Option (PendingActivation V) → Type 0
  ValidPending none = Unit
  ValidPending (some p) = validate_pending h.ext p ≡ ok tt

  -- The state document, if there is one, belongs to the installation of `id`.
  abbrev pub SameId : Option (InstallState V) → Str → Type 0
  SameId none id = Unit
  SameId (some i) id = i.installation_id ≡ id

  -- Without a journal: the pointer's version verifies, or there is no active version.
  abbrev pub Standing : Option (InstallState V) → Option V → Disk → Type 0
  Standing install none d = active_of install ≡ none
  Standing install (some v) d = (s : VersionState V Target) × Verified v s d

  -- With a journal, after the switch: the new version verifies and belongs to this installation.
  abbrev pub Switched : Option (InstallState V) → V → Disk → Type 0
  Switched install to d =
      (s : VersionState V Target) × Verified to s d × SameId install s.installation_id

  abbrev pub Agree :
      Option (InstallState V) → Option (PendingActivation V) → Option V → Disk → Type 0
  Agree install none pointer d = Standing install pointer d
  Agree install (some p) pointer d =
      ((pointer ≡ some p.to) × Switched install p.to d)
      ⊎ ((pointer ≡ p.from) × Standing install pointer d)

  pub record At (install : Option (InstallState V)) (pending : Option (PendingActivation V))
      (pointer : Option V) (d : Disk) : Type 0 where
    pub laid_out : IsLaidOut d
    pub install_read : install_of h d.install ≡ ok install
    pub install_valid : ValidInstall install
    pub pending_read : pending_of h d.pending ≡ ok pending
    pub pending_valid : ValidPending pending
    pub pointer_read : pointer_of h d.command ≡ ok pointer
    pub agree : Agree install pending pointer d

  -- A disk from which recovery can go on.
  abbrev pub Recoverable : Disk → Type 0
  Recoverable d =
      (install : Option (InstallState V)) × (pending : Option (PendingActivation V))
      × (pointer : Option V) × At install pending pointer d
