-- ===== src/Install/Disk.antt =====
-- The managed part of the file system, and actions on it that may fail. Every file system call of the
-- source takes one outcome from a schedule: it succeeds, fails before it has an effect, or fails after
-- it (a rename that is done and whose directory sync fails). A call past the end of the schedule
-- succeeds. So a theorem over all schedules covers a crash or an I/O error at every call.
-- Other processes are kept out by the installation lock.
pub mod Triple
pub mod Runs
use relswap.Base.{
  Str, Bool, true, false, Option, none, some, List, [], ◌∷◌, Result, ok, err, reject_if, is_ok,
  str_eq, lookup, insert, erase, if◌then◌else◌,
}
use relswap.Install.State.{InstallError, io, invalid, fault, FaultPoint}
use relswap.Install.Host.{Host}

-- A path where a file is expected; `special` is a link, a directory or anything else.
pub data FileNode : Type 0 where
  absent : FileNode
  regular : Str → FileNode
  special : FileNode

-- A path where a directory is expected, and whether it is private to the user.
pub data DirState : Type 0 where
  missing : DirState
  directory : Bool → DirState
  not_directory : DirState

-- `lexists` on a directory.
abbrev pub dir_exists : DirState → Bool
dir_exists missing = false
dir_exists _ = true

-- `lexists` on a file.
abbrev pub file_exists : FileNode → Bool
file_exists absent = false
file_exists _ = true

-- The command path; a link is absolute or not and has the components of its target.
pub data CommandNode : Type 0 where
  vacant : CommandNode
  symlink : Bool → List Str → CommandNode
  foreign : CommandNode

abbrev pub command_exists : CommandNode → Bool
command_exists vacant = false
command_exists _ = true

abbrev pub is_symlink : CommandNode → Bool
is_symlink (symlink _ _) = true
is_symlink _ = false

-- An entry of `versions`, or a staged one.
pub record VersionDir : Type 0 where
  pub is_directory : Bool
  pub is_private : Bool
  pub members : List (Str × FileNode)

-- An entry of `.staging`: a transaction directory with the archive and the staged version.
pub record StagedDir : Type 0 where
  pub is_directory : Bool
  pub is_private : Bool
  pub files : List (Str × FileNode)
  pub version : Option VersionDir

pub record Disk : Type 0 where
  pub root : DirState
  pub versions_dir : DirState
  pub staging_dir : DirState
  pub command_parent : DirState
  pub command : CommandNode
  pub install : FileNode
  pub pending : FileNode
  pub lock : FileNode
  pub versions : List (Str × VersionDir)
  pub staging : List (Str × StagedDir)

pub data Outcome : Type 0 where
  succeeds : Outcome
  fails_before : Outcome
  fails_after : Outcome

-- `ids` is what `random_id` will give.
pub record World : Type 0 where
  pub disk : Disk
  pub schedule : List Outcome
  pub ids : List Str

abbrev pub Action : Type 0 → Type 0 → Type 0
Action V A = World → Result (InstallError V) A × World

module _ {V : Type 0} where
  abbrev pub pure : {A : Type 0} → A → Action V A
  pure a w = (ok a, w)

  abbrev pub raise : {A : Type 0} → InstallError V → Action V A
  raise e w = (err e, w)

  abbrev pub lift : {A : Type 0} → Result (InstallError V) A → Action V A
  lift r w = (r, w)

  abbrev pub continue : {A B : Type 0} → Result (InstallError V) A → (A → Action V B) → Action V B
  continue (ok a) f w = f a w
  continue (err e) f w = (err e, w)

  infixl 5 ◌>>=◌ ◌>>◌
  unfoldable pub ◌>>=◌ : {A B : Type 0} → Action V A → (A → Action V B) → Action V B
  ◌>>=◌ m f w = let (r, w') = m w in continue r f w'

  abbrev pub ◌>>◌ : {B : Type 0} → Action V (Unit {0}) → Action V B → Action V B
  m >> k = m >>= λ _. k

  -- `if m().is_ok()`: the error is dropped, and what `m` wrote stays.
  unfoldable pub attempt : {A : Type 0} → Action V A → Action V Bool
  attempt m w = let (r, w') = m w in (ok (is_ok r), w')

  abbrev settle : Outcome → List Outcome → (Disk → Disk) → Action V (Unit {0})
  settle succeeds rest f w = (ok tt, record w { disk = f w.disk; schedule = rest })
  settle fails_before rest f w = (err io, record w { schedule = rest })
  settle fails_after rest f w = (err io, record w { disk = f w.disk; schedule = rest })

  abbrev settle_next : List Outcome → (Disk → Disk) → Action V (Unit {0})
  settle_next [] f w = settle succeeds [] f w
  settle_next (o ∷ rest) f w = settle o rest f w

  -- One call that changes the disk.
  unfoldable pub effect : (Disk → Disk) → Action V (Unit {0})
  effect f w = settle_next w.schedule f w

  -- One call that flushes and changes nothing that can be read.
  unfoldable pub sync : Action V (Unit {0})
  unfolding effect
  sync = effect (λ d. d)

  -- Reads, with one outcome for what is read together.
  unfoldable pub inspect : {A : Type 0} → (Disk → Result (InstallError V) A) → Action V A
  unfolding sync ◌>>=◌
  inspect f = sync >>= λ _ w. (f w.disk, w)

  -- `random_id`: the next 64 hexadecimal characters, or the failure of the OS generator.
  abbrev pub take_id : List Str → Action V Str
  take_id [] w = (err (invalid "OS randomness failed"), w)
  take_id (i ∷ rest) w = (ok i, record w { ids = rest })

  unfoldable pub random_id : Action V Str
  random_id w = take_id w.ids w

  -- `Installation::fault`
  unfoldable pub fault_at : Host V → FaultPoint → Action V (Unit {0})
  fault_at h point w = (reject_if (h.injects point) (fault point), w)

-- The three directories that `ensure_private_dir` makes or checks.
pub data Slot : Type 0 where
  root_slot : Slot
  versions_slot : Slot
  staging_slot : Slot

abbrev pub slot_state : Slot → Disk → DirState
slot_state root_slot d = d.root
slot_state versions_slot d = d.versions_dir
slot_state staging_slot d = d.staging_dir

-- A missing parent is made too, with the same mode.
abbrev or_private : DirState → DirState
or_private missing = directory true
or_private s = s

unfoldable pub make_slot : Slot → Disk → Disk
make_slot root_slot d = record d { root = directory true }
make_slot versions_slot d = record d { root = or_private d.root; versions_dir = directory true }
make_slot staging_slot d = record d { root = or_private d.root; staging_dir = directory true }

unfoldable pub make_version_dir : Str → Disk → Disk
make_version_dir name d = record d {
  root = or_private d.root;
  versions_dir = or_private d.versions_dir;
  versions =
      insert name (record { is_directory = true; is_private = true; members = [] }) d.versions;
}

abbrev pub version_dir_state : Option VersionDir → DirState
version_dir_state none = missing
version_dir_state (some v) = if v.is_directory then directory v.is_private else not_directory

module _ {V : Type 0} where
  unfoldable pub ensure_dir_state : DirState → (Disk → Disk) → Action V (Unit {0})
  unfolding effect
  ensure_dir_state missing make = effect make
  ensure_dir_state (directory true) make = pure tt
  ensure_dir_state (directory false) make = raise io
  ensure_dir_state not_directory make = raise io

  -- `fs_security::ensure_private_dir`: creates a missing directory, and checks an existing one.
  unfoldable pub ensure_private_dir : Slot → Action V (Unit {0})
  unfolding inspect ensure_dir_state make_slot
  ensure_private_dir slot = do
    state ← inspect (λ d. ok (slot_state slot d))
    ensure_dir_state state (make_slot slot)

  unfoldable pub ensure_private_version_dir : Str → Action V (Unit {0})
  unfolding inspect ensure_dir_state make_version_dir
  ensure_private_version_dir name = do
    state ← inspect (λ d. ok (version_dir_state (lookup name d.versions)))
    ensure_dir_state state (make_version_dir name)

  -- `Installation::ensure_private_layout` with `cfg(unix)`.
  unfoldable pub ensure_private_layout : Action V (Unit {0})
  unfolding ensure_private_dir
  ensure_private_layout = do
    ensure_private_dir root_slot
    ensure_private_dir versions_slot
    ensure_private_dir staging_slot
