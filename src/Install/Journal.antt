-- ===== src/Install/Journal.antt =====
-- Reading, writing and removing the state documents (src/install/journal.rs).
use relswap.Base.{Str, Option, none, some, Result, ok, err, ok_or, and_then, reject_if, length, ltb}
use relswap.Release.Error.{max_metadata_size}
use relswap.Release.Target.{Target, as_str}
use relswap.Install.State.{
  InstallError, io, json, invalid, InstallState, PendingActivation, VersionState,
  validate_install_state, validate_pending, read_install_document, read_pending_document,
}
use relswap.Install.Host.{Host}
use relswap.Install.Disk.{
  FileNode, absent, regular, special, Disk, Action, pure, raise, lift, effect, inspect, ◌>>=◌, ◌>>◌,
}
use mathlib.Core.Option as option

-- `read_json`: a missing file is no document; a link, an oversized file and bad JSON are errors.
unfoldable pub read_json :
    {V D A : Type 0}
    → (Str → Option D)
    → (D → Result (InstallError V) A)
    → FileNode
    → Result (InstallError V) (Option A)
read_json decode read special = err (invalid "state path is not a regular file")
read_json decode read absent = ok none
read_json decode read (regular bytes) =
    and_then (reject_if (ltb max_metadata_size (length bytes)) (invalid "state file is too large"))
      λ _.
        and_then (ok_or (decode bytes) json)
          λ document. and_then (read document) λ value. ok (some value)

module _ {V : Type 0} (h : Host V) where
  -- What the two files of the root hold.
  unfoldable pub install_of : FileNode → Result (InstallError V) (Option (InstallState V))
  unfolding read_json read_install_document
  install_of = read_json h.json.decode_install (read_install_document h.ext)

  unfoldable pub pending_of : FileNode → Result (InstallError V) (Option (PendingActivation V))
  unfolding read_json read_pending_document
  pending_of = read_json h.json.decode_pending (read_pending_document h.ext)

  unfoldable pub read_install_state : Action V (Option (InstallState V))
  unfolding install_of inspect
  read_install_state = inspect (λ d. install_of d.install)

  unfoldable pub read_pending : Action V (Option (PendingActivation V))
  unfolding pending_of inspect
  read_pending = inspect (λ d. pending_of d.pending)

  -- The derived `Serialize` of the documents, which prints each version.
  unfoldable pub install_document : InstallState V → InstallState Str
  install_document s = record {
    schema_version = s.schema_version;
    active = option.map h.ext.version_text s.active;
    previous = option.map h.ext.version_text s.previous;
    installation_id = s.installation_id;
    launcher = s.launcher;
  }

  unfoldable pub pending_document : PendingActivation V → PendingActivation Str
  pending_document p = record {
    schema_version = p.schema_version;
    from = option.map h.ext.version_text p.from;
    to = h.ext.version_text p.to;
    transaction_id = p.transaction_id;
  }

  unfoldable pub version_document : VersionState V Target → VersionState Str Str
  unfolding as_str
  version_document s = record {
    schema_version = s.schema_version;
    version = h.ext.version_text s.version;
    target = as_str s.target;
    binary_sha256 = s.binary_sha256;
    size = s.size;
    installation_id = s.installation_id;
    launcher = s.launcher;
  }

  unfoldable pub install_bytes : InstallState V → FileNode
  unfolding install_document
  install_bytes state = regular (h.json.encode_install (install_document state))

  unfoldable pub pending_bytes : PendingActivation V → FileNode
  unfolding pending_document
  pending_bytes pending = regular (h.json.encode_pending (pending_document pending))

  unfoldable pub put_install : InstallState V → Disk → Disk
  unfolding install_bytes
  put_install state d = record d { install = install_bytes state }

  unfoldable pub put_pending : PendingActivation V → Disk → Disk
  unfolding pending_bytes
  put_pending pending d = record d { pending = pending_bytes pending }

  -- A link in the place of the file is refused (`reject_reparse`); a directory there makes the
  -- rename fail. Otherwise the file is replaced at once.
  unfoldable pub replace_file : FileNode → (Disk → Disk) → Action V (Unit {0})
  unfolding effect
  replace_file special put = raise io
  replace_file absent put = effect put
  replace_file (regular _) put = effect put

  unfoldable pub write_install_state : InstallState V → Action V (Unit {0})
  unfolding validate_install_state inspect replace_file put_install
  write_install_state state = do
    lift (validate_install_state h.ext state)
    node ← inspect (λ d. ok d.install)
    replace_file node (put_install state)

  unfoldable pub write_pending : PendingActivation V → Action V (Unit {0})
  unfolding validate_pending inspect replace_file put_pending
  write_pending pending = do
    lift (validate_pending h.ext pending)
    node ← inspect (λ d. ok d.pending)
    replace_file node (put_pending pending)

unfoldable pub clear_pending : Disk → Disk
clear_pending d = record d { pending = absent }

unfoldable pub remove_pending_node : {V : Type 0} → FileNode → Action V (Unit {0})
unfolding effect clear_pending
remove_pending_node special = raise (invalid "pending activation is not a regular file")
remove_pending_node absent = pure tt
remove_pending_node (regular _) = effect clear_pending

unfoldable pub remove_pending : {V : Type 0} → Action V (Unit {0})
unfolding inspect remove_pending_node
remove_pending = do node ← inspect (λ d. ok d.pending); remove_pending_node node
