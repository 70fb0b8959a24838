-- ===== src/Release/Archive/Tar.antt =====
-- The tar reader (`inspect_tar_gz`, `read_member_data`, `read_tar_record`, `validate_tar_checksum`,
-- `DecompressedLimit`). Gzip and the fields of a 512-byte header (the tar crate) are parameters. A
-- reader is the bytes that are left, whether the stream then ends cleanly, and the limit that is left.
use relswap.Base.{
  ℕ, suc, zero, ◌+◌, ◌-◌, ◌%◌, Str, String, Bool, true, false, not, ◌&&◌, ◌||◌, Option, none, some,
  [], ◌∷◌, Result, ok, err, ok_or, reject_if, is_some, str_eq, all_bytes, length, take, drop, ltb,
  leb, ◌==◌, if◌then◌else◌,
}
use Prim.Native.Nat.{bit_and}
use relswap.External.{External}
use relswap.App.{App}
use relswap.Release.Error.{
  ReleaseError, archive, finished, ◌>>=◌, ◌>>◌, max_archive_members, max_member_size,
  max_uncompressed_size, max_tar_metadata_size, max_tar_decompressed_size,
}
use relswap.Release.Target
use relswap.Release.Manifest.{ReleaseAsset}
use relswap.Release.Archive.Names.{validate_member_name, trim_tar_nul}
use relswap.Release.Archive.Pax.{
  PaxOverrides, no_overrides, OwnedPaxOverrides, update, pax_overrides,
}
use relswap.Release.Archive.Member.{
  ExtractedRelease, Found, nothing_found, expected_member, accept_member, add_name, finish_members,
  target_from_asset, canonical_version_from_asset,
}

pub data EntryKind : Type 0 where
  file : EntryKind
  dir : EntryKind
  gnu_longname : EntryKind
  gnu_longlink : EntryKind
  pax_local : EntryKind
  pax_global : EntryKind
  -- symbolic and hard links, devices, fifos, contiguous files and unknown types
  unsupported : EntryKind

pub record TarHeader : Type 0 where
  pub kind : EntryKind
  pub size : Option ℕ
  pub path : Str
  pub cksum : Option ℕ
  pub mode : Option ℕ

pub record Reader : Type 0 where
  pub left : Str
  pub clean : Bool
  pub remaining : ℕ

-- `read_exact`: short data, a broken stream and the processing limit are all errors.
unfoldable pub read_exact : ℕ → String → Reader → Result ReleaseError (Str × Reader)
read_exact n message r =
    if leb n (length r.left) && leb n r.remaining
    then ok (take n r.left, record r { left = drop n r.left; remaining = r.remaining - n })
    else err (archive message)

-- The bytes of a block with the checksum field, offsets 148 to 155, read as spaces.
unfoldable pub checksum_from : ℕ → Str → ℕ
checksum_from offset [] = 0
checksum_from offset (byte ∷ block) =
    (if leb 148 offset && ltb offset 156 then b' ' else byte) + checksum_from (offset + 1) block

unfoldable pub validate_tar_checksum : TarHeader → Str → Result ReleaseError (Unit {0})
unfolding checksum_from
validate_tar_checksum header block = do
  expected ← ok_or header.cksum (archive "invalid tar checksum")
  reject_if (not (checksum_from 0 block == expected)) (archive "tar checksum mismatch")

unfoldable pub is_zero : ℕ → Bool
is_zero byte = byte == 0

-- The zero padding up to a multiple of 512 bytes.
unfoldable pub read_padding : ℕ → Reader → Result ReleaseError Reader
unfolding read_exact all_bytes is_zero
read_padding size r = do
  (padding, r') ← read_exact ((512 - size % 512) % 512) "truncated tar padding" r
  reject_if (not (all_bytes is_zero padding)) (archive "nonzero tar padding")
  ok r'

-- `read_member_data` behind `take(declared_size)`: exactly the declared bytes, or an error.
unfoldable pub read_member_data : ℕ → Reader → Result ReleaseError (Str × Reader)
unfolding read_exact
read_member_data declared_size r = do
  reject_if (ltb max_member_size declared_size)
      (archive "member actual size exceeds its declared size")
  read_exact declared_size "member actual size differs from declared size" r

unfoldable pub read_tar_record : ℕ → Reader → Result ReleaseError (Str × Reader)
unfolding read_member_data read_padding
read_tar_record size r = do
  (bytes, r') ← read_member_data size r
  r'' ← read_padding size r'
  ok (bytes, r'')

-- The loop variables of `inspect_tar_gz` beside `Found`.
pub record TarState : Type 0 where
  pub found : Found
  pub long_name : Option Str
  pub long_link : Option Str
  pub pending_pax : Option Str
  pub global_pax : OwnedPaxOverrides
  pub index : ℕ

abbrev pub tar_start : TarState
tar_start = record {
  found = nothing_found;
  long_name = none;
  long_link = none;
  pending_pax = none;
  global_pax = record { path = none; size = none };
  index = 0;
}

unfoldable pub is_metadata : EntryKind → Bool
is_metadata file = false
is_metadata dir = false
is_metadata unsupported = false
is_metadata _ = true

-- A metadata record waits for the next member; `index` counts it.
unfoldable pub keep_metadata : EntryKind → Str → TarState → Result ReleaseError TarState
unfolding pax_overrides update
keep_metadata gnu_longname bytes s = do
  reject_if (is_some s.long_name) (archive "duplicate GNU long-name metadata for one tar member")
  ok (record s { long_name = some bytes; index = s.index + 1 })
keep_metadata gnu_longlink bytes s = do
  reject_if (is_some s.long_link) (archive "duplicate GNU long-link metadata for one tar member")
  ok (record s { long_link = some bytes; index = s.index + 1 })
keep_metadata pax_local bytes s = do
  _ ← pax_overrides bytes
  reject_if (is_some s.pending_pax) (archive "duplicate local PAX metadata for one tar member")
  ok (record s { pending_pax = some bytes; index = s.index + 1 })
keep_metadata pax_global bytes s = do
  overrides ← pax_overrides bytes
  ok (record s { global_pax = update s.global_pax overrides; index = s.index + 1 })
keep_metadata _ bytes s = ok s

unfoldable pub pending_overrides : Option Str → Result ReleaseError PaxOverrides
unfolding pax_overrides
pending_overrides none = ok no_overrides
pending_overrides (some bytes) = pax_overrides bytes

abbrev pub own_or {ℓ} : {A : Type ℓ} → Option (Option A) → Option A → Option A
own_or none global = global
own_or (some own) global = own

abbrev pub get_or {ℓ} : {A : Type ℓ} → Option A → A → A
get_or none a = a
get_or (some b) a = b

abbrev pub raw_path_of : Option Str → Option Str → Str → Str
raw_path_of (some long) pax header = trim_tar_nul long
raw_path_of none (some pax) header = pax
raw_path_of none none header = header

unfoldable pub ends_with_slash : Str → Bool
ends_with_slash [] = false
ends_with_slash (c ∷ []) = c == b'/'
ends_with_slash (c ∷ d ∷ s) = ends_with_slash (d ∷ s)

-- `header.mode().unwrap_or_default() & 0o111 == 0`, for a member that the manifest names.
unfoldable pub lacks_execute : Option (ℕ × Str × Bool) → TarHeader → Bool
lacks_execute none header = false
lacks_execute (some _) header = bit_and (get_or header.mode 0) 0o111 == 0

unfoldable pub is_dir : EntryKind → Bool
is_dir dir = true
is_dir _ = false

unfoldable pub is_unsupported : EntryKind → Bool
is_unsupported file = false
is_unsupported dir = false
is_unsupported _ = true

-- Trailing data: the stream ends cleanly within the limit and is zero throughout.
unfoldable pub check_trailing : Reader → Result ReleaseError (Unit {0})
unfolding all_bytes is_zero
check_trailing r = do
  reject_if (not r.clean || ltb r.remaining (length r.left)) (archive "invalid trailing tar data")
  reject_if (not (all_bytes is_zero r.left))
      (archive "tar archive has nonzero data after its end marker")

module _ {V : Type 0} (ext : External V) (asset : ReleaseAsset) (root : Str)
    (expected_launcher : Option Str) where
  -- A regular file: its size against the limits, its bytes, its padding, its digest.
  unfoldable pub read_file :
      TarHeader → Str → ℕ → Reader → Found → Result ReleaseError (Found × Reader)
  unfolding read_member_data read_padding expected_member accept_member lacks_execute str_eq
  read_file header path declared_size r found = do
    reject_if (str_eq path root) (archive "canonical archive root must be a directory")
    let total = found.total_uncompressed + declared_size
    reject_if (ltb max_uncompressed_size total)
        (archive "tar contents exceed maximum uncompressed size")
    let expected = expected_member asset expected_launcher path
    (bytes, r') ← read_member_data declared_size r
    r'' ← read_padding declared_size r'
    reject_if (lacks_execute expected header)
        (archive "expected executable member is not executable")
    found' ← accept_member ext expected path bytes (record found { total_uncompressed = total })
    ok (found', r'')

  unfoldable pub read_entry :
      TarHeader → ℕ → Reader → TarState → Result ReleaseError (TarState × Reader)
  unfolding pending_overrides validate_member_name add_name is_unsupported ends_with_slash is_dir
      read_file str_eq trim_tar_nul
  read_entry header header_size r s = do
    pax ← pending_overrides s.pending_pax
    let declared_size = get_or (own_or pax.size s.global_pax.size) header_size
    let raw_path = raw_path_of s.long_name (own_or pax.path s.global_pax.path) header.path
    path ← validate_member_name raw_path root
    found ← add_name path s.found
    let s' : TarState = record s {
      found = found;
      long_name = none;
      long_link = none;
      pending_pax = none;
      index = s.index + 1;
    }
    reject_if (is_unsupported header.kind) (archive "unsupported or unsafe tar entry type")
    reject_if (ends_with_slash raw_path && not (is_dir header.kind))
        (archive "regular tar member has a directory name")
    reject_if (ltb max_member_size declared_size) (archive "tar member exceeds maximum size")
    if is_dir header.kind
        then (do
          reject_if (not (declared_size == 0)) (archive "directory member has nonzero size")
          let seen = found.root_seen || str_eq path root
          ok (record s' { found = record found { root_seen = seen } }, r))
        else (do
          (found', r') ← read_file header path declared_size r found
          ok (record s' { found = found' }, r'))

  unfoldable pub read_metadata :
      TarHeader → ℕ → Reader → TarState → Result ReleaseError (TarState × Reader)
  unfolding read_tar_record keep_metadata
  read_metadata header header_size r s = do
    reject_if (ltb max_tar_metadata_size header_size) (archive "tar metadata is too large")
    (bytes, r') ← read_tar_record header_size r
    s' ← keep_metadata header.kind bytes s
    ok (s', r')

  -- What one round does with a header block that is not the end marker.
  unfoldable pub read_block :
      TarHeader → Str → Reader → TarState → Result ReleaseError (TarState × Reader)
  unfolding validate_tar_checksum is_metadata read_metadata read_entry
  read_block header block r s = do
    reject_if (leb max_archive_members s.index) (archive "tar archive exceeds maximum member count")
    validate_tar_checksum header block
    header_size ← ok_or header.size (archive "invalid tar member size")
    if is_metadata header.kind
        then read_metadata header header_size r s
        else read_entry header header_size r s

  unfoldable pub end_marker : Reader → TarState → Result ReleaseError Found
  unfolding check_trailing
  end_marker r s = do
    reject_if (is_some s.long_name || is_some s.long_link || is_some s.pending_pax)
        (archive "tar metadata record has no following member")
    check_trailing r
    ok s.found

  module _ (tar_header : Str → TarHeader) where
    -- The outer loop. A round takes 512 bytes, so one more round than there are bytes is enough; `none`
    -- is a lack of rounds.
    unfoldable pub tar_loop : ℕ → Reader → TarState → Option (Result ReleaseError Found)
    unfolding read_exact all_bytes is_zero end_marker read_block
    tar_loop zero r s = none
    tar_loop (suc fuel) r s = elim (read_exact 512 "invalid tar header" r) [
      | err e ↦ some (err e)
      | ok (block, r') ↦ elim (all_bytes is_zero block) [
        | true ↦ some (end_marker r' s)
        | false ↦ elim (read_block (tar_header block) block r' s) [
          | err e ↦ some (err e)
          | ok (s', r'') ↦ tar_loop fuel r'' s'
        ]
      ]
    ]

-- `gunzip` is the decompressed stream and whether it ends cleanly.
unfoldable pub inspect_tar_gz :
    {V : Type 0}
    → External V
    → V
    → (Str → Str × Bool)
    → (Str → TarHeader)
    → App
    → Str
    → ReleaseAsset
    → Result ReleaseError ExtractedRelease
unfolding target_from_asset canonical_version_from_asset tar_loop finish_members
inspect_tar_gz ext zero_version gunzip tar_header app bytes asset = do
  target ← target_from_asset ext zero_version app asset
  let version = canonical_version_from_asset ext zero_version app asset target
  let root = Target.root_name ext target app version
  let (stream, clean) = gunzip bytes
  let reader : Reader = record {
    left = stream;
    clean = clean;
    remaining = max_tar_decompressed_size;
  }
  found ← finished (
      tar_loop ext asset root (Target.launcher_path ext target app version) tar_header
        (suc (length stream)) reader tar_start)
  reject_if (not found.root_seen) (archive "archive has no canonical root directory")
  finish_members ext zero_version app found.payload found.launcher asset
