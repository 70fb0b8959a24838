-- ===== src/Release/Archive/Zip.antt =====
-- The ZIP reader (`preflight_zip_member_count`, `zip_central_member_count`, `inspect_zip`). The zip
-- crate's view of the archive, its list of entries, is a parameter.
use relswap.Base.{
  ℕ, suc, zero, ◌+◌, ◌-◌, ◌*◌, Str, Bool, not, ◌&&◌, ◌||◌, Option, none, some, List, [], ◌∷◌,
  Result, ok, err, ok_or, reject_if, str_eq, length, take, drop, ltb, leb, ◌==◌, if◌then◌else◌,
}
use Prim.Native.Nat.{bit_and}
use relswap.External.{External}
use relswap.App.{App}
use relswap.Release.Error.{
  ReleaseError, archive, finished, ◌>>=◌, ◌>>◌, max_archive_members, max_archive_member_name,
  max_member_size, max_uncompressed_size, max_archive_metadata_size,
}
use relswap.Release.Target
use relswap.Release.Manifest.{ReleaseAsset}
use relswap.Release.Archive.Names.{validate_member_name}
use relswap.Release.Archive.Member.{
  ExtractedRelease, Found, nothing_found, expected_member, accept_member, add_name, finish_members,
  target_from_asset, canonical_version_from_asset,
}

abbrev pub central_header_size : ℕ
central_header_size = 46

abbrev pub eocd_size : ℕ
eocd_size = 22

abbrev first_byte : Str → ℕ
first_byte [] = 0
first_byte (b ∷ _) = b

-- `u16::from_le_bytes` and `u32::from_le_bytes` at an offset of a record.
unfoldable pub short : Str → ℕ → ℕ
short bytes i = first_byte (drop i bytes) + 256 * first_byte (drop (i + 1) bytes)

unfoldable pub long : Str → ℕ → ℕ
unfolding short
long bytes i = short bytes i + 65536 * short bytes (i + 2)

-- `zip_central_member_count` from a cursor on: `some (ok none)` for a malformed directory. A header is
-- 46 bytes long, so one round more than there are bytes is enough; `none` is a lack of rounds.
unfoldable pub central_loop : Str → ℕ → ℕ → ℕ → ℕ → ℕ → Option (Result ReleaseError (Option ℕ))
unfolding short str_eq
central_loop bytes zero end cursor members metadata_size = none
central_loop bytes (suc fuel) end cursor members metadata_size =
    let header = take central_header_size (drop cursor bytes) in
    let variable = short header 28 + short header 30 + short header 32 in
    let next =
      central_loop bytes fuel end (cursor + (central_header_size + variable)) (members + 1)
        (metadata_size + variable) in
    if leb end cursor
    then some (ok (if cursor == end then some members else none))
    else if ltb (length header) central_header_size
    then some (ok none)
    else if not (str_eq (take 4 header) (b'P' ∷ b'K' ∷ 1 ∷ 2 ∷ []))
    then some (ok none)
    else if ltb max_archive_member_name (short header 28)
    then some (err (archive "ZIP member name is too long"))
    else if ltb max_archive_metadata_size (metadata_size + variable)
    then some (err (archive "ZIP central metadata is too large"))
    else if ltb end (cursor + (central_header_size + variable))
    then some (ok none)
    else if ltb max_archive_members (members + 1)
    then some (ok (some (members + 1)))
    else next

unfoldable pub zip_central_member_count : Str → ℕ → ℕ → Result ReleaseError (Option ℕ)
unfolding central_loop
zip_central_member_count bytes start end =
    finished (central_loop bytes (suc (length bytes)) end start 0 0)

-- One window of the search for the end-of-directory record: `none` is the source's `continue`.
unfoldable pub check_eocd : Str → ℕ → Option (Result ReleaseError (Unit {0}))
unfolding short long str_eq zip_central_member_count
check_eocd bytes offset =
    let record_bytes = take eocd_size (drop offset bytes) in
    let central_start = long record_bytes 16 in
    let count = zip_central_member_count bytes central_start offset in
    if not (str_eq (take 4 record_bytes) (b'P' ∷ b'K' ∷ 5 ∷ 6 ∷ []))
    then none
    else if ltb (length record_bytes) eocd_size
    then none
    else if not (offset + eocd_size + short record_bytes 20 == length bytes)
        || not (short record_bytes 4 == 0)
        || not (short record_bytes 6 == 0)
        || not (short record_bytes 8 == short record_bytes 10)
    then none
    else if short record_bytes 10 == 65535
        || long record_bytes 12 == 4294967295
        || long record_bytes 16 == 4294967295
    then some (err (archive "ZIP64 archives are not supported for release assets"))
    else if not (central_start + long record_bytes 12 == offset)
    then none
    else elim count [
      | err e ↦ some (err e)
      | ok none ↦ none
      | ok (some actual) ↦
          if not (actual == short record_bytes 10)
          then none
          else if ltb max_archive_members actual
          then some (err (archive "ZIP archive exceeds maximum member count"))
          else some (ok tt)
    ]

-- The windows from the last to `search_start`; `rounds` are left, the offset is `start + rounds - 1`.
unfoldable pub search_eocd : Str → ℕ → ℕ → Result ReleaseError (Unit {0})
unfolding check_eocd
search_eocd bytes start zero = err (archive "ZIP archive has no valid end-of-directory record")
search_eocd bytes start (suc rounds) = elim (check_eocd bytes (start + rounds)) [
  | none ↦ search_eocd bytes start rounds
  | some verdict ↦ verdict
]

unfoldable pub preflight_zip_member_count : Str → Result ReleaseError (Unit {0})
unfolding search_eocd
preflight_zip_member_count bytes =
    let start = length bytes - (eocd_size + 65535) in
    search_eocd bytes start (length bytes - start - 3)

-- What the zip crate reports of one entry; `bytes` is what reading it to the end gives.
pub record ZipEntry : Type 0 where
  pub name_raw : Str
  pub encrypted : Bool
  pub stored_or_deflated : Bool
  pub is_symlink : Bool
  pub unix_mode : Option ℕ
  pub size : ℕ
  pub is_dir : Bool
  pub bytes : Option Str

unfoldable pub check_unix_mode : Option ℕ → Bool → Result ReleaseError (Unit {0})
check_unix_mode none is_dir = ok tt
check_unix_mode (some mode) is_dir = do
  let file_type = bit_and mode 0o170000
  reject_if (not (file_type == 0) && not (file_type == 0o100000) && not (file_type == 0o040000))
      (archive "special ZIP member is not supported")
  reject_if (file_type == 0o040000 && not is_dir) (archive "ZIP directory mode disagrees with name")

-- `read_member_data` on an entry's reader.
unfoldable pub read_zip_data : ℕ → Option Str → Result ReleaseError Str
read_zip_data declared_size contents = do
  bytes ← ok_or contents (archive "member could not be read")
  reject_if (ltb max_member_size (length bytes) || not (length bytes == declared_size))
      (archive "member actual size differs from its declared size")
  ok bytes

module _ {V : Type 0} (ext : External V) (asset : ReleaseAsset) (root : Str)
    (expected_launcher : Option Str) where
  unfoldable pub zip_file : ZipEntry → Str → Found → Result ReleaseError Found
  unfolding str_eq read_zip_data expected_member accept_member
  zip_file entry path found = do
    reject_if (str_eq path root) (archive "canonical archive root must be a directory")
    let total = found.total_uncompressed + entry.size
    reject_if (ltb max_uncompressed_size total)
        (archive "ZIP contents exceed maximum uncompressed size")
    bytes ← read_zip_data entry.size entry.bytes
    accept_member ext (expected_member asset expected_launcher path) path bytes
        (record found { total_uncompressed = total })

  unfoldable pub zip_entry : ZipEntry → Found → Result ReleaseError Found
  unfolding validate_member_name add_name check_unix_mode zip_file str_eq
  zip_entry entry before = do
    path ← validate_member_name entry.name_raw root
    found ← add_name path before
    reject_if entry.encrypted (archive "encrypted ZIP member is not supported")
    reject_if (not entry.stored_or_deflated) (archive "unsupported ZIP compression")
    reject_if entry.is_symlink (archive "symbolic-link ZIP member is not supported")
    check_unix_mode entry.unix_mode entry.is_dir
    reject_if (ltb max_member_size entry.size) (archive "ZIP member exceeds maximum size")
    if entry.is_dir
        then (do
          reject_if (not (entry.size == 0)) (archive "directory member has nonzero size")
          let seen = found.root_seen || str_eq path root
          ok (record found { root_seen = seen }))
        else zip_file entry path found

  unfoldable pub zip_loop : List ZipEntry → Found → Result ReleaseError Found
  unfolding zip_entry
  zip_loop [] found = ok found
  zip_loop (entry ∷ entries) found = elim (zip_entry entry found) [
    | err e ↦ err e
    | ok found' ↦ zip_loop entries found'
  ]

unfoldable pub inspect_zip :
    {V : Type 0}
    → External V
    → V
    → (Str → Option (List ZipEntry))
    → App
    → Str
    → ReleaseAsset
    → Result ReleaseError ExtractedRelease
unfolding target_from_asset canonical_version_from_asset preflight_zip_member_count zip_loop
    finish_members
inspect_zip ext zero_version zip_entries app bytes asset = do
  target ← target_from_asset ext zero_version app asset
  let version = canonical_version_from_asset ext zero_version app asset target
  let root = Target.root_name ext target app version
  preflight_zip_member_count bytes
  entries ← ok_or (zip_entries bytes) (archive "invalid ZIP archive")
  reject_if (ltb max_archive_members (length entries))
      (archive "ZIP archive exceeds maximum member count")
  found ←
      zip_loop ext asset root (Target.launcher_path ext target app version) entries nothing_found
  reject_if (not found.root_seen) (archive "archive has no canonical root directory")
  finish_members ext zero_version app found.payload found.launcher asset
