-- ===== src/Release/Error.antt =====
-- `ReleaseError` and the limits of src/release/mod.rs, with the digest check that the release
-- modules share. A message is the fixed part of the source's text: interpolated values are left out.
use relswap.Base.{
  ℕ, ◌+◌, ◌*◌, Str, String, not, Option, none, some, Result, err, and_then, reject_if, str_eq,
  length, ◌==◌,
}
use relswap.External.{External}

pub data ReleaseError : Type 0 where
  invalid : String → ReleaseError
  trust_anchor_not_configured : ReleaseError
  io : String → ReleaseError
  json : ReleaseError
  download : String → ReleaseError
  archive : String → ReleaseError

abbrev pub max_archive_size : ℕ
max_archive_size = 256 * 1024 * 1024

abbrev pub max_member_size : ℕ
max_member_size = 256 * 1024 * 1024

abbrev pub max_uncompressed_size : ℕ
max_uncompressed_size = 256 * 1024 * 1024

abbrev pub max_archive_members : ℕ
max_archive_members = 4096

abbrev pub max_archive_member_name : ℕ
max_archive_member_name = 4096

abbrev pub max_archive_metadata_size : ℕ
max_archive_metadata_size = 8 * 1024 * 1024

abbrev pub max_tar_metadata_size : ℕ
max_tar_metadata_size = 64 * 1024

abbrev pub max_tar_decompressed_size : ℕ
max_tar_decompressed_size = max_uncompressed_size + 32 * 1024 * 1024

abbrev pub max_metadata_size : ℕ
max_metadata_size = 1024 * 1024

infixl 5 ◌>>=◌ ◌>>◌
abbrev pub ◌>>=◌ :
    {A B : Type 0} → Result ReleaseError A → (A → Result ReleaseError B) → Result ReleaseError B
m >>= f = and_then m f

abbrev pub ◌>>◌ :
    {B : Type 0} → Result ReleaseError (Unit {0}) → Result ReleaseError B → Result ReleaseError B
m >> k = m >>= λ _. k

-- The result of a loop on fuel; the loops are given fuel enough to have one.
abbrev pub finished : {A : Type 0} → Option (Result ReleaseError A) → Result ReleaseError A
finished none = err (archive "out of rounds")
finished (some r) = r

unfoldable pub verify_bytes :
    {V : Type 0} → External V → Str → ℕ → Str → Result ReleaseError (Unit {0})
verify_bytes ext bytes expected_size expected_sha256 = do
  reject_if (not (length bytes == expected_size)) (invalid "size mismatch")
  reject_if (not (str_eq (ext.sha256_bytes bytes) expected_sha256)) (invalid "SHA-256 mismatch")
