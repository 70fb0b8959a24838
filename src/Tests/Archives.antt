-- ===== src/Tests/Archives.antt =====
-- The theorems on release archives at concrete inputs: a tar stream of a directory and a payload, and
-- the entries of a ZIP archive.
use relswap.Base.{
  ℕ, zero, suc, ◌<◌, Str, text, Bool, true, false, ◌≡◌, refl, Option, none, some, List, [], ◌∷◌,
  ◌++◌, ok, length, Result, ◌≤◌, all, arith, ◌==◌, if◌then◌else◌,
}
use relswap.Release.Error.{max_tar_decompressed_size}
use relswap.Release.Archive.Pax.{PaxOverrides, no_overrides, pax_loop}
use relswap.Release.Archive.Member.{Found, nothing_found, VerifiedMember}
use relswap.Release.Archive.Tar.{
  EntryKind, file, dir, TarHeader, Reader, checksum_from, tar_start, tar_loop,
}
use relswap.Release.Archive.Zip.{ZipEntry, zip_loop, central_loop}
use relswap.Release.Archive.Inspect.{Formats, inspect_archive}
use relswap.Release.Archive.Kept.{HasDigest, nothing_found-IsSound, is_inside, distinct}
use relswap.Release.Archive.ZipAccount.{total_size, paths_before, zip_loop-within}
use relswap.Release.Error.{ReleaseError, max_uncompressed_size}
use relswap.Release.Archive.TarLoop.{tar_loop-returns}
use relswap.Release.Archive.Rounds.{pax_loop-returns, central_loop-returns}
use relswap.Release.Archive.Inspected.{IsVerified, inspect_archive-IsVerified}
use relswap.Tests.Sample.{ext, app, v1, asset_1}

abbrev repeat : ℕ → ℕ → Str
repeat zero b = []
repeat (suc n) b = b ∷ repeat n b

abbrev root : Str
root = text "demo-1.0.0-x86_64-unknown-linux-gnu"

-- The first byte of a header block says which of two members it is for.
abbrev kind_of : Str → EntryKind
kind_of [] = file
kind_of (b ∷ _) = if b == 1 then dir else file

abbrev header_of : EntryKind → Str → TarHeader
header_of dir block = record {
  kind = dir;
  size = some 0;
  path = root ++ text "/";
  cksum = some (checksum_from 0 block);
  mode = some 0o755;
}
header_of kind block = record {
  kind = kind;
  size = some 3;
  path = root ++ text "/demo";
  cksum = some (checksum_from 0 block);
  mode = some 0o755;
}

abbrev tar_header : Str → TarHeader
tar_header block = header_of (kind_of block) block

abbrev stream : Str
stream = (1 ∷ repeat 511 0) ++ (2 ∷ repeat 511 0) ++ (7 ∷ 8 ∷ 9 ∷ repeat 509 0) ++ repeat 1024 0

abbrev reader : Reader
reader = record { left = stream; clean = true; remaining = max_tar_decompressed_size }

abbrev formats : Formats
formats = record {
  gunzip = λ bytes. (stream, true);
  tar_header = tar_header;
  zip_entries = λ bytes. none;
}

abbrev member : VerifiedMember
member = record { path = root ++ text "/demo"; bytes = 7 ∷ 8 ∷ 9 ∷ [] }

abbrev found : Found
found = record {
  names = (root ++ text "/demo") ∷ root ∷ [];
  total_uncompressed = 3;
  payload = some member;
  launcher = none;
  root_seen = true;
}

tar_run : tar_loop ext asset_1 root none tar_header 2561 reader tar_start ≡ some (ok found)
unfolding tar_loop
tar_run = refl

inspect_run :
    inspect_archive ext v1 formats app (repeat 10 0) asset_1
    ≡ ok (record { payload = member; launcher = none })
unfolding inspect_archive relswap.Release.Target.archive_name relswap.Release.Target.payload_path
inspect_run = refl

inspect_archive-IsVerified_example :
    HasDigest ext (repeat 10 0) asset_1.archive_size asset_1.archive_sha256
    × IsVerified ext v1 app asset_1 (record { payload = member; launcher = none })
inspect_archive-IsVerified_example =
    inspect_archive-IsVerified ext v1 app asset_1 formats (repeat 10 0)
      (record { payload = member; launcher = none }) inspect_run

enough_rounds : length stream < 2561
enough_rounds = omega arith

tar_loop-returns_example :
    (result : Result ReleaseError Found) × (tar_loop ext asset_1 root none tar_header 2561 reader
        tar_start
      ≡ some result)
tar_loop-returns_example =
    tar_loop-returns ext asset_1 root none tar_header 2561 reader tar_start
      (nothing_found-IsSound ext asset_1 root none) enough_rounds

abbrev entry : Str → Bool → Option Str → ZipEntry
entry name is_dir bytes = record {
  name_raw = name;
  encrypted = false;
  stored_or_deflated = true;
  is_symlink = false;
  unix_mode = some 0o100755;
  size = 3;
  is_dir = is_dir;
  bytes = bytes;
}

abbrev dir_entry : ZipEntry
dir_entry = record (entry (root ++ text "/") true none) { unix_mode = none; size = 0 }

abbrev entries : List ZipEntry
entries = dir_entry ∷ entry (root ++ text "/demo") false (some (7 ∷ 8 ∷ 9 ∷ [])) ∷ []

zip_run : zip_loop ext asset_1 root none entries nothing_found ≡ ok found
unfolding zip_loop
zip_run = refl

zip_loop-within_example :
    (total_size entries ≤ max_uncompressed_size)
    × (distinct (paths_before entries []) ≡ true)
    × (all (is_inside root) (paths_before entries []) ≡ true)
zip_loop-within_example = zip_loop-within ext asset_1 root none entries found zip_run

pax_loop-returns_example :
    (result : Result ReleaseError PaxOverrides) × (pax_loop 10 (text "10 path=x\n") no_overrides
      ≡ some result)
pax_loop-returns_example = pax_loop-returns 10 (text "10 path=x\n") no_overrides (omega arith)

central_loop-returns_example :
    (result : Result ReleaseError (Option ℕ)) × (central_loop (repeat 60 0) 61 60 2 0 0
      ≡ some result)
central_loop-returns_example = central_loop-returns (repeat 60 0) 61 60 2 0 0 (omega arith)
