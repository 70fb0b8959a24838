-- ===== src/Release/Archive/ZipKept.antt =====
-- The loop of the ZIP reader keeps what `Kept` says (`inspect_zip`, src/release/archive.rs).
use relswap.Base.{
  ◌+◌, Str, not, ◌≡◌, refl, inl, inr, Option, List, [], ◌∷◌, Result, ok, err, and_then-eq-ok,
  reject_if, reject_if-eq-ok, str_eq, ltb, ◌==◌, if-cases, arith,
}
use relswap.External.{External}
use relswap.Release.Error.{ReleaseError, max_uncompressed_size, max_member_size}
use relswap.Release.Manifest.{ReleaseAsset}
use relswap.Release.Archive.Names.{validate_member_name}
use relswap.Release.Archive.Member.{Found, add_name}
use relswap.Release.Archive.Zip.{
  ZipEntry, zip_file, zip_entry, zip_loop, read_zip_data, check_unix_mode,
}
use relswap.Release.Archive.Kept.{
  IsSound, accept_member-IsSound, add_name-IsSound, IsSound-seen, seen_same,
}

module _ {V : Type 0} (ext : External V) (asset : ReleaseAsset) (root : Str)
    (expected : Option Str) where
  zip_file-IsSound :
      (entry : ZipEntry) (path : Str) (found found' : Found)
      → IsSound ext asset root expected found
      → zip_file ext asset root expected entry path found ≡ ok found'
      → IsSound ext asset root expected found'
  unfolding zip_file
  zip_file-IsSound entry path found found' sound e =
      let total = found.total_uncompressed + entry.size in
      let (_, _, f1) = and_then-eq-ok (reject_if (str_eq path root) _) _ e in
      let (_, e2, f2) = and_then-eq-ok (reject_if (ltb max_uncompressed_size total) _) _ f1 in
      let small = reject_if-eq-ok _ _ e2 in
      let (bytes, _, f3) = and_then-eq-ok (read_zip_data entry.size entry.bytes) _ f2 in
      accept_member-IsSound ext asset root expected path bytes
        (record found { total_uncompressed = total })
        (record {
          payload_kept = sound.payload_kept;
          launcher_kept = sound.launcher_kept;
          within = ground arith;
          unique = sound.unique;
          inside = sound.inside;
        })
        found' f3

  zip_entry-IsSound :
      (entry : ZipEntry) (found found' : Found)
      → IsSound ext asset root expected found
      → zip_entry ext asset root expected entry found ≡ ok found'
      → IsSound ext asset root expected found'
  unfolding zip_entry
  zip_entry-IsSound entry before found' sound e =
      let (path, e1, f1) = and_then-eq-ok (validate_member_name entry.name_raw root) _ e in
      let (found, e2, f2) = and_then-eq-ok (add_name path before) _ f1 in
      let named =
        add_name-IsSound ext asset root expected entry.name_raw path before found sound e1 e2 in
      let (_, _, f3) = and_then-eq-ok (reject_if entry.encrypted _) _ f2 in
      let (_, _, f4) = and_then-eq-ok (reject_if (not entry.stored_or_deflated) _) _ f3 in
      let (_, _, f5) = and_then-eq-ok (reject_if entry.is_symlink _) _ f4 in
      let (_, _, f6) = and_then-eq-ok (check_unix_mode entry.unix_mode entry.is_dir) _ f5 in
      let (_, _, f7) = and_then-eq-ok (reject_if (ltb max_member_size entry.size) _) _ f6 in
      elim (if-cases entry.is_dir _ (zip_file ext asset root expected entry path found) f7) [
        | inl (_, d) ↦
            rw (← seen_same (not (entry.size == 0)) _ _ found' d)
              (IsSound-seen ext asset root expected found _ named)
        | inr (_, d) ↦ zip_file-IsSound entry path found found' named d
      ]

  pub next_entry :
      (r : Result ReleaseError Found) (entries : List ZipEntry) (found' : Found)
      → (elim r [ err e ↦ err e | ok f ↦ zip_loop ext asset root expected entries f ]) ≡ ok found'
      → (f : Found) × (r ≡ ok f) × (zip_loop ext asset root expected entries f ≡ ok found')
  next_entry (err e) entries found' h = cc
  next_entry (ok f) entries found' h = (f, refl, h)

  -- Whatever the entries are, an archive that is read to its end was sound throughout.
  pub zip_loop-IsSound :
      (entries : List ZipEntry) (found found' : Found)
      → IsSound ext asset root expected found
      → zip_loop ext asset root expected entries found ≡ ok found'
      → IsSound ext asset root expected found'
  unfolding zip_loop
  zip_loop-IsSound [] found found' sound e =
      let same : found ≡ found' = ground (arith, e) in rw (← same) sound
  zip_loop-IsSound (entry ∷ entries) found found' sound e =
      let (f, e1, e2) =
        next_entry (zip_entry ext asset root expected entry found) entries found' e in
      zip_loop-IsSound entries f found' (zip_entry-IsSound entry found f sound e1) e2
