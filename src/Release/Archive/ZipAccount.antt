-- ===== src/Release/Archive/ZipAccount.antt =====
-- What a ZIP archive that is read to its end has to have been, whatever its entries: the account of the
-- names and the sizes of all entries (`inspect_zip`, src/release/archive.rs).
use relswap.Base.{
  ℕ, ◌+◌, ◌≤◌, Str, Bool, true, false, not, ◌||◌, ◌≡◌, refl, sym, ap, ◌∙◌, inl, inr, Option, none,
  some, List, [], ◌∷◌, Result, ok, err, and_then-eq-ok, reject_if, str_eq, ltb, ◌==◌, if-cases, any,
  all, split_on, starts_with, contains_str, contains_byte, text, is_empty, length, if◌then◌else◌,
  arith,
}
use mathlib.Core.Path.{subst}
use relswap.External.{External}
use relswap.Release.Error.{
  ReleaseError, max_uncompressed_size, max_member_size, max_archive_member_name, verify_bytes,
}
use relswap.Release.Manifest.{ReleaseAsset, is_unsafe_part}
use relswap.Release.Archive.Names.{
  validate_member_name, without_trailing_slash, is_utf8, first_part,
}
use relswap.Release.Archive.Member.{
  Found, nothing_found, expected_member, store_member, accept_member, add_name,
}
use relswap.Release.Archive.Zip.{
  ZipEntry, zip_file, zip_entry, zip_loop, read_zip_data, check_unix_mode,
}
use relswap.Release.Archive.Kept.{nothing_found-IsSound, is_inside, distinct}
use relswap.Release.Archive.ZipKept.{zip_loop-IsSound, next_entry}

-- The path that an entry names, and the bytes that it takes up.
abbrev pub member_path : ZipEntry → Str
member_path entry = without_trailing_slash entry.name_raw

abbrev pub file_size : ZipEntry → ℕ
file_size entry = if entry.is_dir then 0 else entry.size

-- The paths of the entries, the last first, before the ones that are given.
abbrev pub paths_before : List ZipEntry → List Str → List Str
paths_before [] names = names
paths_before (entry ∷ entries) names = paths_before entries (member_path entry ∷ names)

abbrev pub total_size : List ZipEntry → ℕ
total_size [] = 0
total_size (entry ∷ entries) = file_size entry + total_size entries

-- One step of the account.
record IsCounted (before after : Found) (path : Str) (size : ℕ) : Type 0 where
  names : after.names ≡ path ∷ before.names
  total : after.total_uncompressed ≡ before.total_uncompressed + size

ok_same : {A : Type 0} (a b : A) → ◌≡◌ {A = Result ReleaseError A} (ok a) (ok b) → a ≡ b
ok_same a b e = ground arith

validate_member_name-same :
    (raw root path : Str)
    → validate_member_name raw root ≡ ok path
    → without_trailing_slash raw ≡ path
unfolding validate_member_name
validate_member_name-same raw root path e =
    let p = without_trailing_slash raw in
    let parts = split_on b'/' p in
    let (_, _, f1) =
      and_then-eq-ok
        (reject_if
          (is_empty raw
            || ltb max_archive_member_name (length raw)
            || contains_byte 0 raw
            || contains_byte 92 raw)
          _)
        _ e in
    let (_, _, f2) = and_then-eq-ok (reject_if (not (is_utf8 raw)) _) _ f1 in
    let (_, _, f3) = and_then-eq-ok (reject_if (starts_with (text "/") raw) _) _ f2 in
    let (_, _, f4) =
      and_then-eq-ok
        (reject_if (is_empty p || contains_str (text "//") p || any is_unsafe_part parts) _) _ f3 in
    let (_, _, f5) =
      and_then-eq-ok
        (reject_if
          (contains_byte b':' (first_part parts)
            || not (str_eq (first_part parts) root)
            || any (contains_byte b':') parts)
          _)
        _ f4 in
    ok_same p path f5

-- Keeping a member changes neither the names nor the total.
accept_member-same :
    {V : Type 0} (ext : External V) (o : Option (ℕ × Str × Bool)) (path bytes : Str)
    (found found' : Found)
    → accept_member ext o path bytes found ≡ ok found'
    → (found'.names ≡ found.names) × (found'.total_uncompressed ≡ found.total_uncompressed)
unfolding accept_member store_member
accept_member-same ext none path bytes found found' e =
    let same = ok_same found found' e in
    (ap (λ (f : Found). f.names) (sym same), ap (λ (f : Found). f.total_uncompressed) (sym same))
accept_member-same ext (some (size, hash, true)) path bytes found found' e =
    let (_, _, f) = and_then-eq-ok (verify_bytes ext bytes size hash) _ e in
    let same =
      ok_same (record found { payload = some (record { path = path; bytes = bytes }) }) found' f in
    (ap (λ (f : Found). f.names) (sym same), ap (λ (f : Found). f.total_uncompressed) (sym same))
accept_member-same ext (some (size, hash, false)) path bytes found found' e =
    let (_, _, f) = and_then-eq-ok (verify_bytes ext bytes size hash) _ e in
    let same =
      ok_same (record found { launcher = some (record { path = path; bytes = bytes }) }) found' f in
    (ap (λ (f : Found). f.names) (sym same), ap (λ (f : Found). f.total_uncompressed) (sym same))

module _ {V : Type 0} (ext : External V) (asset : ReleaseAsset) (root : Str)
    (expected : Option Str) where
  zip_file-counted :
      (entry : ZipEntry) (path : Str) (found found' : Found)
      → zip_file ext asset root expected entry path found ≡ ok found'
      → (found'.names ≡ found.names)
        × (found'.total_uncompressed ≡ found.total_uncompressed + entry.size)
  unfolding zip_file
  zip_file-counted entry path found found' e =
      let total = found.total_uncompressed + entry.size in
      let (_, _, f1) = and_then-eq-ok (reject_if (str_eq path root) _) _ e in
      let (_, _, f2) = and_then-eq-ok (reject_if (ltb max_uncompressed_size total) _) _ f1 in
      let (bytes, _, f3) = and_then-eq-ok (read_zip_data entry.size entry.bytes) _ f2 in
      accept_member-same ext (expected_member asset expected path) path bytes
        (record found { total_uncompressed = total }) found' f3

  directory_counted :
      (b : Bool) (error : ReleaseError) (found found' : Found) (seen : Bool)
      → relswap.Base.and_then (reject_if b error) (λ _. ok (record found { root_seen = seen }))
        ≡ ok found'
      → (found'.names ≡ found.names) × (found'.total_uncompressed ≡ found.total_uncompressed)
  directory_counted b error found found' seen e =
      let (_, _, f) = and_then-eq-ok (reject_if b error) _ e in
      let same = ok_same (record found { root_seen = seen }) found' f in
      (ap (λ (f : Found). f.names) (sym same), ap (λ (f : Found). f.total_uncompressed) (sym same))

  zip_entry-IsCounted :
      (entry : ZipEntry) (before after : Found)
      → zip_entry ext asset root expected entry before ≡ ok after
      → IsCounted before after (member_path entry) (file_size entry)
  unfolding zip_entry add_name
  zip_entry-IsCounted entry before after e =
      let (path, e1, f1) = and_then-eq-ok (validate_member_name entry.name_raw root) _ e in
      let (found, e2, f2) = and_then-eq-ok (add_name path before) _ f1 in
      let (_, _, g) = and_then-eq-ok (reject_if (any (str_eq path) before.names) _) _ e2 in
      let added = ok_same (record before { names = path ∷ before.names }) found g in
      let named = validate_member_name-same entry.name_raw root path e1 in
      let (_, _, f3) = and_then-eq-ok (reject_if entry.encrypted _) _ f2 in
      let (_, _, f4) = and_then-eq-ok (reject_if (not entry.stored_or_deflated) _) _ f3 in
      let (_, _, f5) = and_then-eq-ok (reject_if entry.is_symlink _) _ f4 in
      let (_, _, f6) = and_then-eq-ok (check_unix_mode entry.unix_mode entry.is_dir) _ f5 in
      let (_, _, f7) = and_then-eq-ok (reject_if (ltb max_member_size entry.size) _) _ f6 in
      let names : found.names ≡ member_path entry ∷ before.names =
        ap (λ (f : Found). f.names) (sym added) ∙ ap (λ p. p ∷ before.names) (sym named) in
      let total : found.total_uncompressed ≡ before.total_uncompressed =
        ap (λ (f : Found). f.total_uncompressed) (sym added) in
      elim (if-cases entry.is_dir _ (zip_file ext asset root expected entry path found) f7) [
        | inl (is, d) ↦
            let (a, b) = directory_counted (not (entry.size == 0)) _ found after _ d in
            record { names = a ∙ names; total = rw is (omega (arith, b, total)) }
        | inr (is, d) ↦
            let (a, b) = zip_file-counted entry path found after d in
            record { names = a ∙ names; total = rw is (omega (arith, b, total)) }
      ]

  zip_loop-counted :
      (entries : List ZipEntry) (found found' : Found)
      → zip_loop ext asset root expected entries found ≡ ok found'
      → (found'.names ≡ paths_before entries found.names)
        × (found'.total_uncompressed ≡ found.total_uncompressed + total_size entries)
  unfolding zip_loop
  zip_loop-counted [] found found' e =
      let same = ok_same found found' e in
      (
        ap (λ (f : Found). f.names) (sym same),
        ap (λ (f : Found). f.total_uncompressed) (sym same) ∙ omega arith,
      )
  zip_loop-counted (entry ∷ entries) found found' e =
      let (f, e1, e2) =
        next_entry ext asset root expected (zip_entry ext asset root expected entry found) entries
          found' e in
      let step = zip_entry-IsCounted entry found f e1 in
      let (a, b) = zip_loop-counted entries f found' e2 in
      (a ∙ ap (paths_before entries) step.names, omega (arith, b, step.total))

  -- If the member loop of the ZIP reader ends without an error, the sizes of all file entries add up to at
  -- most the uncompressed limit, no two entries name the same path, and every path stays below the
  -- canonical root.
  pub zip_loop-within :
      (entries : List ZipEntry) (found : Found)
      → zip_loop ext asset root expected entries nothing_found ≡ ok found
      → (total_size entries ≤ max_uncompressed_size)
        × (distinct (paths_before entries []) ≡ true)
        × (all (is_inside root) (paths_before entries []) ≡ true)
  zip_loop-within entries found e =
      let sound =
        zip_loop-IsSound ext asset root expected entries nothing_found found
          (nothing_found-IsSound ext asset root expected) e in
      let (names, total) = zip_loop-counted entries nothing_found found e in
      (
        omega (arith, sound.within, total),
        subst (λ l. distinct l ≡ true) names sound.unique,
        subst (λ l. all (is_inside root) l ≡ true) names sound.inside,
      )
