-- ===== src/Release/Archive/TarKept.antt =====
-- The loop of the tar reader keeps what `Kept` says, and uses up its stream (`inspect_tar_gz`,
-- src/release/archive.rs).
use relswap.Base.{
  ℕ, ◌+◌, ◌-◌, ◌%◌, ◌≤◌, Str, String, Bool, true, false, not, ◌&&◌, ◌||◌, ◌≡◌, ap, inl, inr, Option,
  none, Result, ok, ok_or, and_then, and_then-eq-ok, reject_if, reject_if-eq-ok, str_eq, length,
  length-drop, ltb, leb, ◌==◌, if-cases, arith, is_some, all_bytes,
}
use relswap.External.{External}
use relswap.Release.Error.{
  ReleaseError, max_uncompressed_size, max_member_size, max_archive_members, max_tar_metadata_size,
}
use relswap.Release.Manifest.{ReleaseAsset}
use relswap.Release.Archive.Names.{validate_member_name}
use relswap.Release.Archive.Member.{Found, expected_member, accept_member, add_name}
use relswap.Release.Archive.Pax.{pax_overrides}
use relswap.Release.Archive.Tar.{
  EntryKind, file, dir, gnu_longname, gnu_longlink, pax_local, pax_global, unsupported, TarHeader,
  Reader, TarState, read_exact, read_padding, read_member_data, read_tar_record, lacks_execute,
  pending_overrides, is_unsupported, ends_with_slash, is_dir, keep_metadata, read_file, read_entry,
  read_metadata, read_block, is_zero, is_metadata, validate_tar_checksum, own_or, get_or,
  raw_path_of,
}
use relswap.Release.Archive.Kept.{IsSound, accept_member-IsSound, add_name-IsSound, IsSound-seen}

module _ {A : Type 0} where
  ok_same : (a b : A) → ◌≡◌ {A = Result ReleaseError A} (ok a) (ok b) → a ≡ b
  ok_same a b e = ground arith

module _ {A B : Type 0} where
  ok_pair :
      (a c : A) (b d : B)
      → ◌≡◌ {A = Result ReleaseError (A × B)} (ok (a, b)) (ok (c, d))
      → (a ≡ c) × (b ≡ d)
  ok_pair a c b d e = ground arith

-- What is left after a read, is not more than before.
pub read_exact_left :
    (n : ℕ) (message : String) (r r' : Reader) (bytes : Str)
    → read_exact n message r ≡ ok (bytes, r')
    → (n ≤ length r.left) × (length r'.left + n ≡ length r.left)
unfolding read_exact
read_exact_left n message r r' bytes e = ground (arith, length-drop n r.left)

read_padding_left :
    (size : ℕ) (r r' : Reader) → read_padding size r ≡ ok r' → length r'.left ≤ length r.left
unfolding read_padding
read_padding_left size r r' e =
    let ((padding, s), e1, f1) =
      and_then-eq-ok (read_exact ((512 - size % 512) % 512) "truncated tar padding" r) _ e in
    let (_, _, f2) = and_then-eq-ok (reject_if (not (all_bytes is_zero padding)) _) _ f1 in
    let same : s ≡ r' = ok_same s r' f2 in
    rw (← same) (omega (arith, read_exact_left _ "truncated tar padding" r s padding e1))

read_member_data_left :
    (size : ℕ) (r r' : Reader) (bytes : Str)
    → read_member_data size r ≡ ok (bytes, r')
    → length r'.left ≤ length r.left
unfolding read_member_data
read_member_data_left size r r' bytes e =
    let (_, _, f1) = and_then-eq-ok (reject_if (ltb max_member_size size) _) _ e in
    omega
      (arith, read_exact_left size "member actual size differs from declared size" r r' bytes f1)

read_tar_record_left :
    (size : ℕ) (r r' : Reader) (bytes : Str)
    → read_tar_record size r ≡ ok (bytes, r')
    → length r'.left ≤ length r.left
unfolding read_tar_record
read_tar_record_left size r r' bytes e =
    let ((b, s), e1, f1) = and_then-eq-ok (read_member_data size r) _ e in
    let (t, e2, f2) = and_then-eq-ok (read_padding size s) _ f1 in
    let same : t ≡ r' = ap (λ (x : Str × Reader). x.1) (ok_same (b, t) (bytes, r') f2) in
    rw (← same) (omega (arith, read_member_data_left size r s b e1, read_padding_left size s t e2))

keep_metadata-found :
    (kind : EntryKind) (bytes : Str) (s s' : TarState)
    → keep_metadata kind bytes s ≡ ok s'
    → s.found ≡ s'.found
unfolding keep_metadata
keep_metadata-found gnu_longname bytes s s' e =
    let (_, _, f1) = and_then-eq-ok (reject_if (is_some s.long_name) _) _ e in
    ap (λ (x : TarState). x.found) (ok_same _ s' f1)
keep_metadata-found gnu_longlink bytes s s' e =
    let (_, _, f1) = and_then-eq-ok (reject_if (is_some s.long_link) _) _ e in
    ap (λ (x : TarState). x.found) (ok_same _ s' f1)
keep_metadata-found pax_local bytes s s' e =
    let (_, _, f1) = and_then-eq-ok (pax_overrides bytes) _ e in
    let (_, _, f2) = and_then-eq-ok (reject_if (is_some s.pending_pax) _) _ f1 in
    ap (λ (x : TarState). x.found) (ok_same _ s' f2)
keep_metadata-found pax_global bytes s s' e =
    let (_, _, f1) = and_then-eq-ok (pax_overrides bytes) _ e in
    ap (λ (x : TarState). x.found) (ok_same _ s' f1)
keep_metadata-found file bytes s s' e = ap (λ (x : TarState). x.found) (ok_same s s' e)
keep_metadata-found dir bytes s s' e = ap (λ (x : TarState). x.found) (ok_same s s' e)
keep_metadata-found unsupported bytes s s' e = ap (λ (x : TarState). x.found) (ok_same s s' e)

module _ {V : Type 0} (ext : External V) (asset : ReleaseAsset) (root : Str)
    (expected : Option Str) where
  carry :
      (n : ℕ) (g found' : Found) (t r' : Reader)
      → ◌≡◌ {A = Result ReleaseError (Found × Reader)} (ok (g, t)) (ok (found', r'))
      → IsSound ext asset root expected g
      → length t.left ≤ n
      → IsSound ext asset root expected found' × (length r'.left ≤ n)
  carry n g found' t r' e sound left =
      let (p, q) = ok_pair g found' t r' e in (rw (← p) sound, rw (← q) left)

  carry_state :
      (n : ℕ) (g s' : TarState) (t r' : Reader)
      → ◌≡◌ {A = Result ReleaseError (TarState × Reader)} (ok (g, t)) (ok (s', r'))
      → IsSound ext asset root expected g.found
      → length t.left ≤ n
      → IsSound ext asset root expected s'.found × (length r'.left ≤ n)
  carry_state n g s' t r' e sound left =
      let (p, q) = ok_pair g s' t r' e in (rw (← p) sound, rw (← q) left)

  read_file-IsSound :
      (header : TarHeader) (path : Str) (size : ℕ) (r : Reader) (found : Found) (found' : Found)
      (r' : Reader)
      → IsSound ext asset root expected found
      → read_file ext asset root expected header path size r found ≡ ok (found', r')
      → IsSound ext asset root expected found' × (length r'.left ≤ length r.left)
  unfolding read_file
  read_file-IsSound header path size r found found' r' sound e =
      let total = found.total_uncompressed + size in
      let (_, _, f1) = and_then-eq-ok (reject_if (str_eq path root) _) _ e in
      let (_, e2, f2) = and_then-eq-ok (reject_if (ltb max_uncompressed_size total) _) _ f1 in
      let small = reject_if-eq-ok _ _ e2 in
      let ((bytes, s), e3, f3) = and_then-eq-ok (read_member_data size r) _ f2 in
      let (t, e4, f4) = and_then-eq-ok (read_padding size s) _ f3 in
      let (_, _, f5) =
        and_then-eq-ok (reject_if (lacks_execute (expected_member asset expected path) header) _) _
          f4 in
      let (g, e6, f6) =
        and_then-eq-ok
          (accept_member ext (expected_member asset expected path) path bytes
            (record found { total_uncompressed = total }))
          _ f5 in
      let left : length t.left ≤ length r.left =
        omega (arith, read_member_data_left size r s bytes e3, read_padding_left size s t e4) in
      carry (length r.left) g found' t r' f6
        (accept_member-IsSound ext asset root expected path bytes
          (record found { total_uncompressed = total })
          (record {
            payload_kept = sound.payload_kept;
            launcher_kept = sound.launcher_kept;
            within = ground arith;
            unique = sound.unique;
            inside = sound.inside;
          })
          g e6)
        left

  -- A round leaves the members sound and reads on.
  abbrev pub Round : Result ReleaseError (TarState × Reader) → Reader → Type 0
  Round o r =
      (s' : TarState) (r' : Reader)
      → o ≡ ok (s', r')
      → IsSound ext asset root expected s'.found × (length r'.left ≤ length r.left)

  entry_end :
      (header : TarHeader) (path : Str) (size : ℕ) (r r' : Reader) (s : TarState) (s' : TarState)
      → IsSound ext asset root expected s.found
      → (and_then {B = TarState × Reader}
          (read_file ext asset root expected header path size r s.found)
          λ (found, rest). ok (record s { found = found }, rest))
        ≡ ok (s', r')
      → IsSound ext asset root expected s'.found × (length r'.left ≤ length r.left)
  entry_end header path size r r' s s' sound e =
      let ((g, t), e1, f1) =
        and_then-eq-ok (read_file ext asset root expected header path size r s.found) _ e in
      let (x, left) = read_file-IsSound header path size r s.found g t sound e1 in
      carry_state (length r.left) (record s { found = g }) s' t r' f1 x left

  dir_end :
      (b : Bool) (e : ReleaseError) (r r' : Reader) (s s' : TarState)
      → IsSound ext asset root expected s.found
      → and_then {B = TarState × Reader} (reject_if b e) (λ _. ok (s, r)) ≡ ok (s', r')
      → IsSound ext asset root expected s'.found × (length r'.left ≤ length r.left)
  dir_end true e r r' s s' sound h = cc
  dir_end false e r r' s s' sound h = carry_state (length r.left) s s' r r' h sound (omega arith)

  read_entry-IsSound :
      (header : TarHeader) (size : ℕ) (r : Reader) (s : TarState)
      → IsSound ext asset root expected s.found
      → Round (read_entry ext asset root expected header size r s) r
  unfolding read_entry
  read_entry-IsSound header size r s sound s' r' e =
      let (pax, _, f1) = and_then-eq-ok (pending_overrides s.pending_pax) _ e in
      let declared = get_or (own_or pax.size s.global_pax.size) size in
      let raw = raw_path_of s.long_name (own_or pax.path s.global_pax.path) header.path in
      let (path, e2, f2) = and_then-eq-ok (validate_member_name raw root) _ f1 in
      let (found, e3, f3) = and_then-eq-ok (add_name path s.found) _ f2 in
      let named = add_name-IsSound ext asset root expected raw path s.found found sound e2 e3 in
      let (_, _, f4) = and_then-eq-ok (reject_if (is_unsupported header.kind) _) _ f3 in
      let (_, _, f5) =
        and_then-eq-ok (reject_if (ends_with_slash raw && not (is_dir header.kind)) _) _ f4 in
      let (_, _, f6) = and_then-eq-ok (reject_if (ltb max_member_size declared) _) _ f5 in
      let after : TarState = record s {
        found = found;
        long_name = none;
        long_link = none;
        pending_pax = none;
        index = s.index + 1;
      } in
      elim (if-cases (is_dir header.kind) _ _ f6) [
        | inl (_, d) ↦
            dir_end (not (declared == 0)) _ r r' _ s'
              (IsSound-seen ext asset root expected found (found.root_seen || str_eq path root)
                named)
              d
        | inr (_, d) ↦ entry_end header path declared r r' after s' named d
      ]

  read_metadata-IsSound :
      (header : TarHeader) (size : ℕ) (r : Reader) (s : TarState)
      → IsSound ext asset root expected s.found
      → Round (read_metadata ext asset root expected header size r s) r
  unfolding read_metadata
  read_metadata-IsSound header size r s sound s' r' e =
      let (_, _, f1) = and_then-eq-ok (reject_if (ltb max_tar_metadata_size size) _) _ e in
      let ((bytes, t), e2, f2) = and_then-eq-ok (read_tar_record size r) _ f1 in
      let (g, e3, f3) = and_then-eq-ok (keep_metadata header.kind bytes s) _ f2 in
      carry_state (length r.left) g s' t r' f3
        (rw (← keep_metadata-found header.kind bytes s g e3) sound)
        (read_tar_record_left size r t bytes e2)

  pub read_block-IsSound :
      (header : TarHeader) (block : Str) (r : Reader) (s : TarState)
      → IsSound ext asset root expected s.found
      → Round (read_block ext asset root expected header block r s) r
  unfolding read_block
  read_block-IsSound header block r s sound s' r' e =
      let (_, _, f1) = and_then-eq-ok (reject_if (leb max_archive_members s.index) _) _ e in
      let (_, _, f2) = and_then-eq-ok (validate_tar_checksum header block) _ f1 in
      let (size, _, f3) = and_then-eq-ok (ok_or header.size _) _ f2 in
      elim (if-cases (is_metadata header.kind) _ _ f3) [
        | inl (_, d) ↦ read_metadata-IsSound header size r s sound s' r' d
        | inr (_, d) ↦ read_entry-IsSound header size r s sound s' r' d
      ]
