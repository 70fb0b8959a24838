-- ===== src/Release/Archive/Kept.antt =====
-- What an archive reader keeps true of the members it has seen (`inspect_tar_gz`, `inspect_zip`,
-- src/release/archive.rs).
use relswap.Base.{
  ℕ, ◌≤◌, Str, Bool, true, false, not, ◌&&◌, ◌||◌, ◌≡◌, refl, inl, inr, Option, none, some, List,
  [], ◌∷◌, Result, ok, and_then, and_then-eq-ok, reject_if, reject_if-eq-ok, str_eq, str_eq_iff,
  length, any, all, ltb, ◌==◌, ==→eq, split_on, starts_with, contains_str, contains_byte, text,
  is_empty, Option-cases, arith,
}
use relswap.External.{External}
use relswap.Release.Error.{
  ReleaseError, verify_bytes, max_uncompressed_size, max_archive_member_name,
}
use relswap.Release.Manifest.{ReleaseAsset, LauncherInfo, is_unsafe_part}
use relswap.Release.Archive.Names.{
  first_part, validate_member_name, is_utf8, without_trailing_slash,
}
use relswap.Release.Archive.Member.{
  VerifiedMember, Found, nothing_found, expected_member, store_member, accept_member, add_name,
}

-- The path stays below `root`: its first component is `root`, no component is empty, `.` or `..`, and
-- none has a colon.
abbrev pub is_inside : Str → Str → Bool
is_inside root path =
    str_eq (first_part (split_on b'/' path)) root
    && not (any is_unsafe_part (split_on b'/' path))
    && not (any (contains_byte b':') (split_on b'/' path))

abbrev pub distinct : List Str → Bool
distinct [] = true
distinct (x ∷ xs) = not (any (str_eq x) xs) && distinct xs

ok_same : (a b : Str) → ◌≡◌ {A = Result ReleaseError Str} (ok a) (ok b) → a ≡ b
ok_same a b e = ground arith

safe_parts :
    (a b unsafe c named d : Bool)
    → (a || b || unsafe) ≡ false
    → (c || not named || d) ≡ false
    → (named && not unsafe && not d) ≡ true
safe_parts a b unsafe c named d x y = ground arith

module _ {V : Type 0} (ext : External V) where
  -- The bytes have this size and this digest.
  pub record HasDigest (bytes : Str) (size : ℕ) (sha256 : Str) : Type 0 where
    pub sized : length bytes ≡ size
    pub digested : ext.sha256_bytes bytes ≡ sha256

  pub verify_bytes-HasDigest :
      (bytes : Str) (size : ℕ) (sha256 : Str)
      → verify_bytes ext bytes size sha256 ≡ ok tt
      → HasDigest bytes size sha256
  unfolding verify_bytes
  verify_bytes-HasDigest bytes size sha256 e =
      let (_, e1, f1) = and_then-eq-ok (reject_if (not (length bytes == size)) _) _ e in
      record {
        sized = ==→eq (length bytes) size (ground (arith, reject_if-eq-ok _ _ e1));
        digested = (str_eq_iff _ _).0 (ground (arith, reject_if-eq-ok _ _ f1));
      }

  -- A member that was kept is the one that the asset describes.
  abbrev pub KeptPayload : ReleaseAsset → Option VerifiedMember → Type 0
  KeptPayload asset none = Unit
  KeptPayload asset (some m) =
      (m.path ≡ asset.payload.path) × HasDigest m.bytes asset.payload.size asset.payload.sha256

  abbrev pub KeptLauncher : ReleaseAsset → Option Str → Option VerifiedMember → Type 0
  KeptLauncher asset expected none = Unit
  KeptLauncher asset expected (some m) =
      (l : LauncherInfo) × (asset.launcher ≡ some l)
      × (expected ≡ some m.path)
      × HasDigest m.bytes l.size l.sha256

  pub record IsSound (asset : ReleaseAsset) (root : Str) (expected : Option Str) (found : Found)
      : Type 0 where
    pub payload_kept : KeptPayload asset found.payload
    pub launcher_kept : KeptLauncher asset expected found.launcher
    pub within : found.total_uncompressed ≤ max_uncompressed_size
    pub unique : distinct found.names ≡ true
    pub inside : all (is_inside root) found.names ≡ true

  module _ (asset : ReleaseAsset) (root : Str) (expected : Option Str) where
    pub nothing_found-IsSound : IsSound asset root expected nothing_found
    nothing_found-IsSound = record {
      payload_kept = tt;
      launcher_kept = tt;
      within = omega arith;
      unique = refl;
      inside = refl;
    }

    expected-payload :
        (path : Str) (size : ℕ) (hash : Str)
        → expected_member asset expected path ≡ some (size, hash, true)
        → (path ≡ asset.payload.path) × (size ≡ asset.payload.size) × (hash ≡ asset.payload.sha256)
    unfolding expected_member
    expected-payload path size hash e = ground (arith, str_eq_iff path asset.payload.path)

    expected-launcher :
        (path : Str) (size : ℕ) (hash : Str)
        → expected_member asset expected path ≡ some (size, hash, false)
        → (l : LauncherInfo) × (asset.launcher ≡ some l)
          × (expected ≡ some path)
          × (size ≡ l.size)
          × (hash ≡ l.sha256)
    unfolding expected_member
    expected-launcher path size hash e = elim (Option-cases expected) [
      | inl n ↦ absurd (ground (arith, e, n))
      | inr (p, known) ↦ elim (Option-cases asset.launcher) [
        | inl n ↦ absurd (ground (arith, e, known, n))
        | inr (l, is) ↦ (
          l,
          is,
          ground (arith, e, known, is, str_eq_iff p path),
          ground (arith, e, known, is),
          ground (arith, e, known, is),
        )
      ]
    ]

    module _ (path : Str) (bytes : Str) (found : Found)
        (sound : IsSound asset root expected found) where
      kept :
          (size : ℕ) (hash : Str) (is_payload : Bool)
          → expected_member asset expected path ≡ some (size, hash, is_payload)
          → HasDigest bytes size hash
          → IsSound asset root expected
              (store_member found is_payload (record { path = path; bytes = bytes }))
      unfolding store_member
      kept size hash true e x =
          let (a, b, c) = expected-payload path size hash e in
          record {
            payload_kept = (a, rw (← b, ← c) x);
            launcher_kept = sound.launcher_kept;
            within = sound.within;
            unique = sound.unique;
            inside = sound.inside;
          }
      kept size hash false e x =
          let (l, a, b, c, d) = expected-launcher path size hash e in
          record {
            payload_kept = sound.payload_kept;
            launcher_kept = (l, a, b, rw (← c, ← d) x);
            within = sound.within;
            unique = sound.unique;
            inside = sound.inside;
          }

      accepted :
          (o : Option (ℕ × Str × Bool)) (found' : Found)
          → expected_member asset expected path ≡ o
          → accept_member ext o path bytes found ≡ ok found'
          → IsSound asset root expected found'
      unfolding accept_member
      accepted none found' e f = let same : found ≡ found' = ground (arith, f) in rw (← same) sound
      accepted (some (size, hash, is_payload)) found' e f =
          let (_, e1, f1) = and_then-eq-ok (verify_bytes ext bytes size hash) _ f in
          let same : store_member found is_payload (record { path = path; bytes = bytes })
              ≡ found' =
            ground (arith, f1) in
          rw (← same) (kept size hash is_payload e (verify_bytes-HasDigest bytes size hash e1))

      -- A member is kept only with the size and the digest that the asset gives for its path.
      pub accept_member-IsSound :
          (found' : Found)
          → accept_member ext (expected_member asset expected path) path bytes found ≡ ok found'
          → IsSound asset root expected found'
      accept_member-IsSound found' f = accepted (expected_member asset expected path) found' refl f

    pub validate_member_name-is_inside :
        (raw path : Str) → validate_member_name raw root ≡ ok path → is_inside root path ≡ true
    unfolding validate_member_name
    validate_member_name-is_inside raw path e =
        let p = without_trailing_slash raw in
        let parts = split_on b'/' p in
        let (_, e1, f1) =
          and_then-eq-ok
            (reject_if
              (is_empty raw
                || ltb max_archive_member_name (length raw)
                || contains_byte 0 raw
                || contains_byte 92 raw)
              _)
            _ e in
        let (_, e2, f2) = and_then-eq-ok (reject_if (not (is_utf8 raw)) _) _ f1 in
        let (_, e3, f3) = and_then-eq-ok (reject_if (starts_with (text "/") raw) _) _ f2 in
        let (_, e4, f4) =
          and_then-eq-ok
            (reject_if (is_empty p || contains_str (text "//") p || any is_unsafe_part parts) _) _
            f3 in
        let (_, e5, f5) =
          and_then-eq-ok
            (reject_if
              (contains_byte b':' (first_part parts)
                || not (str_eq (first_part parts) root)
                || any (contains_byte b':') parts)
              _)
            _ f4 in
        let same : p ≡ path = ok_same p path f5 in
        rw (← same) (
          safe_parts (is_empty p) (contains_str (text "//") p) _
            (contains_byte b':' (first_part parts)) _ _ (reject_if-eq-ok _ _ e4)
            (reject_if-eq-ok _ _ e5))

    pub add_name-IsSound :
        (raw path : Str) (found found' : Found)
        → IsSound asset root expected found
        → validate_member_name raw root ≡ ok path
        → add_name path found ≡ ok found'
        → IsSound asset root expected found'
    unfolding add_name
    add_name-IsSound raw path found found' sound v e =
        let (_, e1, f1) = and_then-eq-ok (reject_if (any (str_eq path) found.names) _) _ e in
        let fresh = reject_if-eq-ok _ _ e1 in
        let same : record found { names = path ∷ found.names } ≡ found' = ground (arith, f1) in
        rw (← same) (record {
          payload_kept = sound.payload_kept;
          launcher_kept = sound.launcher_kept;
          within = sound.within;
          unique = rw fresh sound.unique;
          inside = rw (validate_member_name-is_inside raw path v) sound.inside;
        })

    pub IsSound-seen :
        (found : Found) (seen : Bool)
        → IsSound asset root expected found
        → IsSound asset root expected (record found { root_seen = seen })
    IsSound-seen found seen sound = record {
      payload_kept = sound.payload_kept;
      launcher_kept = sound.launcher_kept;
      within = sound.within;
      unique = sound.unique;
      inside = sound.inside;
    }

-- A directory member changes only whether the root was seen.
pub seen_same :
    (b : Bool) (e : ReleaseError) (x y : Found)
    → and_then (reject_if b e) (λ _. ok x) ≡ ok y
    → x ≡ y
seen_same true e x y h = cc
seen_same false e x y h = ground arith
