-- ===== src/Release/Manifest/Selected.antt =====
-- What a selected release asset is known to be (`ReleaseManifest::asset_for`,
-- src/release/manifest.rs).
use relswap.Base.{
  ℕ, Str, text, Bool, true, false, not, ◌||◌, ◌≡◌, ◌≢◌, ◌⊎◌, ap, sym, ◌∙◌, Option, none,
  contains_byte, starts_with, split_on, ==→eq, refl, ◌<◌, ◌≤◌, some, List, [], ◌∷◌, inl, inr,
  is_empty, Result, ok, ok_or, and_then-eq-ok, reject_if, reject_if-eq-ok, ok_or-eq-ok, str_eq,
  str_eq_iff, length, all_bytes, ltb, ◌==◌, Bool-cases, any, arith,
}
use relswap.External.{External}
use relswap.App.{App}
use relswap.Release.Error.{invalid, ReleaseError, max_archive_size, max_member_size}
use relswap.Release.Target
use relswap.Release.Target.{
  Target, target_eq, is_windows, all_targets, x86_64_unknown_linux_gnu, aarch64_unknown_linux_gnu,
  x86_64_apple_darwin, aarch64_apple_darwin, x86_64_pc_windows_msvc,
}
use relswap.Release.Manifest.{
  ReleaseAsset, LauncherInfo, is_unsafe_part, protocol_or_zero, ReleaseManifest, SelectedAsset,
  is_lower_hex, validate_size, validate_sha256, validate_basename, validate_member_path,
  validate_launcher, validate_asset, validate_targets, validate, get_target, asset_for,
  manifest_schema_version,
}

-- 64 lowercase hexadecimal characters.
pub record IsDigest (value : Str) : Type 0 where
  pub digits : length value ≡ 64
  pub lowercase : all_bytes is_lower_hex value ≡ true

-- A name of one component: not empty, not a dot name, without separators.
pub record IsPlainName (name : Str) : Type 0 where
  pub filled : name ≢ []
  pub not_here : name ≢ text "."
  pub not_parent : name ≢ text ".."
  pub without_slash : contains_byte b'/' name ≡ false
  pub without_backslash : contains_byte 92 name ≡ false
  pub without_nul : contains_byte 0 name ≡ false
  pub without_colon : contains_byte b':' name ≡ false

abbrev pub AllSafe : List Str → Type 0
AllSafe [] = Unit
AllSafe (part ∷ parts) = ((part ≢ []) × (part ≢ text ".") × (part ≢ text "..")) × AllSafe parts

-- A relative path with forward slashes, whose parts are neither empty nor dot names.
pub record IsPlainPath (path : Str) : Type 0 where
  pub relative : starts_with (text "/") path ≡ false
  pub without_backslash : contains_byte 92 path ≡ false
  pub without_nul : contains_byte 0 path ≡ false
  pub parts : AllSafe (split_on b'/' path)

-- The launcher that a Windows asset must have.
pub record IsLauncher {V : Type 0} (ext : External V) (app : App) (version : V) (target : Target)
    (payload_path : Str) (launcher : LauncherInfo) : Type 0 where
  pub path : Target.launcher_path ext target app version ≡ some launcher.path
  pub protocol :
      (Target.launcher_protocol target app ≡ some launcher.protocol)
      ⊎ ((Target.launcher_protocol target app ≡ none) × (launcher.protocol ≡ 0))
  pub plain : IsPlainPath launcher.path
  pub size : (0 < launcher.size) × (launcher.size ≤ max_member_size)
  pub sha256 : IsDigest launcher.sha256
  pub apart : launcher.path ≢ payload_path

-- A Windows asset has a launcher, and no other asset has one.
abbrev pub LauncherAsRequired :
    {V : Type 0} → External V → App → V → Target → Str → Bool → Option LauncherInfo → Type 0
LauncherAsRequired ext app version target payload_path true (some launcher) =
    IsLauncher ext app version target payload_path launcher
LauncherAsRequired ext app version target payload_path true none = ⊥
LauncherAsRequired ext app version target payload_path false (some launcher) = ⊥
LauncherAsRequired ext app version target payload_path false none = Unit

pub record IsCanonical {V : Type 0} (ext : External V) (app : App) (version : V) (target : Target)
    (asset : ReleaseAsset) : Type 0 where
  pub archive : asset.archive ≡ Target.archive_name ext target app version
  pub plain_archive : IsPlainName asset.archive
  pub archive_size : (0 < asset.archive_size) × (asset.archive_size ≤ max_archive_size)
  pub archive_sha256 : IsDigest asset.archive_sha256
  pub payload : asset.payload.path ≡ Target.payload_path ext target app version
  pub plain_payload : IsPlainPath asset.payload.path
  pub payload_size : (0 < asset.payload.size) × (asset.payload.size ≤ max_member_size)
  pub payload_sha256 : IsDigest asset.payload.sha256
  pub launcher :
      LauncherAsRequired ext app version target asset.payload.path
        (is_windows target)
        asset.launcher

validate_size-bounds :
    (size maximum : ℕ) → validate_size size maximum ≡ ok tt → (0 < size) × (size ≤ maximum)
unfolding validate_size
validate_size-bounds size maximum e =
    let (_, e1, f1) = and_then-eq-ok (reject_if (size == 0) _) _ e in
    let a = reject_if-eq-ok _ _ e1 in let b = reject_if-eq-ok _ _ f1 in (ground arith, ground arith)

validate_sha256-IsDigest : (value : Str) → validate_sha256 value ≡ ok tt → IsDigest value
unfolding validate_sha256
validate_sha256-IsDigest value e =
    let a = reject_if-eq-ok _ _ e in record { digits = ground arith; lowercase = ground arith }

same_text : (a b : Str) → not (str_eq a b) ≡ false → a ≡ b
same_text a b e = (str_eq_iff a b).0 (ground arith)

differs : (a b : Str) → str_eq a b ≡ false → a ≢ b
differs a b e same = absurd (ground (arith, e, (str_eq_iff a b).1 same))

filled_of : (a : Str) → is_empty a ≡ false → a ≢ []
filled_of a e same = absurd (ground (arith, e, same))

validate_basename-IsPlainName : (name : Str) → validate_basename name ≡ ok tt → IsPlainName name
unfolding validate_basename
validate_basename-IsPlainName name e =
    let a = reject_if-eq-ok _ _ e in
    record {
      filled = filled_of name (ground (arith, a));
      not_here = differs name (text ".") (ground (arith, a));
      not_parent = differs name (text "..") (ground (arith, a));
      without_slash = ground (arith, a);
      without_backslash = ground (arith, a);
      without_nul = ground (arith, a);
      without_colon = ground (arith, a);
    }

any-AllSafe : (parts : List Str) → any is_unsafe_part parts ≡ false → AllSafe parts
unfolding is_unsafe_part
any-AllSafe [] e = tt
any-AllSafe (part ∷ parts) e = (
  (
    filled_of part (ground (arith, e)),
    differs part (text ".") (ground (arith, e)),
    differs part (text "..") (ground (arith, e)),
  ),
  any-AllSafe parts (ground (arith, e)),
)

validate_member_path-IsPlainPath :
    (path : Str) → validate_member_path path ≡ ok tt → IsPlainPath path
unfolding validate_member_path
validate_member_path-IsPlainPath path e =
    let bad =
      is_empty path
      || starts_with (text "/") path
      || contains_byte 92 path
      || contains_byte 0 path
      || any is_unsafe_part (split_on b'/' path) in
    let (_, e1, _) = and_then-eq-ok (reject_if bad (invalid "noncanonical path")) _ e in
    let a = reject_if-eq-ok bad (invalid "noncanonical path") e1 in
    record {
      relative = ground (arith, a);
      without_backslash = ground (arith, a);
      without_nul = ground (arith, a);
      parts = any-AllSafe (split_on b'/' path) (ground (arith, a));
    }

protocol_of :
    (o : Option ℕ) (protocol : ℕ)
    → not (protocol == protocol_or_zero o) ≡ false
    → (o ≡ some protocol) ⊎ ((o ≡ none) × (protocol ≡ 0))
protocol_of none protocol e = inr (refl, ==→eq protocol 0 (ground (arith, e)))
protocol_of (some p) protocol e = inl (ap some (sym (==→eq protocol p (ground (arith, e)))))

target_eq→eq : (t u : Target) → target_eq t u ≡ true → t ≡ u
unfolding target_eq
target_eq→eq x86_64_unknown_linux_gnu x86_64_unknown_linux_gnu e = refl
target_eq→eq x86_64_unknown_linux_gnu aarch64_unknown_linux_gnu e = cc
target_eq→eq x86_64_unknown_linux_gnu x86_64_apple_darwin e = cc
target_eq→eq x86_64_unknown_linux_gnu aarch64_apple_darwin e = cc
target_eq→eq x86_64_unknown_linux_gnu x86_64_pc_windows_msvc e = cc
target_eq→eq aarch64_unknown_linux_gnu x86_64_unknown_linux_gnu e = cc
target_eq→eq aarch64_unknown_linux_gnu aarch64_unknown_linux_gnu e = refl
target_eq→eq aarch64_unknown_linux_gnu x86_64_apple_darwin e = cc
target_eq→eq aarch64_unknown_linux_gnu aarch64_apple_darwin e = cc
target_eq→eq aarch64_unknown_linux_gnu x86_64_pc_windows_msvc e = cc
target_eq→eq x86_64_apple_darwin x86_64_unknown_linux_gnu e = cc
target_eq→eq x86_64_apple_darwin aarch64_unknown_linux_gnu e = cc
target_eq→eq x86_64_apple_darwin x86_64_apple_darwin e = refl
target_eq→eq x86_64_apple_darwin aarch64_apple_darwin e = cc
target_eq→eq x86_64_apple_darwin x86_64_pc_windows_msvc e = cc
target_eq→eq aarch64_apple_darwin x86_64_unknown_linux_gnu e = cc
target_eq→eq aarch64_apple_darwin aarch64_unknown_linux_gnu e = cc
target_eq→eq aarch64_apple_darwin x86_64_apple_darwin e = cc
target_eq→eq aarch64_apple_darwin aarch64_apple_darwin e = refl
target_eq→eq aarch64_apple_darwin x86_64_pc_windows_msvc e = cc
target_eq→eq x86_64_pc_windows_msvc x86_64_unknown_linux_gnu e = cc
target_eq→eq x86_64_pc_windows_msvc aarch64_unknown_linux_gnu e = cc
target_eq→eq x86_64_pc_windows_msvc x86_64_apple_darwin e = cc
target_eq→eq x86_64_pc_windows_msvc aarch64_apple_darwin e = cc
target_eq→eq x86_64_pc_windows_msvc x86_64_pc_windows_msvc e = refl

module _ {V : Type 0} (ext : External V) (app : App) where
  validate_launcher-LauncherAsRequired :
      (version : V) (target : Target) (payload_path : Str) (windows : Bool)
      (launcher : Option LauncherInfo)
      → validate_launcher ext app version target payload_path windows launcher ≡ ok tt
      → LauncherAsRequired ext app version target payload_path windows launcher
  unfolding validate_launcher
  validate_launcher-LauncherAsRequired version target payload_path true none e = cc
  validate_launcher-LauncherAsRequired version target payload_path false (some l) e = cc
  validate_launcher-LauncherAsRequired version target payload_path false none e = tt
  validate_launcher-LauncherAsRequired version target payload_path true (some l) e =
      let (expected, e1, f1) =
        and_then-eq-ok (ok_or (Target.launcher_path ext target app version) _) _ e in
      let (_, e2, f2) = and_then-eq-ok (reject_if (not (str_eq l.path expected)) _) _ f1 in
      let (_, e3, f3) =
        and_then-eq-ok
          (reject_if (not (l.protocol == protocol_or_zero (Target.launcher_protocol target app))) _)
          _ f2 in
      let (_, e4, f4) = and_then-eq-ok (validate_member_path l.path) _ f3 in
      let (_, e5, f5) = and_then-eq-ok (validate_size l.size max_member_size) _ f4 in
      let (_, e6, f6) = and_then-eq-ok (validate_sha256 l.sha256) _ f5 in
      record {
        path =
            ok_or-eq-ok _ _ e1 ∙ ap some (sym (same_text l.path expected (reject_if-eq-ok _ _ e2)));
        protocol =
            protocol_of (Target.launcher_protocol target app) l.protocol (reject_if-eq-ok _ _ e3);
        plain = validate_member_path-IsPlainPath l.path e4;
        size = validate_size-bounds _ _ e5;
        sha256 = validate_sha256-IsDigest _ e6;
        apart = differs l.path payload_path (reject_if-eq-ok _ _ f6);
      }

  validate_asset-IsCanonical :
      (version : V) (target : Target) (asset : ReleaseAsset)
      → validate_asset ext app version target asset ≡ ok tt
      → IsCanonical ext app version target asset
  unfolding validate_asset
  validate_asset-IsCanonical version target asset e =
      let (_, e1, f1) =
        and_then-eq-ok
          (reject_if (not (str_eq asset.archive (Target.archive_name ext target app version))) _) _
          e in
      let (_, e2, f2) = and_then-eq-ok (validate_basename asset.archive) _ f1 in
      let (_, e3, f3) = and_then-eq-ok (validate_size asset.archive_size max_archive_size) _ f2 in
      let (_, e4, f4) = and_then-eq-ok (validate_sha256 asset.archive_sha256) _ f3 in
      let (_, e5, f5) =
        and_then-eq-ok
          (reject_if (not (str_eq asset.payload.path (Target.payload_path ext target app version)))
            _)
          _ f4 in
      let (_, e6, f6) = and_then-eq-ok (validate_member_path asset.payload.path) _ f5 in
      let (_, e7, f7) = and_then-eq-ok (validate_size asset.payload.size max_member_size) _ f6 in
      let (_, e8, f8) = and_then-eq-ok (validate_sha256 asset.payload.sha256) _ f7 in
      record {
        archive = same_text _ _ (reject_if-eq-ok _ _ e1);
        plain_archive = validate_basename-IsPlainName _ e2;
        archive_size = validate_size-bounds _ _ e3;
        archive_sha256 = validate_sha256-IsDigest _ e4;
        payload = same_text _ _ (reject_if-eq-ok _ _ e5);
        plain_payload = validate_member_path-IsPlainPath _ e6;
        payload_size = validate_size-bounds _ _ e7;
        payload_sha256 = validate_sha256-IsDigest _ e8;
        launcher =
            validate_launcher-LauncherAsRequired version target asset.payload.path
              (is_windows target) asset.launcher f8;
      }

  get_target-valid :
      (version : V) (seen : List Target) (target : Target) (asset : ReleaseAsset)
      (targets : List (Target × ReleaseAsset))
      → validate_targets ext app version seen targets ≡ ok tt
      → get_target ext app target targets ≡ some asset
      → validate_asset ext app version target asset ≡ ok tt
  unfolding validate_targets get_target
  get_target-valid version seen target asset [] e g = cc
  get_target-valid version seen target asset ((t, a) ∷ rest) e g =
      let (_, e1, f1) = and_then-eq-ok (reject_if (any (target_eq t) seen) _) _ e in
      let (_, e2, f2) = and_then-eq-ok (validate_asset ext app version t a) _ f1 in
      elim (Bool-cases (target_eq t target)) [
        | inl y ↦
            let same = target_eq→eq t target y in
            let found : a ≡ asset = ground (arith, g, y) in rw (← same, ← found) e2
        | inr n ↦ get_target-valid version (t ∷ seen) target asset rest f2 (ground (arith, g, n))
      ]

  validate-targets :
      (m : ReleaseManifest V)
      → validate ext app m ≡ ok tt
      → validate_targets ext app m.version [] m.targets ≡ ok tt
  unfolding validate
  validate-targets m e =
      let (_, e1, f1) =
        and_then-eq-ok (reject_if (not (m.schema_version == manifest_schema_version)) _) _ e in
      let (_, e2, f2) = and_then-eq-ok (reject_if (is_empty (ext.version_text m.version)) _) _ f1 in
      let (_, e3, f3) = and_then-eq-ok (ok_or (ext.parse_rfc3339 m.published_at) _) _ f2 in
      let (_, e4, f4) = and_then-eq-ok (ok_or (ext.parse_rfc3339 m.expires_at) _) _ f3 in
      let (_, e5, f5) = and_then-eq-ok (reject_if (is_empty m.targets) _) _ f4 in
      let (_, e6, f6) =
        and_then-eq-ok (reject_if (ltb (length all_targets) (length m.targets)) _) _ f5 in
      f6

  selected_same :
      (a b : SelectedAsset) → ◌≡◌ {A = Result ReleaseError SelectedAsset} (ok a) (ok b) → a ≡ b
  selected_same a b e = ground arith

  -- The asset that `asset_for` selects for a target is the map entry of that target, with the names that
  -- the target and the version give, plain paths, sizes in their bounds and well-formed digests; it has a
  -- launcher exactly where the target is a Windows one, at the target's launcher path, with the protocol
  -- of the app, a size in its bounds and a well-formed digest.
  pub asset_for-IsCanonical :
      (manifest : ReleaseManifest V) (target : Target) (selected : SelectedAsset)
      → asset_for ext app manifest target ≡ ok selected
      → (selected.target ≡ target)
        × (get_target ext app target manifest.targets ≡ some selected.asset)
        × IsCanonical ext app manifest.version target selected.asset
  unfolding asset_for
  asset_for-IsCanonical manifest target selected e =
      let (_, e1, f1) = and_then-eq-ok (validate ext app manifest) _ e in
      let (asset, e2, f2) =
        and_then-eq-ok (ok_or (get_target ext app target manifest.targets) _) _ f1 in
      let found = ok_or-eq-ok _ _ e2 in
      let valid =
        get_target-valid manifest.version [] target asset manifest.targets
          (validate-targets manifest e1) found in
      let same = selected_same (record { target = target; asset = asset }) selected f2 in
      rw (← same) (refl, found, validate_asset-IsCanonical manifest.version target asset valid)
