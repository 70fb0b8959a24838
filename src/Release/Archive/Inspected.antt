-- ===== src/Release/Archive/Inspected.antt =====
-- What a release that was read out of an archive is known to be (`inspect_archive`,
-- src/release/archive.rs).
use relswap.Base.{
  Str, Bool, true, false, not, ◌≡◌, refl, sym, ◌∙◌, Option, none, some, List, Result, ok, ok_or,
  and_then-eq-ok, suc, length, reject_if, reject_if-eq-ok, ok_or-eq-ok, ltb, if-cases, inl, inr,
  arith, ◌&&◌, is_none, is_some,
}
use mathlib.Core.Path.{subst}
use relswap.External.{External}
use relswap.App.{App}
use relswap.Release.Error.{
  ReleaseError, finished, max_archive_size, max_archive_members, max_tar_decompressed_size,
}
use relswap.Release.Target
use relswap.Release.Target.{Target, is_windows}
use relswap.Release.Manifest.{ReleaseAsset, validate_asset}
use relswap.Release.Archive.Member.{
  VerifiedMember, ExtractedRelease, Found, nothing_found, finish_members, target_from_asset,
  canonical_version_from_asset, verify_archive_bytes, validate_asset_against_manifest_shape,
}
use relswap.Release.Archive.Tar.{TarHeader, inspect_tar_gz, tar_loop, tar_start}
use relswap.Release.Archive.Zip.{ZipEntry, inspect_zip, zip_loop, preflight_zip_member_count}
use relswap.Release.Archive.Inspect.{Formats, inspect_archive}
use relswap.Release.Archive.Kept.{
  HasDigest, KeptPayload, KeptLauncher, IsSound, nothing_found-IsSound, verify_bytes-HasDigest,
}
use relswap.Release.Archive.ZipKept.{zip_loop-IsSound}
use relswap.Release.Archive.TarLoop.{tar_loop-IsSound}

ok_target : (a b : Target) → ◌≡◌ {A = Result ReleaseError Target} (ok a) (ok b) → a ≡ b
ok_target a b e = ground arith

ok_extracted :
    (a b : ExtractedRelease) → ◌≡◌ {A = Result ReleaseError ExtractedRelease} (ok a) (ok b) → a ≡ b
ok_extracted a b e = ground arith

launcher_exactly :
    (windows : Bool) (o : Option VerifiedMember)
    → (windows && is_none o) ≡ false
    → (not windows && is_some o) ≡ false
    → is_some o ≡ windows
launcher_exactly true none a b = cc
launcher_exactly true (some _) a b = refl
launcher_exactly false none a b = refl
launcher_exactly false (some _) a b = cc

module _ {V : Type 0} (ext : External V) (asset : ReleaseAsset) where
  payload_there :
      (o : Option VerifiedMember) (m : VerifiedMember)
      → o ≡ some m
      → KeptPayload ext asset o
      → KeptPayload ext asset (some m)
  payload_there o m e kept = subst (λ x. KeptPayload ext asset x) e kept

module _ {V : Type 0} (ext : External V) (zero_version : V) (app : App) (asset : ReleaseAsset) where
  -- The launcher's path for the target and the version that the asset names.
  abbrev launcher_path_of : Target → Option Str
  launcher_path_of target =
      Target.launcher_path ext target app
        (canonical_version_from_asset ext zero_version app asset target)

  -- The payload has the path, the size and the digest of the asset; so has the launcher, which is there
  -- exactly where the target is a Windows one.
  pub record IsVerified (extracted : ExtractedRelease) : Type 0 where
    pub target : Target
    pub selected : target_from_asset ext zero_version app asset ≡ ok target
    pub payload : KeptPayload ext asset (some extracted.payload)
    pub launcher : KeptLauncher ext asset (launcher_path_of target) extracted.launcher
    pub platform : is_some extracted.launcher ≡ is_windows target

  found_members :
      (target : Target) (found : Found) (member : VerifiedMember) (extracted : ExtractedRelease)
      → found.payload ≡ some member
      → target_from_asset ext zero_version app asset ≡ ok target
      → ◌≡◌ {A = Result ReleaseError ExtractedRelease}
          (ok (record { payload = member; launcher = found.launcher }))
          (ok extracted)
      → KeptPayload ext asset found.payload
      → KeptLauncher ext asset (launcher_path_of target) found.launcher
      → is_some found.launcher ≡ is_windows target
      → IsVerified extracted
  found_members target found member extracted there known e payload launcher platform =
      rw (← ok_extracted _ extracted e) (record {
        target = target;
        selected = known;
        payload = payload_there ext asset found.payload member there payload;
        launcher = launcher;
        platform = platform;
      })

  finish_members-IsVerified :
      (target : Target) (root : Str) (found : Found) (extracted : ExtractedRelease)
      → target_from_asset ext zero_version app asset ≡ ok target
      → IsSound ext asset root (launcher_path_of target) found
      → finish_members ext zero_version app found.payload found.launcher asset ≡ ok extracted
      → IsVerified extracted
  unfolding finish_members
  finish_members-IsVerified target root found extracted known sound e =
      let (member, e1, f1) = and_then-eq-ok (ok_or found.payload _) _ e in
      let (t, e2, f2) = and_then-eq-ok (target_from_asset ext zero_version app asset) _ f1 in
      let same : target ≡ t = ok_target target t (sym known ∙ e2) in
      let (_, e3, f3) =
        and_then-eq-ok (reject_if (is_windows t && is_none found.launcher) _) _ f2 in
      let (_, e4, f4) =
        and_then-eq-ok (reject_if (not (is_windows t) && is_some found.launcher) _) _ f3 in
      let platform =
        launcher_exactly (is_windows t) found.launcher (reject_if-eq-ok _ _ e3)
          (reject_if-eq-ok _ _ e4) in
      found_members target found member extracted (ok_or-eq-ok _ _ e1) known f4 sound.payload_kept
        sound.launcher_kept (rw same platform)

  inspect_zip-IsVerified :
      (zip_entries : Str → Option (List ZipEntry)) (bytes : Str) (extracted : ExtractedRelease)
      → inspect_zip ext zero_version zip_entries app bytes asset ≡ ok extracted
      → IsVerified extracted
  unfolding inspect_zip
  inspect_zip-IsVerified zip_entries bytes extracted e =
      let (target, e1, f1) = and_then-eq-ok (target_from_asset ext zero_version app asset) _ e in
      let (_, _, f2) = and_then-eq-ok (preflight_zip_member_count bytes) _ f1 in
      let (entries, _, f3) = and_then-eq-ok (ok_or (zip_entries bytes) _) _ f2 in
      let (_, _, f4) =
        and_then-eq-ok (reject_if (ltb max_archive_members (length entries)) _) _ f3 in
      let root =
        Target.root_name ext target app
          (canonical_version_from_asset ext zero_version app asset target) in
      let (found, e5, f5) =
        and_then-eq-ok (zip_loop ext asset root (launcher_path_of target) entries nothing_found) _
          f4 in
      let (_, _, f6) = and_then-eq-ok (reject_if (not found.root_seen) _) _ f5 in
      finish_members-IsVerified target root found extracted e1
        (zip_loop-IsSound ext asset root (launcher_path_of target) entries nothing_found found
          (nothing_found-IsSound ext asset root (launcher_path_of target)) e5)
        f6

  inspect_tar_gz-IsVerified :
      (gunzip : Str → Str × Bool) (tar_header : Str → TarHeader) (bytes : Str)
      (extracted : ExtractedRelease)
      → inspect_tar_gz ext zero_version gunzip tar_header app bytes asset ≡ ok extracted
      → IsVerified extracted
  unfolding inspect_tar_gz
  inspect_tar_gz-IsVerified gunzip tar_header bytes extracted e =
      let (target, e1, f1) = and_then-eq-ok (target_from_asset ext zero_version app asset) _ e in
      let root =
        Target.root_name ext target app
          (canonical_version_from_asset ext zero_version app asset target) in
      let (found, e2, f2) =
        and_then-eq-ok
          (finished (
            tar_loop ext asset root (launcher_path_of target) tar_header
              (suc (length (gunzip bytes).0))
              (record {
                left = (gunzip bytes).0;
                clean = (gunzip bytes).1;
                remaining = max_tar_decompressed_size;
              })
              tar_start))
          _ f1 in
      let (_, _, f3) = and_then-eq-ok (reject_if (not found.root_seen) _) _ f2 in
      finish_members-IsVerified target root found extracted e1
        (tar_loop-IsSound ext asset root (launcher_path_of target) tar_header
          (suc (length (gunzip bytes).0))
          (record {
            left = (gunzip bytes).0;
            clean = (gunzip bytes).1;
            remaining = max_tar_decompressed_size;
          })
          tar_start found (nothing_found-IsSound ext asset root (launcher_path_of target)) e2)
        f3

  -- An archive whose bytes were checked has the size and the digest of the asset.
  pub verify_archive_bytes-HasDigest :
      (bytes : Str)
      → verify_archive_bytes ext zero_version app bytes asset ≡ ok tt
      → HasDigest ext bytes asset.archive_size asset.archive_sha256
  unfolding verify_archive_bytes
  verify_archive_bytes-HasDigest bytes e =
      let (target, _, f1) = and_then-eq-ok (target_from_asset ext zero_version app asset) _ e in
      let (_, _, f2) =
        and_then-eq-ok
          (validate_asset ext app (canonical_version_from_asset ext zero_version app asset target)
            target asset)
          _ f1 in
      let (_, _, f3) = and_then-eq-ok (reject_if (ltb max_archive_size (length bytes)) _) _ f2 in
      verify_bytes-HasDigest ext bytes asset.archive_size asset.archive_sha256 f3

  -- An archive that is accepted has the size and the digest of the asset as a whole, and what is taken out
  -- of it is the asset's payload and, exactly for a Windows target, its launcher, each with the path, the
  -- size and the digest that the asset gives.
  pub inspect_archive-IsVerified :
      (formats : Formats) (bytes : Str) (extracted : ExtractedRelease)
      → inspect_archive ext zero_version formats app bytes asset ≡ ok extracted
      → HasDigest ext bytes asset.archive_size asset.archive_sha256 × IsVerified extracted
  unfolding inspect_archive
  inspect_archive-IsVerified formats bytes extracted e =
      let (_, _, f1) =
        and_then-eq-ok (validate_asset_against_manifest_shape ext zero_version app asset) _ e in
      let (_, e2, f2) =
        and_then-eq-ok (verify_archive_bytes ext zero_version app bytes asset) _ f1 in
      let (target, _, f3) = and_then-eq-ok (target_from_asset ext zero_version app asset) _ f2 in
      (
        verify_archive_bytes-HasDigest bytes e2,
        elim (if-cases (is_windows target) _ _ f3) [
          | inl (_, d) ↦ inspect_zip-IsVerified formats.zip_entries bytes extracted d
          | inr (_, d) ↦
              inspect_tar_gz-IsVerified formats.gunzip formats.tar_header bytes extracted d
        ],
      )
