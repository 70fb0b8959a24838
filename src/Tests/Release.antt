-- ===== src/Tests/Release.antt =====
-- The theorems on releases at concrete inputs.
use relswap.Base.{text, ◌≡◌, refl, ◌↔◌, some, [], ◌∷◌, ok, err, str_eq}
use relswap.Release.Error.{trust_anchor_not_configured}
use relswap.Release.Target.{aarch64_apple_darwin, from_str, as_str}
use relswap.Release.Target.Laws.{from_str_iff}
use relswap.Release.Signature.{
  SignatureEntry, SignatureEnvelope, TrustedKey, verify_manifest_with_keys, envelope_from_bytes,
}
use relswap.Release.Signature.Verified.{
  IsTrusted, verify_manifest_with_keys-IsTrusted, verify_manifest_with_keys-no_anchor, LacksEd25519,
}
use relswap.Tests.Sample.{ext, key, envelope}
use mathlib.Core.List.{Memᴰ}
use relswap.Release.Target.{x86_64_unknown_linux_gnu}
use relswap.Release.Manifest.{ReleaseManifest, asset_for, get_target}
use relswap.Release.Manifest.Selected.{IsCanonical, asset_for-IsCanonical}
use relswap.Tests.Sample.{Version, v1, app, asset_1}

from_str_iff_example :
    (from_str (text "aarch64-apple-darwin") ≡ ok aarch64_apple_darwin)
    ↔ (as_str aarch64_apple_darwin ≡ text "aarch64-apple-darwin")
from_str_iff_example = from_str_iff (text "aarch64-apple-darwin") aarch64_apple_darwin

verified_run :
    verify_manifest_with_keys ext (λ bytes. some envelope) (text "manifest 1") [] (key ∷ [])
    ≡ ok (record { key_id = text "release" })
unfolding verify_manifest_with_keys str_eq
verified_run = refl

verify_manifest_with_keys-IsTrusted_example :
    (e : SignatureEnvelope) × (envelope_from_bytes (λ bytes. some envelope) [] ≡ ok e)
    × (entry : SignatureEntry) × Memᴰ entry e.signatures
    × (entry.key_id ≡ text "release")
    × IsTrusted ext (text "manifest 1") (key ∷ []) entry
verify_manifest_with_keys-IsTrusted_example =
    verify_manifest_with_keys-IsTrusted ext (text "manifest 1") (λ bytes. some envelope) []
      (key ∷ []) (record { key_id = text "release" }) verified_run

abbrev rsa_key : TrustedKey
rsa_key = record { id = text "old"; algorithm = text "rsa"; public_key = text "key" }

verify_manifest_with_keys-no_anchor_example :
    (verify_manifest_with_keys ext
        (λ bytes. some envelope)
        (text "manifest 1")
        []
        (rsa_key ∷ key ∷ [])
      ≡ err trust_anchor_not_configured)
    ↔ LacksEd25519 (rsa_key ∷ key ∷ [])
verify_manifest_with_keys-no_anchor_example =
    verify_manifest_with_keys-no_anchor ext (text "manifest 1") (λ bytes. some envelope) []
      (rsa_key ∷ key ∷ [])

abbrev manifest_1 : ReleaseManifest Version
manifest_1 = record {
  schema_version = 2;
  version = v1;
  published_at = text "2026-01-01T00:00:00Z";
  expires_at = text "2027-01-01T00:00:00Z";
  targets = (x86_64_unknown_linux_gnu, asset_1) ∷ [];
}

selected_run :
    asset_for ext app manifest_1 x86_64_unknown_linux_gnu
    ≡ ok (record { target = x86_64_unknown_linux_gnu; asset = asset_1 })
unfolding asset_for str_eq relswap.Release.Manifest.validate_asset
    relswap.Release.Target.archive_name relswap.Release.Target.payload_path
selected_run = refl

asset_for-IsCanonical_example :
    (x86_64_unknown_linux_gnu ≡ x86_64_unknown_linux_gnu)
    × (get_target ext app x86_64_unknown_linux_gnu manifest_1.targets ≡ some asset_1)
    × IsCanonical ext app v1 x86_64_unknown_linux_gnu asset_1
asset_for-IsCanonical_example =
    asset_for-IsCanonical ext app manifest_1 x86_64_unknown_linux_gnu
      (record { target = x86_64_unknown_linux_gnu; asset = asset_1 }) selected_run
