-- ===== src/Release/Download/Metadata.antt =====
-- Resolving and verifying release metadata, and downloading an archive (`fetch_latest_metadata`,
-- `fetch_exact_metadata`, `resolve_latest_response`, `fetch_version_metadata_response`,
-- `fetch_verified_metadata`, `download_archive` in src/release/download.rs).
use relswap.Base.{
  ℕ, Str, text, not, Option, none, some, List, [], ◌∷◌, ◌++◌, Result, ok, ok_or, reject_if, str_eq,
  length, any, ltb, ◌==◌, if◌then◌else◌,
}
use relswap.External.{External, version_eq}
use relswap.App
use relswap.App.{App}
use relswap.Release.Error.{ReleaseError, download, ◌>>=◌, ◌>>◌, max_metadata_size, max_archive_size}
use relswap.Release.Target.{Target}
use relswap.Release.Manifest.{
  ReleaseManifest, ManifestDocument, from_bytes, ensure_not_expired, asset_for,
}
use relswap.Release.Signature.{
  SignatureEnvelope, TrustedKey, TrustedKeySet, VerifiedSignature, envelope_from_bytes,
  verify_manifest, verify_manifest_with_keys,
}
use relswap.Release.Archive.Member.{verify_archive_bytes}
use relswap.Release.Download.Urls.{
  UrlCrate, repository_base, latest_metadata_url, exact_metadata_url,
  release_base_from_manifest_url,
}
use relswap.Release.Download.Responses.{
  DownloadResponse, validate_response_transport, reject_cross_release_redirects,
  versioned_manifest_candidates,
}

pub record ReleaseMetadata (V U : Type 0) : Type 0 where
  pub version : V
  pub manifest_bytes : Str
  pub manifest : ReleaseManifest V
  pub signature_bytes : Str
  pub signature : SignatureEnvelope
  pub verified_signature : VerifiedSignature
  pub release_base : U

pub record DownloadedArchive : Type 0 where
  pub target : Target
  pub name : Str
  pub bytes : Str

-- What the operations of this module are given: the crates, the program's identity, serde_json's view
-- of the three documents, the clock and the transport.
pub record Client (V U : Type 0) : Type 0 where
  pub ext : External V
  pub urls : UrlCrate U
  pub app : App
  pub zero_version : V
  pub decode_key_set : Str → Option TrustedKeySet
  pub decode_envelope : Str → Option SignatureEnvelope
  pub decode_manifest : Str → Option ManifestDocument
  pub now : ℕ
  pub fetch : U → ℕ → Result ReleaseError (DownloadResponse U)

-- Putting a text into a `BTreeSet`.
unfoldable pub insert_text : Str → List Str → List Str
unfolding str_eq
insert_text s set = if any (str_eq s) set then set else s ∷ set

abbrev pub first {ℓ} : {A : Type ℓ} → List A → Option A
first [] = none
first (a ∷ _) = some a

module _ {V U : Type 0} (c : Client V U) where
  unfoldable pub version_texts : List (V × U) → List Str
  unfolding insert_text
  version_texts [] = []
  version_texts ((version, _) ∷ rest) =
      insert_text (c.ext.version_text version) (version_texts rest)

  unfoldable pub check_signature :
      Option (List TrustedKey) → Str → Str → Result ReleaseError VerifiedSignature
  unfolding verify_manifest_with_keys verify_manifest
  check_signature (some keys) manifest_bytes signature_bytes =
      verify_manifest_with_keys c.ext c.decode_envelope manifest_bytes signature_bytes keys
  check_signature none manifest_bytes signature_bytes =
      verify_manifest c.ext c.decode_key_set c.decode_envelope c.app manifest_bytes signature_bytes

  unfoldable pub fetch_verified_metadata :
      Str → U → V → Option (List TrustedKey) → Result ReleaseError (ReleaseMetadata V U)
  unfolding App.signature_filename validate_response_transport reject_cross_release_redirects
      check_signature envelope_from_bytes from_bytes ensure_not_expired
  fetch_verified_metadata manifest_bytes release_base version trusted_keys = do
    reject_if (ltb max_metadata_size (length manifest_bytes))
        (download "release manifest exceeds metadata limit")
    signature_url ←
        ok_or (c.urls.join release_base (App.signature_filename c.app))
          (download "invalid signature URL")
    response ← c.fetch signature_url max_metadata_size
    validate_response_transport c.ext c.urls response
    reject_cross_release_redirects c.ext c.urls c.app response version
    verified_signature ← check_signature trusted_keys manifest_bytes response.bytes
    signature ← envelope_from_bytes c.decode_envelope response.bytes
    manifest ← from_bytes c.ext c.app c.decode_manifest manifest_bytes
    ensure_not_expired c.ext c.app manifest c.now
    reject_if (not (version_eq c.ext manifest.version version))
        (download "release manifest version differs from resolved version")
    ok (record {
      version = version;
      manifest_bytes = manifest_bytes;
      manifest = manifest;
      signature_bytes = response.bytes;
      signature = signature;
      verified_signature = verified_signature;
      release_base = release_base;
    })

  unfoldable pub resolve_latest_response :
      DownloadResponse U → Option (List TrustedKey) → Result ReleaseError (ReleaseMetadata V U)
  unfolding validate_response_transport versioned_manifest_candidates version_texts
      release_base_from_manifest_url fetch_verified_metadata
  resolve_latest_response response trusted_keys = do
    validate_response_transport c.ext c.urls response
    candidates ← versioned_manifest_candidates c.ext c.urls c.app response
    reject_if (not (length (version_texts candidates) == 1))
        (download "latest metadata redirect history names multiple release versions")
    (version, release_url) ←
        ok_or (first candidates)
          (download "latest metadata did not resolve to a versioned release URL")
    release_base ← release_base_from_manifest_url c.ext c.urls c.app release_url
    fetch_verified_metadata response.bytes release_base version trusted_keys

  unfoldable pub fetch_version_metadata_response :
      U
      → DownloadResponse U
      → V
      → Option (List TrustedKey)
      → Result ReleaseError (ReleaseMetadata V U)
  unfolding validate_response_transport reject_cross_release_redirects repository_base
      fetch_verified_metadata
  fetch_version_metadata_response repository response version trusted_keys = do
    validate_response_transport c.ext c.urls response
    reject_cross_release_redirects c.ext c.urls c.app response version
    base ← repository_base c.ext c.urls repository
    release_base ←
        ok_or
          (c.urls.join base
            (text "releases/download/v" ++ (c.ext.version_text version ++ text "/")))
          (download "invalid release base URL")
    fetch_verified_metadata response.bytes release_base version trusted_keys

  unfoldable pub fetch_latest_metadata_by :
      U → Option (List TrustedKey) → Result ReleaseError (ReleaseMetadata V U)
  unfolding latest_metadata_url resolve_latest_response
  fetch_latest_metadata_by repository trusted_keys = do
    url ← latest_metadata_url c.ext c.urls c.app repository
    response ← c.fetch url max_metadata_size
    resolve_latest_response response trusted_keys

  unfoldable pub fetch_latest_metadata : U → Result ReleaseError (ReleaseMetadata V U)
  unfolding fetch_latest_metadata_by
  fetch_latest_metadata repository = fetch_latest_metadata_by repository none

  unfoldable pub fetch_latest_metadata_with_keys :
      U → List TrustedKey → Result ReleaseError (ReleaseMetadata V U)
  unfolding fetch_latest_metadata_by
  fetch_latest_metadata_with_keys repository keys = fetch_latest_metadata_by repository (some keys)

  unfoldable pub fetch_exact_metadata_by :
      U → V → Option (List TrustedKey) → Result ReleaseError (ReleaseMetadata V U)
  unfolding exact_metadata_url fetch_version_metadata_response
  fetch_exact_metadata_by repository version trusted_keys = do
    url ← exact_metadata_url c.ext c.urls c.app repository version
    response ← c.fetch url max_metadata_size
    fetch_version_metadata_response repository response version trusted_keys

  unfoldable pub fetch_exact_metadata : U → V → Result ReleaseError (ReleaseMetadata V U)
  unfolding fetch_exact_metadata_by
  fetch_exact_metadata repository version = fetch_exact_metadata_by repository version none

  unfoldable pub fetch_version_metadata_with_keys :
      U → V → List TrustedKey → Result ReleaseError (ReleaseMetadata V U)
  unfolding fetch_exact_metadata_by
  fetch_version_metadata_with_keys repository version keys =
      fetch_exact_metadata_by repository version (some keys)

  unfoldable pub download_archive :
      ReleaseMetadata V U → Target → Result ReleaseError DownloadedArchive
  unfolding asset_for validate_response_transport reject_cross_release_redirects
      verify_archive_bytes
  download_archive metadata target = do
    selected ← asset_for c.ext c.app metadata.manifest target
    url ←
        ok_or (c.urls.join metadata.release_base selected.asset.archive)
          (download "invalid archive URL")
    response ← c.fetch url max_archive_size
    validate_response_transport c.ext c.urls response
    reject_cross_release_redirects c.ext c.urls c.app response metadata.version
    verify_archive_bytes c.ext c.zero_version c.app response.bytes selected.asset
    ok (record { target = target; name = selected.asset.archive; bytes = response.bytes })
