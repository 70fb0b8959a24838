-- ===== src/Release/Download/Exact.antt =====
-- The metadata of an exact version and the archive of a target (`fetch_exact_metadata`,
-- `fetch_version_metadata_response`, `download_archive` in src/release/download.rs).
use relswap.Base.{text, ◌≡◌, refl, Option, List, ◌++◌, Result, ok, ok_or, and_then-eq-ok, arith}
use relswap.External.{IsLawful}
use relswap.Release.Error.{ReleaseError, max_metadata_size, max_archive_size}
use relswap.Release.Target.{Target}
use relswap.Release.Manifest.{SelectedAsset, asset_for}
use relswap.Release.Signature.{TrustedKey}
use relswap.Release.Archive.Member.{verify_archive_bytes}
use relswap.Release.Archive.Kept.{HasDigest}
use relswap.Release.Archive.Inspected.{verify_archive_bytes-HasDigest}
use relswap.Release.Download.Urls.{exact_metadata_url, repository_base}
use relswap.Release.Download.Responses.{
  DownloadResponse, validate_response_transport, reject_cross_release_redirects,
}
use relswap.Release.Download.Metadata.{
  ReleaseMetadata, DownloadedArchive, Client, fetch_version_metadata_response,
  fetch_exact_metadata_by, download_archive,
}
use relswap.Release.Download.Released.{
  validate_response_transport-IsHttps, reject_cross_release_redirects-InRelease,
}
use mathlib.Core.Path.{subst}
use relswap.Release.Download.Authentic.{IsAuthentic, IsFrom, fetch_verified_metadata-IsAuthentic}

module _ {V U : Type 0} (c : Client V U) (lawful : IsLawful c.ext) where
  -- The metadata of an exact version is authentic for that version, and its manifest came over HTTPS
  -- from the URL of that version, through no other release.
  pub fetch_exact_metadata-IsAuthentic :
      (repository : U) (version : V) (trusted_keys : Option (List TrustedKey))
      (m : ReleaseMetadata V U)
      → fetch_exact_metadata_by c repository version trusted_keys ≡ ok m
      → IsAuthentic c trusted_keys version m
        × IsFrom c version m.manifest_bytes
        × ((url : U) × (exact_metadata_url c.ext c.urls c.app repository version ≡ ok url)
            × (response : DownloadResponse U) × (c.fetch url max_metadata_size ≡ ok response)
            × (m.manifest_bytes ≡ response.bytes))
  unfolding fetch_exact_metadata_by fetch_version_metadata_response
  fetch_exact_metadata-IsAuthentic repository version trusted_keys m e =
      let (url, asked, f1) =
        and_then-eq-ok (exact_metadata_url c.ext c.urls c.app repository version) _ e in
      let (response, fetched, f2) = and_then-eq-ok (c.fetch url max_metadata_size) _ f1 in
      let (_, e3, f3) = and_then-eq-ok (validate_response_transport c.ext c.urls response) _ f2 in
      let (_, e4, f4) =
        and_then-eq-ok (reject_cross_release_redirects c.ext c.urls c.app response version) _ f3 in
      let (base, _, f5) = and_then-eq-ok (repository_base c.ext c.urls repository) _ f4 in
      let (release_base, _, f6) =
        and_then-eq-ok
          (ok_or
            (c.urls.join base
              (text "releases/download/v" ++ (c.ext.version_text version ++ text "/")))
            _)
          _ f5 in
      let (authentic, bytes) =
        fetch_verified_metadata-IsAuthentic c lawful trusted_keys response.bytes release_base
          version m f6 in
      (
        authentic,
        record {
          url = url;
          limit = max_metadata_size;
          response = response;
          fetched = fetched;
          secure = validate_response_transport-IsHttps c.ext c.urls response e3;
          released =
              reject_cross_release_redirects-InRelease c.ext c.urls c.app lawful version response
                e4;
          received = bytes;
        },
        (url, asked, response, fetched, bytes),
      )

  -- A downloaded archive is the one that the manifest names for the target: it has the size and the
  -- digest of that asset, and it came over HTTPS from the metadata's release.
  pub download_archive-HasDigest :
      (metadata : ReleaseMetadata V U) (target : Target) (archive : DownloadedArchive)
      → download_archive c metadata target ≡ ok archive
      → (selected : SelectedAsset) × (asset_for c.ext c.app metadata.manifest target ≡ ok selected)
        × (archive.target ≡ target)
        × (archive.name ≡ selected.asset.archive)
        × HasDigest c.ext archive.bytes selected.asset.archive_size selected.asset.archive_sha256
        × IsFrom c metadata.version archive.bytes
  unfolding download_archive
  download_archive-HasDigest metadata target archive e =
      let (selected, chosen, f1) =
        and_then-eq-ok (asset_for c.ext c.app metadata.manifest target) _ e in
      let (url, _, f2) =
        and_then-eq-ok (ok_or (c.urls.join metadata.release_base selected.asset.archive) _) _ f1 in
      let (response, fetched, f3) = and_then-eq-ok (c.fetch url max_archive_size) _ f2 in
      let (_, e4, f4) = and_then-eq-ok (validate_response_transport c.ext c.urls response) _ f3 in
      let (_, e5, f5) =
        and_then-eq-ok (reject_cross_release_redirects c.ext c.urls c.app response metadata.version)
          _ f4 in
      let (_, e6, f6) =
        and_then-eq-ok
          (verify_archive_bytes c.ext c.zero_version c.app response.bytes selected.asset) _ f5 in
      let made : DownloadedArchive = record {
        target = target;
        name = selected.asset.archive;
        bytes = response.bytes;
      } in
      let from : IsFrom c metadata.version response.bytes = record {
        url = url;
        limit = max_archive_size;
        response = response;
        fetched = fetched;
        secure = validate_response_transport-IsHttps c.ext c.urls response e4;
        released =
            reject_cross_release_redirects-InRelease c.ext c.urls c.app lawful metadata.version
              response e5;
        received = refl;
      } in
      subst
        (λ x.
          (s : SelectedAsset) × (asset_for c.ext c.app metadata.manifest target ≡ ok s)
          × (x.target ≡ target)
          × (x.name ≡ s.asset.archive)
          × HasDigest c.ext x.bytes s.asset.archive_size s.asset.archive_sha256
          × IsFrom c metadata.version x.bytes)
        (ok_archive made archive f6)
        (
          selected,
          chosen,
          refl,
          refl,
          verify_archive_bytes-HasDigest c.ext c.zero_version c.app selected.asset response.bytes
              e6,
          from,
        )
    where
      ok_archive :
          (a b : DownloadedArchive)
          → ◌≡◌ {A = Result ReleaseError DownloadedArchive} (ok a) (ok b)
          → a ≡ b
      ok_archive a b e = ground arith
