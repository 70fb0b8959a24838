-- ===== src/Tests/Downloads.antt =====
-- The theorems on downloads at a concrete server: a repository with one release, whose latest
-- endpoint redirects to it.
use relswap.Base.{
  ◌↔◌, Str, text, true, ◌≡◌, refl, none, some, [], ◌∷◌, ◌++◌, ok, str_eq, ◌≤◌, length, strip_prefix,
  strip_suffix, split_on, is_some, if◌then◌else◌, contains_byte,
}
use relswap.Release.Target.{x86_64_unknown_linux_gnu}
use relswap.Release.Manifest.{ReleaseManifest, SelectedAsset, ManifestDocument, asset_for}
use relswap.Release.Archive.Kept.{HasDigest}
use relswap.Release.Download.Canonical.{IsManifestOf, versioned_manifest_url-IsManifestOf}
use relswap.Release.Download.Urls.{versioned_manifest_url, UrlCrate, exact_metadata_url}
use relswap.Release.Download.Responses.{DownloadResponse}
use relswap.Release.Download.Body.{chunk, finished, Answer, fetch}
use relswap.Release.Download.Metadata.{
  ReleaseMetadata, DownloadedArchive, Client, fetch_latest_metadata_by, fetch_exact_metadata_by,
  download_archive,
}
use relswap.Release.Download.Released.{IsHttps}
use relswap.Release.Download.Authentic.{IsAuthentic, IsFrom}
use relswap.Release.Download.Resolved.{HasOrigin, fetch_latest_metadata-IsAuthentic}
use relswap.Release.Download.Exact.{fetch_exact_metadata-IsAuthentic, download_archive-HasDigest}
use relswap.Release.Download.Bounded.{fetch-bounded}
use relswap.Release.Error.{max_metadata_size}
use relswap.Tests.Sample.{Version, v1, ext, ext-IsLawful, app, key, envelope, asset_1, document_1}

pub record Url : Type 0 where
  pub scheme : Str
  pub path : Str

-- The path up to its last slash.
abbrev directory : Str → Str
directory [] = []
directory (b ∷ s) = if contains_byte b'/' (b ∷ s) then b ∷ directory s else []

abbrev urls : UrlCrate Url
urls = record {
  scheme = λ url. url.scheme;
  path = λ url. url.path;
  path_segments = λ url. elim (strip_prefix (text "/") url.path) [
    | none ↦ none
    | some rest ↦ some (split_on b'/' rest)
  ];
  query = λ url. none;
  fragment = λ url. none;
  join = λ url reference. some (record url { path = directory url.path ++ reference });
  set_path = λ url path. record url { path = path };
  clear_query = λ url. url;
  clear_fragment = λ url. url;
}

abbrev at : Str → Url
at path = record { scheme = text "https"; path = path }

abbrev repository : Url
repository = at (text "/demo")

abbrev release : Str
release = text "/demo/releases/download/v1.0.0/"

abbrev manifest_url : Url
manifest_url = at (release ++ text "demo-release.json")

abbrev latest_url : Url
latest_url = at (text "/demo/releases/latest/download/demo-release.json")

abbrev ten : Str
ten = text "0123456789"

abbrev body : Str → Str
body path =
    if is_some (strip_suffix (text ".signatures.json") path)
    then text "signatures"
    else if is_some (strip_suffix (text ".tar.gz") path)
    then ten
    else text "manifest 1"

abbrev served : Url → DownloadResponse Url
served url = record {
  requested_url = url;
  final_url = if str_eq url.path latest_url.path then manifest_url else url;
  redirect_history = [];
  bytes = body url.path;
}

abbrev client : Client Version Url
client = record {
  ext = ext;
  urls = urls;
  app = app;
  zero_version = v1;
  decode_key_set = λ bytes. none;
  decode_envelope = λ bytes. some envelope;
  decode_manifest = λ bytes. if str_eq bytes (text "manifest 1") then some document_1 else none;
  now = 500;
  fetch = λ url limit. ok (served url);
}

abbrev manifest : ReleaseManifest Version
manifest = record {
  schema_version = 2;
  version = v1;
  published_at = text "2026-01-01T00:00:00Z";
  expires_at = text "2027-01-01T00:00:00Z";
  targets = (x86_64_unknown_linux_gnu, asset_1) ∷ [];
}

abbrev metadata : ReleaseMetadata Version Url
metadata = record {
  version = v1;
  manifest_bytes = text "manifest 1";
  manifest = manifest;
  signature_bytes = text "signatures";
  signature = envelope;
  verified_signature = record { key_id = text "release" };
  release_base = at release;
}

latest_run : fetch_latest_metadata_by client repository (some (key ∷ [])) ≡ ok metadata
unfolding fetch_latest_metadata_by contains_byte split_on relswap.Release.Target.from_str
    relswap.Release.Manifest.validate_asset relswap.Release.Target.archive_name
    relswap.Release.Target.payload_path
latest_run = refl

exact_run : fetch_exact_metadata_by client repository v1 (some (key ∷ [])) ≡ ok metadata
unfolding fetch_exact_metadata_by contains_byte split_on relswap.Release.Target.from_str
    relswap.Release.Manifest.validate_asset relswap.Release.Target.archive_name
    relswap.Release.Target.payload_path
exact_run = refl

abbrev archive : DownloadedArchive
archive = record {
  target = x86_64_unknown_linux_gnu;
  name = text "demo-1.0.0-x86_64-unknown-linux-gnu.tar.gz";
  bytes = ten;
}

archive_run : download_archive client metadata x86_64_unknown_linux_gnu ≡ ok archive
unfolding download_archive contains_byte relswap.Release.Target.archive_name
    relswap.Release.Target.payload_path
archive_run = refl

fetch_latest_metadata-IsAuthentic_example :
    IsAuthentic client (some (key ∷ [])) v1 metadata
    × HasOrigin client ext-IsLawful repository metadata
fetch_latest_metadata-IsAuthentic_example =
    fetch_latest_metadata-IsAuthentic client ext-IsLawful repository (some (key ∷ [])) metadata
      latest_run

fetch_exact_metadata-IsAuthentic_example :
    IsAuthentic client (some (key ∷ [])) v1 metadata
    × IsFrom client v1 (text "manifest 1")
    × ((url : Url) × (exact_metadata_url ext urls app repository v1 ≡ ok url)
        × (response : DownloadResponse Url) × (client.fetch url max_metadata_size ≡ ok response)
        × (text "manifest 1" ≡ response.bytes))
fetch_exact_metadata-IsAuthentic_example =
    fetch_exact_metadata-IsAuthentic client ext-IsLawful repository v1 (some (key ∷ [])) metadata
      exact_run

download_archive-HasDigest_example :
    (selected : SelectedAsset) × (asset_for ext app manifest x86_64_unknown_linux_gnu ≡ ok selected)
    × (x86_64_unknown_linux_gnu ≡ x86_64_unknown_linux_gnu)
    × (archive.name ≡ selected.asset.archive)
    × HasDigest ext ten selected.asset.archive_size selected.asset.archive_sha256
    × IsFrom client v1 ten
download_archive-HasDigest_example =
    download_archive-HasDigest client ext-IsLawful metadata x86_64_unknown_linux_gnu archive
      archive_run

abbrev answer : Answer
answer = record {
  uri = text "final";
  redirects = none;
  whole = λ limit. ok ten;
  chunks = λ limit. chunk (text "01234") (chunk (text "56789") finished);
}

abbrev response : DownloadResponse Url
response = record {
  requested_url = latest_url;
  final_url = manifest_url;
  redirect_history = [];
  bytes = ten;
}

fetch_run :
    fetch ext urls (λ uri. some manifest_url) (λ url. ok answer) true latest_url 10 ≡ ok response
unfolding fetch
fetch_run = refl

fetch-bounded_example :
    (latest_url ≡ latest_url)
    × IsHttps ext urls latest_url
    × IsHttps ext urls manifest_url
    × (length ten ≤ 10)
fetch-bounded_example =
    fetch-bounded ext urls (λ uri. some manifest_url) (λ url. ok answer) true latest_url 10 response
      fetch_run

versioned_manifest_url-IsManifestOf_example :
    (versioned_manifest_url ext urls app manifest_url ≡ ok (some (v1, manifest_url)))
    ↔ IsManifestOf ext urls app v1 manifest_url
versioned_manifest_url-IsManifestOf_example =
    versioned_manifest_url-IsManifestOf ext urls app ext-IsLawful v1 manifest_url
