-- ===== src/Tests/Sample.antt =====
-- A host with two versions, one trusted key and a codec of its own.
use relswap.Base.{
  ℕ, ◌+◌, ◌≤◌, Str, text, true, false, ◌≡◌, refl, ◌↔◌, Option, none, some, [], ◌∷◌, ok, length, ltb,
  ◌==◌, str_eq, is_some, not, ◌||◌, if◌then◌else◌, arith, reject_if, and_then-eq-ok,
}
use Prim.Native.Nat.{Ordering}
use relswap.External.{External, IsLawful}
use relswap.App.{App, unix_symlink}
use relswap.Release.Error.{max_metadata_size}
use relswap.Release.Target.{x86_64_unknown_linux_gnu}
use relswap.Release.Manifest.{ManifestDocument, ReleaseAsset}
use relswap.Release.Signature.{SignatureEnvelope, SignatureEntry, TrustedKey, ed25519_algorithm}
use relswap.Release.Archive.Inspect.{Formats}
use relswap.Install.State.{
  InstallState, PendingActivation, VersionState, valid_id, validate_install_state, validate_pending,
}
use relswap.Install.Host.{Host, Json, failed_to_run}
use relswap.Install.Journal.{install_document, pending_document}
use relswap.Install.Health.{IsLawfulHost}
use mathlib.Core.Option as option
use relswap.Tests.Codec.{
  put, put_option, put_launcher, encode_install, decode_install, encode_pending, decode_pending,
  decode-encode_install, decode-encode_pending, length-put,
}

pub data Version : Type 0 where
  v1 : Version
  v2 : Version

abbrev compare_versions : Version → Version → Ordering
compare_versions v1 v1 = Ordering.eq
compare_versions v1 v2 = Ordering.lt
compare_versions v2 v1 = Ordering.gt
compare_versions v2 v2 = Ordering.eq

abbrev version_text : Version → Str
version_text v1 = text "1.0.0"
version_text v2 = text "2.0.0"

abbrev parse_version : Str → Option Version
parse_version s =
    if str_eq s (text "1.0.0") then some v1 else if str_eq s (text "2.0.0") then some v2 else none

-- 64 lowercase hexadecimal characters.
abbrev pub hash : Str
hash = text "abcdefabcdefabcdefabcdefabcdefabcdefabcdefabcdefabcdefabcdefabcd"

-- A signature verifies over one of the two manifests.
abbrev pub ext : External Version
ext = record {
  parse_version = parse_version;
  version_text = version_text;
  version_cmp = compare_versions;
  sha256_bytes = λ bytes. hash;
  base64_decode = λ s. some s;
  is_public_key = λ key. true;
  verify_strict = λ key message signature.
      str_eq message (text "manifest 1") || str_eq message (text "manifest 2");
  parse_rfc3339 = λ s. some 1000;
}

cmp_eq : (a b : Version) → (compare_versions a b ≡ Ordering.eq) ↔ (a ≡ b)
cmp_eq v1 v1 = (λ e. refl, λ e. refl)
cmp_eq v1 v2 = (λ e. cc, λ e. cc)
cmp_eq v2 v1 = (λ e. cc, λ e. cc)
cmp_eq v2 v2 = (λ e. refl, λ e. refl)

cmp_flip :
    (a b : Version) → (compare_versions a b ≡ Ordering.lt) ↔ (compare_versions b a ≡ Ordering.gt)
cmp_flip v1 v1 = (λ e. cc, λ e. cc)
cmp_flip v1 v2 = (λ e. refl, λ e. refl)
cmp_flip v2 v1 = (λ e. cc, λ e. cc)
cmp_flip v2 v2 = (λ e. cc, λ e. cc)

parse_version-version_text : (v : Version) → parse_version (version_text v) ≡ some v
unfolding str_eq
parse_version-version_text v1 = refl
parse_version-version_text v2 = refl

pub ext-IsLawful : IsLawful ext
ext-IsLawful = record {
  cmp_eq = cmp_eq;
  cmp_flip = cmp_flip;
  parse_version-version_text = parse_version-version_text;
}

abbrev pub app : App
app = record {
  name = text "demo";
  version = text "1.0.0";
  repository_url = text "https://example.org/demo";
  trust_anchor = text "keys";
  activation = unix_symlink;
  self_test = none;
}

abbrev pub key : TrustedKey
key = record {
  id = text "release";
  algorithm = ed25519_algorithm;
  public_key = text "0123456789abcdef0123456789abcdef";
}

abbrev pub entry : SignatureEntry
entry = record { key_id = text "release"; algorithm = ed25519_algorithm; signature = hash }

abbrev pub envelope : SignatureEnvelope
envelope = record { schema_version = 1; signatures = entry ∷ [] }

abbrev pub asset : Str → ReleaseAsset
asset version = record {
  archive = version;
  archive_sha256 = hash;
  archive_size = 10;
  payload = record { path = version; sha256 = hash; size = 3 };
  launcher = none;
}

abbrev pub asset_1 : ReleaseAsset
asset_1 = record {
  archive = text "demo-1.0.0-x86_64-unknown-linux-gnu.tar.gz";
  archive_sha256 = hash;
  archive_size = 10;
  payload = record {
    path = text "demo-1.0.0-x86_64-unknown-linux-gnu/demo";
    sha256 = hash;
    size = 3;
  };
  launcher = none;
}

abbrev pub document_1 : ManifestDocument
document_1 = record {
  schema_version = 2;
  version = text "1.0.0";
  published_at = text "2026-01-01T00:00:00Z";
  expires_at = text "2027-01-01T00:00:00Z";
  targets = (text "x86_64-unknown-linux-gnu", asset_1) ∷ [];
}

abbrev pub asset_2 : ReleaseAsset
asset_2 = record {
  archive = text "demo-2.0.0-x86_64-unknown-linux-gnu.tar.gz";
  archive_sha256 = hash;
  archive_size = 10;
  payload = record {
    path = text "demo-2.0.0-x86_64-unknown-linux-gnu/demo";
    sha256 = hash;
    size = 3;
  };
  launcher = none;
}

abbrev pub document_2 : ManifestDocument
document_2 = record document_1 {
  version = text "2.0.0";
  targets = (text "x86_64-unknown-linux-gnu", asset_2) ∷ [];
}

abbrev pub state_1 : VersionState Str Str
state_1 = record {
  schema_version = 1;
  version = text "1.0.0";
  target = text "x86_64-unknown-linux-gnu";
  binary_sha256 = hash;
  size = 3;
  installation_id = hash;
  launcher = none;
}

abbrev state_of : Str → Option (VersionState Str Str)
state_of bytes =
    if str_eq bytes (text "state 1")
    then some state_1
    else if str_eq bytes (text "state 2")
    then some (record state_1 { version = text "2.0.0" })
    else none

abbrev manifest_of : Str → Option ManifestDocument
manifest_of bytes =
    if str_eq bytes (text "manifest 1")
    then some document_1
    else if str_eq bytes (text "manifest 2")
    then some document_2
    else none

abbrev json : Json
json = record {
  decode_install = decode_install;
  encode_install = encode_install;
  decode_pending = decode_pending;
  encode_pending = encode_pending;
  decode_version_state = state_of;
  encode_version_state = λ state. text "state 1";
  decode_manifest = manifest_of;
  decode_envelope = λ bytes. some envelope;
  decode_key_set = λ bytes. none;
}

abbrev pub host : Formats → Host Version
host formats = record {
  ext = ext;
  json = json;
  formats = formats;
  zero_version = v1;
  app = app;
  root = text "home" ∷ text "demo" ∷ [];
  command_path = text "bin" ∷ text "demo" ∷ [];
  trusted_keys = some (key ∷ []);
  injects = λ point. false;
  current_target = some x86_64_unknown_linux_gnu;
  now = 500;
  still_identifies = λ id. true;
  probe = λ path args. failed_to_run;
}

length-put_option :
    (o : Option Version) (rest : Str)
    → length (put_option (option.map version_text o) rest) ≤ 7 + length rest
length-put_option none rest = omega arith
length-put_option (some v1) rest = omega arith
length-put_option (some v2) rest = omega arith

length-put_version :
    (v : Version) (rest : Str) → length (put (version_text v) rest) ≤ 6 + length rest
length-put_version v1 rest = omega arith
length-put_version v2 rest = omega arith

none_of : {A : Type 0} (o : Option A) → is_some o ≡ false → o ≡ none
none_of none e = refl
none_of (some a) e = cc

small : (n : ℕ) → n ≤ 1000 → ltb max_metadata_size n ≡ false
small n le = ground arith

valid_install-parts :
    (s : InstallState Version)
    → validate_install_state ext s ≡ ok tt
    → (length s.installation_id ≡ 64) × (s.launcher ≡ none)
unfolding validate_install_state valid_id
valid_install-parts s e =
    let (_, _, e1) =
      and_then-eq-ok (reject_if (not (s.schema_version == 1) || not (valid_id s.installation_id)) _)
        _ e in
    (ground arith, none_of s.launcher (ground (arith, e1)))

valid_pending-parts :
    (p : PendingActivation Version) → validate_pending ext p ≡ ok tt → length p.transaction_id ≡ 64
unfolding validate_pending valid_id
valid_pending-parts p e = ground arith

module _ (formats : Formats) where
  install_fits :
      (s : InstallState Version)
      → validate_install_state ext s ≡ ok tt
      → ltb max_metadata_size (length (encode_install (install_document (host formats) s))) ≡ false
  unfolding install_document
  install_fits s e =
      let (n, l) = valid_install-parts s e in
      let t = put_launcher s.launcher in
      let r = put s.installation_id t in
      let q = put_option (option.map version_text s.previous) r in
      let a = length-put_option s.active q in
      let b = length-put_option s.previous r in
      let c = length-put s.installation_id t in
      let d : length t ≡ 0 = rw l refl in small _ (omega arith)

  pending_fits :
      (p : PendingActivation Version)
      → validate_pending ext p ≡ ok tt
      → ltb max_metadata_size (length (encode_pending (pending_document (host formats) p))) ≡ false
  unfolding pending_document
  pending_fits p e =
      let n = valid_pending-parts p e in
      let r = put p.transaction_id [] in
      let a = length-put_option p.from (put (version_text p.to) r) in
      let b = length-put_version p.to r in
      let c = length-put p.transaction_id [] in small _ (omega arith)

  pub host-IsLawfulHost : IsLawfulHost (host formats)
  host-IsLawfulHost = record {
    ext_lawful = ext-IsLawful;
    decode-encode_install = decode-encode_install;
    decode-encode_pending = decode-encode_pending;
    install_fits = install_fits;
    pending_fits = pending_fits;
  }
