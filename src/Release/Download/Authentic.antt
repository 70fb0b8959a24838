-- ===== src/Release/Download/Authentic.antt =====
-- What fetched metadata and a downloaded archive are known to be (`fetch_verified_metadata`,
-- `resolve_latest_response`, `fetch_version_metadata_response`, `download_archive` in
-- src/release/download.rs).
use relswap.Base.{
  ℕ, ◌+◌, ◌≤◌, Str, not, ◌≡◌, refl, Option, none, some, List, Result, ok, ok_or, and_then-eq-ok,
  reject_if, reject_if-eq-ok, ok_or-eq-ok, length, ltb, arith,
}
use relswap.External.{IsLawful, version_eq, version_eq→eq}
use relswap.App
use relswap.App.{App}
use relswap.Release.Error.{ReleaseError, max_metadata_size}
use relswap.Release.Manifest.{ReleaseManifest, from_bytes, ensure_not_expired, expiry_clock_skew}
use relswap.Release.Signature.{
  SignatureEnvelope, SignatureEntry, TrustedKey, TrustedKeySet, VerifiedSignature,
  envelope_from_bytes, key_set_from_bytes, verify_manifest,
}
use relswap.Release.Signature.Verified.{IsTrusted, verify_manifest_with_keys-IsTrusted}
use relswap.Release.Download.Responses.{
  DownloadResponse, response_history, validate_response_transport, reject_cross_release_redirects,
}
use relswap.Release.Download.Metadata.{
  ReleaseMetadata, Client, check_signature, fetch_verified_metadata,
}
use relswap.Release.Download.Released.{
  Every, IsHttps, InRelease, validate_response_transport-IsHttps,
  reject_cross_release_redirects-InRelease,
}
use mathlib.Core.List.{Memᴰ}
use mathlib.Core.Path.{subst}

module _ {V U : Type 0} (c : Client V U) where
  -- The keys that a caller trusts: those it gives, or those of the compiled trust anchor.
  abbrev pub Trusts : Option (List TrustedKey) → List TrustedKey → Type 0
  Trusts (some given) keys = given ≡ keys
  Trusts none keys =
      (set : TrustedKeySet) × (key_set_from_bytes c.ext c.decode_key_set c.app.trust_anchor
        ≡ ok set)
      × (set.keys ≡ keys)

  -- Some entry of the envelope in these bytes is validated by a trusted key, over exactly the manifest.
  pub record IsSigned (trusted_keys : Option (List TrustedKey))
      (manifest_bytes signature_bytes : Str) : Type 0 where
    pub keys : List TrustedKey
    pub trusts : Trusts trusted_keys keys
    pub envelope : SignatureEnvelope
    pub read : envelope_from_bytes c.decode_envelope signature_bytes ≡ ok envelope
    pub entry : SignatureEntry
    pub present : Memᴰ entry envelope.signatures
    pub trusted : IsTrusted c.ext manifest_bytes keys entry

  check_signature-IsSigned :
      (trusted_keys : Option (List TrustedKey)) (manifest_bytes signature_bytes : Str)
      (v : VerifiedSignature)
      → check_signature c trusted_keys manifest_bytes signature_bytes ≡ ok v
      → IsSigned trusted_keys manifest_bytes signature_bytes
  unfolding check_signature verify_manifest
  check_signature-IsSigned (some keys) manifest_bytes signature_bytes v e =
      let (envelope, read, entry, m, _, t) =
        verify_manifest_with_keys-IsTrusted c.ext manifest_bytes c.decode_envelope signature_bytes
          keys v e in
      record {
        keys = keys;
        trusts = refl;
        envelope = envelope;
        read = read;
        entry = entry;
        present = m;
        trusted = t;
      }
  check_signature-IsSigned none manifest_bytes signature_bytes v e =
      let (set, parsed, f) =
        and_then-eq-ok (key_set_from_bytes c.ext c.decode_key_set c.app.trust_anchor) _ e in
      let (envelope, read, entry, m, _, t) =
        verify_manifest_with_keys-IsTrusted c.ext manifest_bytes c.decode_envelope signature_bytes
          set.keys v f in
      record {
        keys = set.keys;
        trusts = (set, parsed, refl);
        envelope = envelope;
        read = read;
        entry = entry;
        present = m;
        trusted = t;
      }

  -- A response of the transport that came over HTTPS alone and from no other release.
  pub record IsFrom (version : V) (bytes : Str) : Type 0 where
    pub url : U
    pub limit : ℕ
    pub response : DownloadResponse U
    pub fetched : c.fetch url limit ≡ ok response
    pub secure : Every (IsHttps c.ext c.urls) (response_history response)
    pub released : Every (InRelease c.ext c.urls c.app version) (response_history response)
    pub received : bytes ≡ response.bytes

  pub record IsAuthentic (trusted_keys : Option (List TrustedKey)) (version : V)
      (m : ReleaseMetadata V U) : Type 0 where
    pub resolved : m.version ≡ version
    pub signed : IsSigned trusted_keys m.manifest_bytes m.signature_bytes
    pub parsed : from_bytes c.ext c.app c.decode_manifest m.manifest_bytes ≡ ok m.manifest
    pub named : m.manifest.version ≡ version
    pub expires_at : ℕ
    pub expires : c.ext.parse_rfc3339 m.manifest.expires_at ≡ some expires_at
    pub fresh : c.now ≤ expires_at + expiry_clock_skew
    pub signature_from : IsFrom version m.signature_bytes

  ensure_not_expired-fresh :
      (manifest : ReleaseManifest V)
      → ensure_not_expired c.ext c.app manifest c.now ≡ ok tt
      → (t : ℕ) × (c.ext.parse_rfc3339 manifest.expires_at ≡ some t)
        × (c.now ≤ t + expiry_clock_skew)
  unfolding ensure_not_expired
  ensure_not_expired-fresh manifest e =
      let (t, a, b) = and_then-eq-ok (ok_or (c.ext.parse_rfc3339 manifest.expires_at) _) _ e in
      let x = reject_if-eq-ok (ltb (t + expiry_clock_skew) c.now) _ b in
      (t, ok_or-eq-ok _ _ a, ground (arith, x))

  ok_metadata :
      (a b : ReleaseMetadata V U)
      → ◌≡◌ {A = Result ReleaseError (ReleaseMetadata V U)} (ok a) (ok b)
      → a ≡ b
  ok_metadata a b e = ground arith

  module _ (lawful : IsLawful c.ext) where
    pub fetch_verified_metadata-IsAuthentic :
        (trusted_keys : Option (List TrustedKey)) (manifest_bytes : Str) (release_base : U)
        (version : V) (m : ReleaseMetadata V U)
        → fetch_verified_metadata c manifest_bytes release_base version trusted_keys ≡ ok m
        → IsAuthentic trusted_keys version m × (m.manifest_bytes ≡ manifest_bytes)
    unfolding fetch_verified_metadata
    fetch_verified_metadata-IsAuthentic trusted_keys manifest_bytes release_base version m e =
        let (_, _, f1) =
          and_then-eq-ok (reject_if (ltb max_metadata_size (length manifest_bytes)) _) _ e in
        let (url, _, f2) =
          and_then-eq-ok (ok_or (c.urls.join release_base (App.signature_filename c.app)) _) _ f1 in
        let (response, e3, f3) = and_then-eq-ok (c.fetch url max_metadata_size) _ f2 in
        let (_, e4, f4) = and_then-eq-ok (validate_response_transport c.ext c.urls response) _ f3 in
        let (_, e5, f5) =
          and_then-eq-ok (reject_cross_release_redirects c.ext c.urls c.app response version) _
            f4 in
        let (v, e6, f6) =
          and_then-eq-ok (check_signature c trusted_keys manifest_bytes response.bytes) _ f5 in
        let (signature, _, f7) =
          and_then-eq-ok (envelope_from_bytes c.decode_envelope response.bytes) _ f6 in
        let (manifest, e8, f8) =
          and_then-eq-ok (from_bytes c.ext c.app c.decode_manifest manifest_bytes) _ f7 in
        let (_, e9, f9) = and_then-eq-ok (ensure_not_expired c.ext c.app manifest c.now) _ f8 in
        let (_, e10, f10) =
          and_then-eq-ok (reject_if (not (version_eq c.ext manifest.version version)) _) _ f9 in
        let (t, expires, fresh) = ensure_not_expired-fresh manifest e9 in
        let differs = reject_if-eq-ok (not (version_eq c.ext manifest.version version)) _ e10 in
        let m' : ReleaseMetadata V U = record {
          version = version;
          manifest_bytes = manifest_bytes;
          manifest = manifest;
          signature_bytes = response.bytes;
          signature = signature;
          verified_signature = v;
          release_base = release_base;
        } in
        let authentic : IsAuthentic trusted_keys version m' = record {
          resolved = refl;
          signed = check_signature-IsSigned trusted_keys manifest_bytes response.bytes v e6;
          parsed = e8;
          named = version_eq→eq c.ext lawful manifest.version version (ground (arith, differs));
          expires_at = t;
          expires = expires;
          fresh = fresh;
          signature_from = record {
            url = url;
            limit = max_metadata_size;
            response = response;
            fetched = e3;
            secure = validate_response_transport-IsHttps c.ext c.urls response e4;
            released =
                reject_cross_release_redirects-InRelease c.ext c.urls c.app lawful version response
                  e5;
            received = refl;
          };
        } in
        subst (λ x. IsAuthentic trusted_keys version x × (x.manifest_bytes ≡ manifest_bytes))
          (ok_metadata m' m f10) (authentic, refl)
