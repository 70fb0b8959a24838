-- ===== src/Release/Signature.antt =====
-- Detached Ed25519 signatures over the exact manifest bytes (src/release/signature.rs). The JSON
-- decoders are parameters; base64 and Ed25519 come with `External`.
pub mod Verified
use relswap.Base.{
  ℕ, Str, text, Bool, true, false, not, ◌&&◌, ◌||◌, Option, none, some, List, [], ◌∷◌, ◌++◌, Result,
  ok, err, ok_or, reject_if, is_ok, str_eq, length, is_empty, any, find, ltb, ◌==◌, if◌then◌else◌,
}
use relswap.External.{External}
use relswap.App.{App}
use relswap.Release.Error.{
  ReleaseError, invalid, trust_anchor_not_configured, json, ◌>>=◌, ◌>>◌, max_metadata_size,
}

abbrev pub signature_schema_version : ℕ
signature_schema_version = 1

abbrev pub ed25519_algorithm : Str
ed25519_algorithm = text "ed25519"

pub record SignatureEntry : Type 0 where
  pub key_id : Str
  pub algorithm : Str
  pub signature : Str

pub record SignatureEnvelope : Type 0 where
  pub schema_version : ℕ
  pub signatures : List SignatureEntry

pub record TrustedKey : Type 0 where
  pub id : Str
  pub algorithm : Str
  pub public_key : Str

pub record TrustedKeySet : Type 0 where
  pub schema_version : ℕ
  pub keys : List TrustedKey

pub record VerifiedSignature : Type 0 where
  pub key_id : Str

-- `key_ids.insert(..)` on a `HashSet` answers whether the id is new.
unfoldable pub is_seen : Str → List Str → Bool
unfolding str_eq
is_seen id seen = any (str_eq id) seen

-- The loop of `SignatureEnvelope::from_bytes` over the entries.
unfoldable pub check_entries : List Str → List SignatureEntry → Result ReleaseError (Unit {0})
unfolding is_seen
check_entries seen [] = ok tt
check_entries seen (entry ∷ rest) =
    let later = check_entries (entry.key_id ∷ seen) rest in
    do
      reject_if (is_empty entry.key_id || is_empty entry.algorithm || is_seen entry.key_id seen)
          (invalid "signature entries must have unique nonempty key ids and values")
      later

-- `SignatureEnvelope::from_bytes`
unfoldable pub envelope_from_bytes :
    (Str → Option SignatureEnvelope) → Str → Result ReleaseError SignatureEnvelope
unfolding check_entries
envelope_from_bytes decode bytes = do
  reject_if (ltb max_metadata_size (length bytes))
      (invalid "release signature envelope is too large")
  envelope ← ok_or (decode bytes) json
  reject_if (not (envelope.schema_version == signature_schema_version))
      (invalid "unsupported release signature schema_version")
  reject_if (is_empty envelope.signatures)
      (invalid "release signature envelope contains no signatures")
  check_entries [] envelope.signatures
  ok envelope

-- `SignatureEnvelope::to_bytes`
unfoldable pub envelope_to_bytes :
    (SignatureEnvelope → Str) → SignatureEnvelope → Result ReleaseError Str
envelope_to_bytes encode envelope = do
  reject_if
      (not (envelope.schema_version == signature_schema_version) || is_empty envelope.signatures)
      (invalid "invalid release signature envelope")
  ok (encode envelope)

-- `key.algorithm == ED25519_ALGORITHM`
unfoldable pub is_ed25519 : Str → Bool
unfolding str_eq
is_ed25519 algorithm = str_eq algorithm ed25519_algorithm

unfoldable pub has_ed25519_key : List TrustedKey → Bool
unfolding is_ed25519
has_ed25519_key keys = any (λ key. is_ed25519 key.algorithm) keys

-- `trusted_keys.iter().find(|key| key.id == entry.key_id && ..)`
unfoldable pub find_key : Str → List TrustedKey → Option TrustedKey
unfolding is_ed25519 str_eq
find_key key_id [] = none
find_key key_id (key ∷ keys) =
    if str_eq key.id key_id && is_ed25519 key.algorithm then some key else find_key key_id keys

module _ {V : Type 0} (ext : External V) where
  unfoldable pub decode_public_key : TrustedKey → Result ReleaseError Str
  decode_public_key key = do
    bytes ← ok_or (ext.base64_decode key.public_key) (invalid "invalid trusted key")
    reject_if (not (length bytes == 32)) (invalid "trusted Ed25519 key is not 32 bytes")
    reject_if (not (ext.is_public_key bytes)) (invalid "invalid trusted Ed25519 key")
    ok bytes

  unfoldable pub check_keys : List Str → List TrustedKey → Result ReleaseError (Unit {0})
  unfolding is_seen is_ed25519 decode_public_key
  check_keys seen [] = ok tt
  check_keys seen (key ∷ rest) =
      let later = check_keys (key.id ∷ seen) rest in
      do
        reject_if (is_empty key.id || is_seen key.id seen)
            (invalid "trusted release key ids must be nonempty and unique")
        _ ← if is_ed25519 key.algorithm then decode_public_key key else ok []
        later

  -- `TrustedKeySet::from_bytes`
  unfoldable pub key_set_from_bytes :
      (Str → Option TrustedKeySet) → Str → Result ReleaseError TrustedKeySet
  unfolding check_keys
  key_set_from_bytes decode bytes = do
    key_set ← ok_or (decode bytes) json
    reject_if (not (key_set.schema_version == signature_schema_version))
        (invalid "unsupported trusted-key schema_version")
    check_keys [] key_set.keys
    ok key_set

  -- Whether a found key validates the entry: `decode_public_key`, the base64 of the signature,
  -- `Signature::try_from`, which wants 64 bytes, and `verify_strict`.
  unfoldable pub key_validates : Str → SignatureEntry → TrustedKey → Bool
  unfolding decode_public_key
  key_validates manifest_bytes entry key = elim (decode_public_key key) [
    | err _ ↦ false
    | ok public_key ↦ elim (ext.base64_decode entry.signature) [
      | none ↦ false
      | some signature ↦
          length signature == 64 && ext.verify_strict public_key manifest_bytes signature
    ]
  ]

  -- One round of the loop: every `continue` of the source is `false`.
  unfoldable pub entry_validates : Str → List TrustedKey → SignatureEntry → Bool
  unfolding is_ed25519 find_key key_validates
  entry_validates manifest_bytes trusted_keys entry =
      if is_ed25519 entry.algorithm
      then elim (find_key entry.key_id trusted_keys) [
        | none ↦ false
        | some key ↦ key_validates manifest_bytes entry key
      ]
      else false

  unfoldable pub verify_entries :
      Str → List TrustedKey → List SignatureEntry → Result ReleaseError VerifiedSignature
  unfolding entry_validates
  verify_entries manifest_bytes trusted_keys [] =
      err (invalid "no trusted Ed25519 signature validates the release manifest")
  verify_entries manifest_bytes trusted_keys (entry ∷ rest) =
      let later = verify_entries manifest_bytes trusted_keys rest in
      if entry_validates manifest_bytes trusted_keys entry
      then ok (record { key_id = entry.key_id })
      else later

  unfoldable pub verify_manifest_with_keys :
      (Str → Option SignatureEnvelope)
      → Str
      → Str
      → List TrustedKey
      → Result ReleaseError VerifiedSignature
  unfolding has_ed25519_key envelope_from_bytes verify_entries
  verify_manifest_with_keys decode manifest_bytes signature_bytes trusted_keys = do
    reject_if (is_empty trusted_keys) trust_anchor_not_configured
    reject_if (not (has_ed25519_key trusted_keys)) trust_anchor_not_configured
    envelope ← envelope_from_bytes decode signature_bytes
    verify_entries manifest_bytes trusted_keys envelope.signatures

  unfoldable pub verify_manifest :
      (Str → Option TrustedKeySet)
      → (Str → Option SignatureEnvelope)
      → App
      → Str
      → Str
      → Result ReleaseError VerifiedSignature
  unfolding key_set_from_bytes verify_manifest_with_keys
  verify_manifest decode_keys decode app manifest_bytes signature_bytes = do
    keys ← key_set_from_bytes decode_keys app.trust_anchor
    verify_manifest_with_keys decode manifest_bytes signature_bytes keys.keys

-- `sign_manifest_multi`: entries with an empty or repeated key id are skipped. A key is given by what
-- `STANDARD.encode(signing_key.sign(..).to_bytes())` makes of the message.
unfoldable pub sign_entries : Str → List Str → List (Str × (Str → Str)) → List SignatureEntry
unfolding is_seen
sign_entries manifest_bytes seen [] = []
sign_entries manifest_bytes seen ((key_id, sign) ∷ rest) =
    let skipped = sign_entries manifest_bytes seen rest in
    let signed =
      record { key_id = key_id; algorithm = ed25519_algorithm; signature = sign manifest_bytes }
      ∷ sign_entries manifest_bytes (key_id ∷ seen) rest in
    if is_empty key_id || is_seen key_id seen then skipped else signed

unfoldable pub sign_manifest_multi : Str → List (Str × (Str → Str)) → SignatureEnvelope
unfolding sign_entries
sign_manifest_multi manifest_bytes keys = record {
  schema_version = signature_schema_version;
  signatures = sign_entries manifest_bytes [] keys;
}
