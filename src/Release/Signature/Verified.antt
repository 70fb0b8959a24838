-- ===== src/Release/Signature/Verified.antt =====
-- What a verified manifest signature shows (`verify_manifest_with_keys`, src/release/signature.rs).
use relswap.Base.{
  Str, true, false, ◌&&◌, ◌||◌, ◌≡◌, ◌≢◌, ◌↔◌, refl, sym, ◌∙◌, and_then-eq-err, reject_if-eq-err,
  ok_or-eq-err, ok_or, ltb, inl, inr, Option, none, some, List, [], ◌∷◌, Result, ok, err,
  and_then-eq-ok, is_empty, str_eq, str_eq_iff, length, not, reject_if, Bool-cases, Option-cases,
  ◌==◌, ==→eq, &&-true, arith,
}
use relswap.External.{External}
use relswap.Release.Error.{
  ReleaseError, invalid, json, trust_anchor_not_configured, max_metadata_size, ◌>>=◌,
}
use relswap.Release.Signature.{
  SignatureEntry, SignatureEnvelope, TrustedKey, VerifiedSignature, ed25519_algorithm, is_ed25519,
  has_ed25519_key, find_key, decode_public_key, key_validates, entry_validates, verify_entries,
  envelope_from_bytes, verify_manifest_with_keys, check_entries, is_seen, signature_schema_version,
}
use mathlib.Core.List.{Memᴰ}

module _ {V : Type 0} (ext : External V) where
  -- An entry's signature that one of the trusted keys validates over these bytes.
  pub record IsTrusted (manifest_bytes : Str) (trusted_keys : List TrustedKey)
      (entry : SignatureEntry) : Type 0 where
    pub key : TrustedKey
    pub trusted : Memᴰ key trusted_keys
    pub named : key.id ≡ entry.key_id
    pub key_algorithm : key.algorithm ≡ ed25519_algorithm
    pub entry_algorithm : entry.algorithm ≡ ed25519_algorithm
    pub public_key : Str
    pub decoded : decode_public_key ext key ≡ ok public_key
    pub signature : Str
    pub signature_decoded : ext.base64_decode entry.signature ≡ some signature
    pub signature_length : length signature ≡ 64
    pub verifies : ext.verify_strict public_key manifest_bytes signature ≡ true

find_key-Memᴰ :
    (id : Str) (keys : List TrustedKey) (key : TrustedKey)
    → find_key id keys ≡ some key
    → Memᴰ key keys × (key.id ≡ id) × (key.algorithm ≡ ed25519_algorithm)
unfolding find_key is_ed25519
find_key-Memᴰ id [] key e = cc
find_key-Memᴰ id (k ∷ keys) key e = elim (Bool-cases (str_eq k.id id && is_ed25519 k.algorithm)) [
  | inl t ↦
      let same : k ≡ key = ground (arith, e, t) in
      let (a, b) = &&-true (str_eq k.id id) (is_ed25519 k.algorithm) t in
      (
        Memᴰ.head (sym same),
        rw (← same) ((str_eq_iff k.id id).0 a),
        rw (← same) ((str_eq_iff _ _).0 b),
      )
  | inr f ↦ let (m, x, y) = find_key-Memᴰ id keys key (ground (arith, e, f)) in (Memᴰ.tail m, x, y)
]

-- None of the keys is an Ed25519 key.
abbrev pub LacksEd25519 : List TrustedKey → Type 0
LacksEd25519 [] = Unit
LacksEd25519 (key ∷ keys) = (key.algorithm ≢ ed25519_algorithm) × LacksEd25519 keys

lacks_ed25519 : (keys : List TrustedKey) → has_ed25519_key keys ≡ false → LacksEd25519 keys
unfolding has_ed25519_key is_ed25519
lacks_ed25519 [] e = tt
lacks_ed25519 (key ∷ keys) e = (
  (λ same. absurd (ground (arith, e, (str_eq_iff key.algorithm ed25519_algorithm).1 same))),
  lacks_ed25519 keys (ground (arith, e)),
)

has_ed25519_key-LacksEd25519 :
    (keys : List TrustedKey) → LacksEd25519 keys → has_ed25519_key keys ≡ false
unfolding has_ed25519_key is_ed25519
has_ed25519_key-LacksEd25519 [] x = refl
has_ed25519_key-LacksEd25519 (key ∷ keys) x =
    elim (Bool-cases (str_eq key.algorithm ed25519_algorithm)) [
      | inl t ↦ absurd (x.0 ((str_eq_iff key.algorithm ed25519_algorithm).0 t))
      | inr f ↦ ground (arith, f, has_ed25519_key-LacksEd25519 keys x.1)
    ]

entries_unseen :
    (seen : List Str) (entries : List SignatureEntry)
    → check_entries seen entries ≢ err trust_anchor_not_configured
unfolding check_entries
entries_unseen seen [] e = cc
entries_unseen seen (entry ∷ rest) e =
    elim (and_then-eq-err
      (reject_if (is_empty entry.key_id || is_empty entry.algorithm || is_seen entry.key_id seen)
        (invalid "signature entries must have unique nonempty key ids and values"))
      (λ _. check_entries (entry.key_id ∷ seen) rest) e) [
        | inl x ↦ let same = (reject_if-eq-err _ _ x).1 in cc
        | inr (_, _, y) ↦ entries_unseen (entry.key_id ∷ seen) rest y
      ]

envelope_configured :
    (decode : Str → Option SignatureEnvelope) (bytes : Str)
    → envelope_from_bytes decode bytes ≢ err trust_anchor_not_configured
unfolding envelope_from_bytes
envelope_configured decode bytes e =
    elim (and_then-eq-err (reject_if (ltb max_metadata_size (length bytes)) _) _ e) [
      | inl x ↦ let same = (reject_if-eq-err _ _ x).1 in cc
      | inr (_, _, y) ↦ elim (and_then-eq-err (ok_or (decode bytes) json) _ y) [
        | inl x ↦ let same = (ok_or-eq-err _ _ x).1 in cc
        | inr (envelope, _, z) ↦
            elim (and_then-eq-err
              (reject_if (not (envelope.schema_version == signature_schema_version)) _) _ z) [
                | inl x ↦ let same = (reject_if-eq-err _ _ x).1 in cc
                | inr (_, _, u) ↦
                    elim (and_then-eq-err (reject_if (is_empty envelope.signatures) _) _ u) [
                      | inl x ↦ let same = (reject_if-eq-err _ _ x).1 in cc
                      | inr (_, _, v) ↦
                          elim (and_then-eq-err (check_entries [] envelope.signatures) _ v) [
                            | inl x ↦ entries_unseen [] envelope.signatures x
                            | inr (_, _, w) ↦ cc
                          ]
                    ]
              ]
      ]
    ]

module _ {V : Type 0} (ext : External V) (manifest_bytes : Str) where
  entries_configured :
      (trusted_keys : List TrustedKey) (entries : List SignatureEntry)
      → verify_entries ext manifest_bytes trusted_keys entries ≢ err trust_anchor_not_configured
  unfolding verify_entries
  entries_configured trusted_keys [] e = cc
  entries_configured trusted_keys (entry ∷ rest) e =
      elim (Bool-cases (entry_validates ext manifest_bytes trusted_keys entry)) [
        | inl t ↦ absurd (ground (arith, e, t))
        | inr f ↦ entries_configured trusted_keys rest (ground (arith, e, f))
      ]

  validates-parts :
      (r : Result ReleaseError Str) (o : Option Str)
      → (elim r [
        | err _ ↦ false
        | ok public_key ↦ elim o [
          | none ↦ false
          | some signature ↦
              length signature == 64 && ext.verify_strict public_key manifest_bytes signature
        ]
      ])
        ≡ true
      → (public_key : Str) × (r ≡ ok public_key)
        × (signature : Str) × (o ≡ some signature)
        × (length signature ≡ 64)
        × (ext.verify_strict public_key manifest_bytes signature ≡ true)
  validates-parts (err _) o e = cc
  validates-parts (ok public_key) none e = cc
  validates-parts (ok public_key) (some signature) e =
      let (a, b) =
        &&-true (length signature == 64) (ext.verify_strict public_key manifest_bytes signature)
          e in
      (public_key, refl, signature, refl, ==→eq (length signature) 64 a, b)

  entry_validates-IsTrusted :
      (trusted_keys : List TrustedKey) (entry : SignatureEntry)
      → entry_validates ext manifest_bytes trusted_keys entry ≡ true
      → IsTrusted ext manifest_bytes trusted_keys entry
  unfolding entry_validates key_validates is_ed25519
  entry_validates-IsTrusted trusted_keys entry e = elim (Bool-cases (is_ed25519 entry.algorithm)) [
    | inr f ↦ absurd (ground (arith, e, f))
    | inl t ↦ elim (Option-cases (find_key entry.key_id trusted_keys)) [
      | inl n ↦ absurd (ground (arith, e, t, n))
      | inr (key, found) ↦
          let (m, named, algorithm) = find_key-Memᴰ entry.key_id trusted_keys key found in
          let (public_key, decoded, signature, signature_decoded, l, v) =
            validates-parts (decode_public_key ext key) (ext.base64_decode entry.signature)
              (ground (arith, e, t, found)) in
          record {
            key = key;
            trusted = m;
            named = named;
            key_algorithm = algorithm;
            entry_algorithm = (str_eq_iff _ _).0 t;
            public_key = public_key;
            decoded = decoded;
            signature = signature;
            signature_decoded = signature_decoded;
            signature_length = l;
            verifies = v;
          }
    ]
  ]

  verify_entries-IsTrusted :
      (trusted_keys : List TrustedKey) (entries : List SignatureEntry) (v : VerifiedSignature)
      → verify_entries ext manifest_bytes trusted_keys entries ≡ ok v
      → (entry : SignatureEntry) × Memᴰ entry entries
        × (entry.key_id ≡ v.key_id)
        × IsTrusted ext manifest_bytes trusted_keys entry
  unfolding verify_entries
  verify_entries-IsTrusted trusted_keys [] v e = cc
  verify_entries-IsTrusted trusted_keys (entry ∷ rest) v e =
      elim (Bool-cases (entry_validates ext manifest_bytes trusted_keys entry)) [
        | inl t ↦ (
          entry,
          Memᴰ.head refl,
          ground (arith, e, t),
          entry_validates-IsTrusted trusted_keys entry t,
        )
        | inr f ↦
            let (x, m, y, z) =
              verify_entries-IsTrusted trusted_keys rest v (ground (arith, e, f)) in
            (x, Memᴰ.tail m, y, z)
      ]

  -- A manifest that verifies is signed, over its exact bytes, by a trusted Ed25519 key: the envelope
  -- that the signature file holds has an entry with the key id of the result, and a trusted key of that id
  -- validates it strictly.
  pub verify_manifest_with_keys-IsTrusted :
      (decode : Str → Option SignatureEnvelope) (signature_bytes : Str)
      (trusted_keys : List TrustedKey) (v : VerifiedSignature)
      → verify_manifest_with_keys ext decode manifest_bytes signature_bytes trusted_keys ≡ ok v
      → (envelope : SignatureEnvelope) × (envelope_from_bytes decode signature_bytes ≡ ok envelope)
        × (entry : SignatureEntry) × Memᴰ entry envelope.signatures
        × (entry.key_id ≡ v.key_id)
        × IsTrusted ext manifest_bytes trusted_keys entry
  unfolding verify_manifest_with_keys
  verify_manifest_with_keys-IsTrusted decode signature_bytes trusted_keys v e =
      let (_, _, e1) = and_then-eq-ok (reject_if (is_empty trusted_keys) _) _ e in
      let (_, _, e2) = and_then-eq-ok (reject_if (not (has_ed25519_key trusted_keys)) _) _ e1 in
      let (envelope, read, e3) = and_then-eq-ok (envelope_from_bytes decode signature_bytes) _ e2 in
      let (entry, m, named, trusted) =
        verify_entries-IsTrusted trusted_keys envelope.signatures v e3 in
      (envelope, read, entry, m, named, trusted)

  -- The error that no trust anchor is configured comes from the keys alone.
  no_other_error :
      (decode : Str → Option SignatureEnvelope) (signature_bytes : Str)
      (trusted_keys : List TrustedKey)
      → (envelope_from_bytes decode signature_bytes >>= λ envelope.
          verify_entries ext manifest_bytes trusted_keys envelope.signatures)
        ≢ err trust_anchor_not_configured
  no_other_error decode signature_bytes trusted_keys e =
      elim (and_then-eq-err (envelope_from_bytes decode signature_bytes)
        (λ envelope. verify_entries ext manifest_bytes trusted_keys envelope.signatures) e) [
          | inl x ↦ envelope_configured decode signature_bytes x
          | inr (envelope, _, x) ↦ entries_configured trusted_keys envelope.signatures x
        ]

  -- The error that no trust anchor is configured is answered exactly where none of the keys is an
  -- Ed25519 key, whatever the bytes of the manifest and of the signature file.
  pub verify_manifest_with_keys-no_anchor :
      (decode : Str → Option SignatureEnvelope) (signature_bytes : Str)
      (trusted_keys : List TrustedKey)
      → (verify_manifest_with_keys ext decode manifest_bytes signature_bytes trusted_keys
          ≡ err trust_anchor_not_configured)
        ↔ LacksEd25519 trusted_keys
  unfolding verify_manifest_with_keys has_ed25519_key
  verify_manifest_with_keys-no_anchor decode signature_bytes [] = ((λ e. tt), (λ x. refl))
  verify_manifest_with_keys-no_anchor decode signature_bytes (k ∷ keys) =
      elim (Bool-cases (has_ed25519_key (k ∷ keys))) [
        | inl t ↦ rw t (
          (λ e. absurd (no_other_error decode signature_bytes (k ∷ keys) e)),
          (λ x. absurd (true≢false (sym t ∙ has_ed25519_key-LacksEd25519 (k ∷ keys) x))),
        )
        | inr f ↦ rw f ((λ e. lacks_ed25519 (k ∷ keys) f), (λ x. refl))
      ]
    where
      true≢false : true ≢ false
      true≢false e = cc
