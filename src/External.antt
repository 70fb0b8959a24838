-- ===== src/External.antt =====
-- What the program takes from its dependencies (semver, sha2 and hex, base64, ed25519-dalek,
-- chrono), as a record of operations over an unknown type of versions, and the documented behaviour
-- that the theorems rely on. src/release and src/install call nothing else of these crates.
use Prim.Native.Nat.{Ordering}
use relswap.Base.{ℕ, Str, ◌≡◌, ◌↔◌, Bool, true, false, Option, some, arith}

pub record External (V : Type 0) : Type 0 where
  -- `Version::parse`, `Version::to_string` and the total order of `semver::Version`
  pub parse_version : Str → Option V
  pub version_text : V → Str
  pub version_cmp : V → V → Ordering
  -- `hex::encode(Sha256::digest(bytes))`
  pub sha256_bytes : Str → Str
  -- `base64::STANDARD.decode`
  pub base64_decode : Str → Option Str
  -- `VerifyingKey::from_bytes(bytes).is_ok()`
  pub is_public_key : Str → Bool
  -- `public_key.verify_strict(message, signature).is_ok()`
  pub verify_strict : Str → Str → Str → Bool
  -- `DateTime::parse_from_rfc3339`, in nanoseconds from the earliest instant of chrono
  pub parse_rfc3339 : Str → Option ℕ

module _ {V : Type 0} (ext : External V) where
  abbrev pub version_eq : V → V → Bool
  version_eq a b = elim (ext.version_cmp a b) [ Ordering.eq ↦ true | _ ↦ false ]

  abbrev pub version_lt : V → V → Bool
  version_lt a b = elim (ext.version_cmp a b) [ Ordering.lt ↦ true | _ ↦ false ]

  abbrev pub version_le : V → V → Bool
  version_le a b = elim (ext.version_cmp a b) [ Ordering.gt ↦ false | _ ↦ true ]

-- The order of `semver::Version` is total and agrees with `==`, and printing is undone by parsing.
pub record IsLawful {V : Type 0} (ext : External V) : Type 0 where
  pub cmp_eq : (a b : V) → (ext.version_cmp a b ≡ Ordering.eq) ↔ (a ≡ b)
  pub cmp_flip :
      (a b : V) → (ext.version_cmp a b ≡ Ordering.lt) ↔ (ext.version_cmp b a ≡ Ordering.gt)
  pub parse_version-version_text : (v : V) → ext.parse_version (ext.version_text v) ≡ some v

-- Versions that the code's `==` does not tell apart are equal.
pub version_eq→eq :
    {V : Type 0} (ext : External V) → IsLawful ext → (a b : V) → version_eq ext a b ≡ true → a ≡ b
version_eq→eq ext lawful a b e = (lawful.cmp_eq a b).0 (ground arith)
