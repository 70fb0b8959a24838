-- ===== src/Release/Download/Released.antt =====
-- Which release a URL and a response belong to (`versioned_manifest_url`,
-- `reject_cross_release_redirects`, `validate_response_transport`, `versioned_manifest_candidates` in
-- src/release/download.rs).
use relswap.Base.{
  text, not, ◌≡◌, refl, ap, ◌⊎◌, inl, inr, Option, none, some, List, [], ◌∷◌, ◌++◌, Result, ok, err,
  and_then-eq-ok, reject_if, reject_if-eq-ok, str_eq_iff, arith,
}
use relswap.External.{External, IsLawful, version_eq, version_eq→eq}
use relswap.App.{App}
use relswap.Release.Error.{ReleaseError, download, ◌>>=◌}
use relswap.Release.Download.Urls.{
  UrlCrate, require_https, versioned_manifest_url, versioned_release_version,
}
use relswap.Release.Download.Responses.{
  DownloadResponse, response_history, require_all_https, validate_response_transport, same_release,
  all_same_release, reject_cross_release_redirects,
}

-- Every element of a list.
abbrev pub Every {ℓ} : {A : Type ℓ} → (A → Type 0) → List A → Type 0
Every P [] = Unit
Every P (x ∷ xs) = P x × Every P xs

Every-++ :
    {A : Type 0} (P : A → Type 0) (xs ys : List A) → Every P xs → Every P ys → Every P (xs ++ ys)
Every-++ P [] ys a b = b
Every-++ P (x ∷ xs) ys (p, a) b = (p, Every-++ P xs ys a b)

module _ {V U : Type 0} (ext : External V) (urls : UrlCrate U) where
  abbrev pub IsHttps : U → Type 0
  IsHttps url = urls.scheme url ≡ text "https"

  pub require_https-IsHttps : (url : U) → require_https ext urls url ≡ ok tt → IsHttps url
  unfolding require_https
  require_https-IsHttps url e = (str_eq_iff _ _).0 (ground (arith, reject_if-eq-ok _ _ e))

  require_all_https-IsHttps :
      (list : List U) → require_all_https ext urls list ≡ ok tt → Every IsHttps list
  unfolding require_all_https
  require_all_https-IsHttps [] e = tt
  require_all_https-IsHttps (url ∷ rest) e =
      let (_, a, b) = and_then-eq-ok (require_https ext urls url) _ e in
      (require_https-IsHttps url a, require_all_https-IsHttps rest b)

  -- A response that passed was asked for, answered and redirected over HTTPS alone.
  pub validate_response_transport-IsHttps :
      (response : DownloadResponse U)
      → validate_response_transport ext urls response ≡ ok tt
      → Every IsHttps (response_history response)
  unfolding validate_response_transport response_history
  validate_response_transport-IsHttps response e =
      let (_, a, e1) = and_then-eq-ok (require_https ext urls response.requested_url) _ e in
      let (_, b, c) = and_then-eq-ok (require_https ext urls response.final_url) _ e1 in
      Every-++ IsHttps response.redirect_history (response.requested_url ∷ response.final_url ∷ [])
        (require_all_https-IsHttps response.redirect_history c)
        (
          require_https-IsHttps response.requested_url a,
          (require_https-IsHttps response.final_url b, tt),
        )

  module _ (app : App) where
    -- The release that a URL names: that of a manifest URL, or that of a path below a release.
    abbrev named_by :
        Result ReleaseError (Option (V × U))
        → Result ReleaseError (Option V)
        → Result ReleaseError (Option V)
    named_by (err e) path = err e
    named_by (ok (some (v, _))) path = ok (some v)
    named_by (ok none) path = path

    abbrev pub release_named : U → Result ReleaseError (Option V)
    release_named url =
        named_by (versioned_manifest_url ext urls app url) (versioned_release_version ext urls url)

    -- The URL names this release or none.
    abbrev pub InRelease : V → U → Type 0
    InRelease version url = (release_named url ≡ ok (some version)) ⊎ (release_named url ≡ ok none)

    abbrev checked_path : V → Option V → Result ReleaseError (Unit {0})
    checked_path expected release = elim release [
      | some version ↦
          reject_if (not (version_eq ext version expected))
            (download "redirect history points at another release")
      | none ↦ ok tt
    ]

    abbrev checked :
        V
        → Result ReleaseError (Option (V × U))
        → Result ReleaseError (Option V)
        → Result ReleaseError (Unit {0})
    checked expected found path = do
      manifest ← found
      elim manifest [
        | some (version, _) ↦
            reject_if (not (version_eq ext version expected))
              (download "redirect history points at another release")
        | none ↦ (do
          release ← path
          elim release [
            | some version ↦
                reject_if (not (version_eq ext version expected))
                  (download "redirect history points at another release")
            | none ↦ ok tt
          ])
      ]

    module _ (lawful : IsLawful ext) (version : V) where
      checked_path-same : (v : V) → checked_path version (some v) ≡ ok tt → v ≡ version
      checked_path-same v e =
          let t = reject_if-eq-ok (not (version_eq ext v version)) _ e in
          version_eq→eq ext lawful v version (ground arith)

      checked_path-named :
          (path : Result ReleaseError (Option V))
          → checked version (ok none) path ≡ ok tt
          → (path ≡ ok (some version)) ⊎ (path ≡ ok none)
      checked_path-named (err x) e = cc
      checked_path-named (ok none) e = inr refl
      checked_path-named (ok (some v)) e = inl (ap (λ w. ok (some w)) (checked_path-same v e))

      checked-named :
          (manifest : Result ReleaseError (Option (V × U))) (path : Result ReleaseError (Option V))
          → checked version manifest path ≡ ok tt
          → (named_by manifest path ≡ ok (some version)) ⊎ (named_by manifest path ≡ ok none)
      checked-named (err x) path e = cc
      checked-named (ok none) path e = checked_path-named path e
      checked-named (ok (some (v, u))) path e = inl (ap (λ w. ok (some w)) (checked_path-same v e))

      same_release-InRelease :
          (url : U) → same_release ext urls app version url ≡ ok tt → InRelease version url
      unfolding same_release
      same_release-InRelease url e =
          checked-named (versioned_manifest_url ext urls app url)
            (versioned_release_version ext urls url) e

      all_same_release-InRelease :
          (list : List U)
          → all_same_release ext urls app version list ≡ ok tt
          → Every (InRelease version) list
      unfolding all_same_release
      all_same_release-InRelease [] e = tt
      all_same_release-InRelease (url ∷ rest) e =
          let (_, a, b) = and_then-eq-ok (same_release ext urls app version url) _ e in
          (same_release-InRelease url a, all_same_release-InRelease rest b)

      -- A response that passed was not redirected to a URL of another release.
      pub reject_cross_release_redirects-InRelease :
          (response : DownloadResponse U)
          → reject_cross_release_redirects ext urls app response version ≡ ok tt
          → Every (InRelease version) (response_history response)
      unfolding reject_cross_release_redirects
      reject_cross_release_redirects-InRelease response e =
          all_same_release-InRelease (response_history response) e
