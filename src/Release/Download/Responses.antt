-- ===== src/Release/Download/Responses.antt =====
-- What a transport answered, and the checks of its redirects (`DownloadResponse`,
-- `validate_response_transport`, `reject_cross_release_redirects`, `versioned_manifest_candidates`,
-- `response_history` in src/release/download.rs).
use relswap.Base.{Str, not, none, some, List, [], ◌∷◌, ◌++◌, Result, ok, reject_if}
use relswap.External.{External, version_eq}
use relswap.App.{App}
use relswap.Release.Error.{ReleaseError, download, ◌>>=◌, ◌>>◌}
use relswap.Release.Download.Urls.{
  UrlCrate, require_https, versioned_manifest_url, versioned_release_version,
}

pub record DownloadResponse (U : Type 0) : Type 0 where
  pub requested_url : U
  pub final_url : U
  pub redirect_history : List U
  pub bytes : Str

unfoldable pub response_history : {U : Type 0} → DownloadResponse U → List U
response_history response =
    response.redirect_history ++ (response.requested_url ∷ response.final_url ∷ [])

module _ {V U : Type 0} (ext : External V) (urls : UrlCrate U) where
  unfoldable pub require_all_https : List U → Result ReleaseError (Unit {0})
  unfolding require_https
  require_all_https [] = ok tt
  require_all_https (url ∷ rest) =
      let later = require_all_https rest in do require_https ext urls url; later

  unfoldable pub validate_response_transport : DownloadResponse U → Result ReleaseError (Unit {0})
  unfolding require_https require_all_https
  validate_response_transport response = do
    require_https ext urls response.requested_url
    require_https ext urls response.final_url
    require_all_https response.redirect_history

  module _ (app : App) where
    -- One round of the loop: the URL names the expected release, or none.
    unfoldable pub same_release : V → U → Result ReleaseError (Unit {0})
    unfolding versioned_manifest_url versioned_release_version
    same_release expected url = do
      manifest ← versioned_manifest_url ext urls app url
      elim manifest [
        | some (version, _) ↦
            reject_if (not (version_eq ext version expected))
              (download "redirect history points at another release")
        | none ↦ (do
          release ← versioned_release_version ext urls url
          elim release [
            | some version ↦
                reject_if (not (version_eq ext version expected))
                  (download "redirect history points at another release")
            | none ↦ ok tt
          ])
      ]

    unfoldable pub all_same_release : V → List U → Result ReleaseError (Unit {0})
    unfolding same_release
    all_same_release expected [] = ok tt
    all_same_release expected (url ∷ rest) =
        let later = all_same_release expected rest in do same_release expected url; later

    unfoldable pub reject_cross_release_redirects :
        DownloadResponse U → V → Result ReleaseError (Unit {0})
    unfolding all_same_release response_history
    reject_cross_release_redirects response expected =
        all_same_release expected (response_history response)

    unfoldable pub candidates_of : List U → Result ReleaseError (List (V × U))
    unfolding versioned_manifest_url
    candidates_of [] = ok []
    candidates_of (url ∷ rest) =
        let later = candidates_of rest in
        do
          found ← versioned_manifest_url ext urls app url
          others ← later
          ok (elim found [ none ↦ others | some (version, _) ↦ (version, url) ∷ others ])

    unfoldable pub versioned_manifest_candidates :
        DownloadResponse U → Result ReleaseError (List (V × U))
    unfolding candidates_of response_history
    versioned_manifest_candidates response = candidates_of (response_history response)
