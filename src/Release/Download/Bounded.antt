-- ===== src/Release/Download/Bounded.antt =====
-- What the production transport answers, whether a transfer is observed or not (`UreqDownloader::fetch`,
-- `read_response_body`, `read_response_body_observed` in src/release/download.rs).
use relswap.Base.{
  ℕ, ◌≤◌, map_err, String, Str, Bool, true, false, ◌≡◌, refl, sym, ap, ◌∙◌, Option, List, [], ◌∷◌,
  Result, ok, err, ok_or, and_then-eq-ok, reject_if, reject_if-eq-ok, length, ltb, arith,
}
use relswap.External.{External}
use mathlib.Core.Path.{subst}
use relswap.Release.Error.{ReleaseError, download, ◌>>=◌, ◌>>◌}
use relswap.Release.Download.Urls.{UrlCrate, require_https}
use relswap.Release.Download.Responses.{DownloadResponse}
use relswap.Release.Download.Body.{
  progress_read_limit, read_response_body, read_chunks, read_response_body_observed, Answer,
  or_empty, parse_all, read_body, fetch,
}
use relswap.Release.Download.Released.{IsHttps, require_https-IsHttps}

abbrev bytes_of : Result ReleaseError (Str × List ℕ) → Result ReleaseError Str
bytes_of r = r >>= λ x. ok x.0

abbrev bounded_pair : ℕ → Result ReleaseError (Str × List ℕ) → Result ReleaseError (Str × List ℕ)
bounded_pair max_bytes r = do
  (bytes, counts) ← r
  reject_if (ltb max_bytes (length bytes)) (download "response body exceeds maximum size")
  ok (bytes, 0 ∷ counts)

abbrev bounded : ℕ → Result ReleaseError Str → Result ReleaseError Str
bounded max_bytes r = do
  bytes ← r
  reject_if (ltb max_bytes (length bytes)) (download "response body exceeds maximum size")
  ok bytes

bounded_pair-bytes_of :
    (max_bytes : ℕ) (r : Result ReleaseError (Str × List ℕ))
    → bytes_of (bounded_pair max_bytes r) ≡ bounded max_bytes (bytes_of r)
bounded_pair-bytes_of max_bytes (err e) = refl
bounded_pair-bytes_of max_bytes (ok (bytes, counts)) =
    either (ltb max_bytes (length bytes)) bytes counts
  where
    either :
        (over : Bool) (bytes : Str) (counts : List ℕ)
        → bytes_of (
            reject_if over (download "response body exceeds maximum size")
            >> ok (bytes, 0 ∷ counts))
          ≡ (reject_if over (download "response body exceeds maximum size") >> ok bytes)
    either true bytes counts = refl
    either false bytes counts = refl

bounded-le :
    (max_bytes : ℕ) (r : Result ReleaseError Str) (bytes : Str)
    → bounded max_bytes r ≡ ok bytes
    → length bytes ≤ max_bytes
bounded-le max_bytes r bytes e =
    let (b, _, f) = and_then-eq-ok r _ e in
    let (_, over, same) = and_then-eq-ok (reject_if (ltb max_bytes (length b)) _) _ f in
    le b same (reject_if-eq-ok (ltb max_bytes (length b)) _ over)
  where
    le :
        (b : Str)
        → ◌≡◌ {A = Result ReleaseError Str} (ok b) (ok bytes)
        → ltb max_bytes (length b) ≡ false
        → length bytes ≤ max_bytes
    le b same small = let eq : b ≡ bytes = ground arith in rw (← eq) (ground (arith, small))

read_body-le :
    (observed : Bool) (max_bytes : ℕ) (answer : Answer) (bytes : Str)
    → read_body observed max_bytes answer ≡ ok bytes
    → length bytes ≤ max_bytes
unfolding read_body read_response_body read_response_body_observed
read_body-le false max_bytes answer bytes e =
    let (limit, _, f) = and_then-eq-ok (progress_read_limit max_bytes) _ e in
    bounded-le max_bytes (map_err download (answer.whole limit)) bytes f
read_body-le true max_bytes answer bytes e =
    let ((b, counts), f, same) =
      and_then-eq-ok (read_response_body_observed max_bytes answer.chunks) _ e in
    let (limit, _, g) = and_then-eq-ok (progress_read_limit max_bytes) _ f in
    let r = read_chunks (answer.chunks limit) [] in
    bounded-le max_bytes (bytes_of r) bytes
      (sym (bounded_pair-bytes_of max_bytes r) ∙ ap bytes_of g ∙ same)

-- A response of the production transport answers the URL that was asked for, began and ended over
-- HTTPS, and has at most the bytes that were allowed.
pub fetch-bounded :
    {V U : Type 0} (ext : External V) (urls : UrlCrate U) (parse : Str → Option U)
    (call : U → Result String Answer) (observed : Bool) (url : U) (max_bytes : ℕ)
    (response : DownloadResponse U)
    → fetch ext urls parse call observed url max_bytes ≡ ok response
    → (response.requested_url ≡ url)
      × IsHttps ext urls url
      × IsHttps ext urls response.final_url
      × (length response.bytes ≤ max_bytes)
unfolding fetch
fetch-bounded {U = U} ext urls parse call observed url max_bytes response e =
    let (_, e1, f1) = and_then-eq-ok (require_https ext urls url) _ e in
    let (answer, _, f2) = and_then-eq-ok (map_err download (call url)) _ f1 in
    let (final_url, _, f3) = and_then-eq-ok (ok_or (parse answer.uri) _) _ f2 in
    let (_, e4, f4) = and_then-eq-ok (require_https ext urls final_url) _ f3 in
    let (history, _, f5) = and_then-eq-ok (parse_all parse (or_empty answer.redirects)) _ f4 in
    let (bytes, e6, f6) = and_then-eq-ok (read_body observed max_bytes answer) _ f5 in
    let made : DownloadResponse U = record {
      requested_url = url;
      final_url = final_url;
      redirect_history = history;
      bytes = bytes;
    } in
    subst
      (λ x.
        (x.requested_url ≡ url)
        × IsHttps ext urls url
        × IsHttps ext urls x.final_url
        × (length x.bytes ≤ max_bytes))
      (ok_response made response f6)
      (
        refl,
        require_https-IsHttps ext urls url e1,
        require_https-IsHttps ext urls final_url e4,
        read_body-le observed max_bytes answer bytes e6,
      )
  where
    ok_response :
        (a b : DownloadResponse U)
        → ◌≡◌ {A = Result ReleaseError (DownloadResponse U)} (ok a) (ok b)
        → a ≡ b
    ok_response a b e = ground arith
