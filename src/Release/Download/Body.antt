-- ===== src/Release/Download/Body.antt =====
-- Reading a response's body (`progress_read_limit`, `read_response_body`,
-- `read_response_body_observed` in src/release/download.rs) and the production transport's `fetch`.
-- ureq is a parameter: a call answers the strings of its URLs and a body, and a body is read under a
-- limit, whole or in chunks.
use relswap.Base.{
  ℕ, ◌+◌, ◌^◌, Str, String, map_err, Bool, Option, none, some, List, [], ◌∷◌, ◌++◌, Result, ok, err,
  ok_or, reject_if, length, is_empty, ltb, leb, if◌then◌else◌,
}
use relswap.External.{External}
use relswap.Release.Error.{ReleaseError, download, ◌>>=◌, ◌>>◌}
use relswap.Release.Download.Urls.{UrlCrate, require_https}
use relswap.Release.Download.Responses.{DownloadResponse}

-- `usize` and `u64` are 64 bits wide, so that the second conversion always succeeds.
unfoldable pub progress_read_limit : ℕ → Result ReleaseError ℕ
progress_read_limit max_bytes = do
  reject_if (leb (2 ^ 64) (max_bytes + 1)) (download "download size limit overflow")
  ok (max_bytes + 1)

-- `read` reads the whole body under a limit, or fails with an error that prints as a text.
unfoldable pub read_response_body : ℕ → (ℕ → Result String Str) → Result ReleaseError Str
unfolding progress_read_limit
read_response_body max_bytes read = do
  limit ← progress_read_limit max_bytes
  bytes ← map_err download (read limit)
  reject_if (ltb max_bytes (length bytes)) (download "response body exceeds maximum size")
  ok bytes

-- What the calls of `reader.read` answer in turn: bytes, where no bytes are the end, or an error that prints as
-- a text.
pub data Chunks : Type 0 where
  chunk : Str → Chunks → Chunks
  broken : String → Chunks
  finished : Chunks

-- The loop: what was read, and the counts that the observer is told.
unfoldable pub read_chunks : Chunks → Str → Result ReleaseError (Str × List ℕ)
read_chunks finished bytes = ok (bytes, [])
read_chunks (broken message) bytes = err (download message)
read_chunks (chunk piece rest) bytes =
    let bytes' = bytes ++ piece in
    let later = read_chunks rest bytes' in
    if is_empty piece
    then ok (bytes, [])
    else (do (all, counts) ← later; ok (all, length bytes' ∷ counts))

-- `read` gives the reader under a limit; the observer is told 0 first.
unfoldable pub read_response_body_observed : ℕ → (ℕ → Chunks) → Result ReleaseError (Str × List ℕ)
unfolding progress_read_limit read_chunks
read_response_body_observed max_bytes read = do
  limit ← progress_read_limit max_bytes
  (bytes, counts) ← read_chunks (read limit) []
  reject_if (ltb max_bytes (length bytes)) (download "response body exceeds maximum size")
  ok (bytes, 0 ∷ counts)

-- What a call of the agent answers.
pub record Answer : Type 0 where
  pub uri : Str
  pub redirects : Option (List Str)
  pub whole : ℕ → Result String Str
  pub chunks : ℕ → Chunks

abbrev pub or_empty : Option (List Str) → List Str
or_empty none = []
or_empty (some redirects) = redirects

unfoldable pub parse_all : {U : Type 0} → (Str → Option U) → List Str → Result ReleaseError (List U)
parse_all parse [] = ok []
parse_all parse (uri ∷ rest) =
    let later = parse_all parse rest in
    do url ← ok_or (parse uri) (download "invalid redirect URL"); urls ← later; ok (url ∷ urls)

unfoldable pub read_body : Bool → ℕ → Answer → Result ReleaseError Str
unfolding read_response_body read_response_body_observed
read_body observed max_bytes answer =
    if observed
    then (do (bytes, _) ← read_response_body_observed max_bytes answer.chunks; ok bytes)
    else read_response_body max_bytes answer.whole

-- `UreqDownloader::fetch`; `call` is the agent, and `parse` is `Url::parse`.
unfoldable pub fetch :
    {V U : Type 0}
    → External V
    → UrlCrate U
    → (Str → Option U)
    → (U → Result String Answer)
    → Bool
    → U
    → ℕ
    → Result ReleaseError (DownloadResponse U)
unfolding require_https parse_all read_body
fetch ext urls parse call observed url max_bytes = do
  require_https ext urls url
  answer ← map_err download (call url)
  final_url ← ok_or (parse answer.uri) (download "invalid final response URL")
  require_https ext urls final_url
  redirect_history ← parse_all parse (or_empty answer.redirects)
  bytes ← read_body observed max_bytes answer
  ok (record {
    requested_url = url;
    final_url = final_url;
    redirect_history = redirect_history;
    bytes = bytes;
  })
