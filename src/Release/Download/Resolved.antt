-- ===== src/Release/Download/Resolved.antt =====
-- How metadata and archives are resolved (`fetch_latest_metadata`, `fetch_exact_metadata`,
-- `download_archive` in src/release/download.rs): over HTTPS, from one release, with the digests of
-- the manifest.
use relswap.Base.{
  Str, text, Bool, true, not, ◌≡◌, refl, sym, ap, ◌∙◌, ◌⊎◌, inl, inr, Option, none, some, List, [],
  ◌∷◌, Result, ok, ok_or, and_then-eq-ok, reject_if, reject_if-eq-ok, ok_or-eq-ok, str_eq,
  str_eq_iff, length, any, ◌==◌, ==→eq, Bool-cases, arith,
}
use relswap.External.{IsLawful}
use relswap.Release.Error.{ReleaseError, max_metadata_size}
use relswap.Release.Signature.{TrustedKey}
use relswap.Release.Download.Urls.{
  latest_metadata_url, release_base_from_manifest_url, versioned_manifest_url,
}
use relswap.Release.Download.Responses.{
  DownloadResponse, response_history, validate_response_transport, versioned_manifest_candidates,
  candidates_of,
}
use relswap.Release.Download.Metadata.{
  ReleaseMetadata, Client, insert_text, first, version_texts, resolve_latest_response,
  fetch_latest_metadata_by,
}
use relswap.Release.Download.Released.{Every, IsHttps, validate_response_transport-IsHttps}
use mathlib.Core.List.{Memᴰ}
use mathlib.Core.Path.{subst}
use relswap.Release.Download.Authentic.{IsAuthentic, fetch_verified_metadata-IsAuthentic}

-- A list of candidates whose versions print to one text names one version.
texts_none :
    {V U : Type 0} (c : Client V U) (P : V × U → Type 0) (cs : List (V × U))
    → version_texts c cs ≡ []
    → Every P cs
unfolding version_texts insert_text
texts_none c P [] e = tt
texts_none c P ((v, u) ∷ rest) e =
    elim (Bool-cases (any (str_eq (c.ext.version_text v)) (version_texts c rest))) [
      | inl t ↦ absurd (nonempty _ (version_texts c rest) t (ground (arith, e, t)))
      | inr f ↦ absurd (ground (arith, e, f))
    ]
  where
    nonempty : (p : Str → Bool) (xs : List Str) → any p xs ≡ true → xs ≡ [] → ⊥
    nonempty p [] t e = cc
    nonempty p (x ∷ xs) t e = cc

only_one : (s t : Str) (set : List Str) → set ≡ s ∷ [] → any (str_eq t) set ≡ true → t ≡ s
only_one s t [] e f = cc
only_one s t (x ∷ set) e f = ground (arith, str_eq_iff t x)

texts_one :
    {V U : Type 0} (c : Client V U) (s : Str) (cs : List (V × U))
    → version_texts c cs ≡ s ∷ []
    → Every (λ x. c.ext.version_text x.0 ≡ s) cs
unfolding version_texts insert_text
texts_one c s [] e = tt
texts_one c s ((v, u) ∷ rest) e =
    elim (Bool-cases (any (str_eq (c.ext.version_text v)) (version_texts c rest))) [
      | inl t ↦
          let same : version_texts c rest ≡ s ∷ [] = ground (arith, e, t) in
          (only_one s _ _ same t, texts_one c s rest same)
      | inr f ↦
          let both : c.ext.version_text v ∷ version_texts c rest ≡ s ∷ [] = ground (arith, e, f) in
          (ground (arith, both), texts_none c _ rest (ground (arith, both)))
    ]

Every-map :
    {A : Type 0} (P Q : A → Type 0)
    → ((x : A) → P x → Q x)
    → (xs : List A) → Every P xs
    → Every Q xs
Every-map P Q f [] a = tt
Every-map P Q f (x ∷ xs) (p, a) = (f x p, Every-map P Q f xs a)

abbrev OneText : List Str → Type 0
OneText set = (s : Str) × (set ≡ s ∷ [])

single : (set : List Str) → length set ≡ 1 → OneText set
single [] e = absurd (omega arith)
single (s ∷ []) e = (s, refl)
single (s ∷ t ∷ set) e = absurd (omega arith)

module _ {V U : Type 0} (c : Client V U) (lawful : IsLawful c.ext) where
  text_same : (v w : V) → c.ext.version_text v ≡ c.ext.version_text w → v ≡ w
  text_same v w e = some_same v w (
      sym (lawful.parse_version-version_text v)
      ∙ ap c.ext.parse_version e
      ∙ lawful.parse_version-version_text w)
    where
      some_same : (v w : V) → some v ≡ some w → v ≡ w
      some_same v w e = ground arith

  -- The URL is the manifest of this release, or of none.
  abbrev pub NamesOnly : V → U → Type 0
  NamesOnly version url =
      (versioned_manifest_url c.ext c.urls c.app url ≡ ok none)
      ⊎ ((u : U) × (versioned_manifest_url c.ext c.urls c.app url ≡ ok (some (version, u))))

  candidates-NamesOnly :
      (version : V) (list : List U) (cs : List (V × U))
      → candidates_of c.ext c.urls c.app list ≡ ok cs
      → Every (λ x. x.0 ≡ version) cs
      → Every (NamesOnly version) list
  unfolding candidates_of
  candidates-NamesOnly version [] cs e all = tt
  candidates-NamesOnly version (url ∷ rest) cs e all =
      let (found, a, f) = and_then-eq-ok (versioned_manifest_url c.ext c.urls c.app url) _ e in
      let (others, b, g) = and_then-eq-ok (candidates_of c.ext c.urls c.app rest) _ f in
      go found others g a (λ k. candidates-NamesOnly version rest others b k)
    where
      go :
          (found : Option (V × U)) (others : List (V × U))
          → ◌≡◌ {A = Result ReleaseError (List (V × U))}
              (ok (elim found [ none ↦ others | some (v, _) ↦ (v, url) ∷ others ]))
              (ok cs)
          → versioned_manifest_url c.ext c.urls c.app url ≡ ok found
          → (Every (λ x. x.0 ≡ version) others → Every (NamesOnly version) rest)
          → Every (NamesOnly version) (url ∷ rest)
      go none others g a ih =
          let same : others ≡ cs = ground arith in
          (inl a, ih (subst (Every (λ x. x.0 ≡ version)) (sym same) all))
      go (some (v, u)) others g a ih =
          let same : (v, url) ∷ others ≡ cs = ground arith in
          let (x, y) = subst (Every (λ x. x.0 ≡ version)) (sym same) all in
          (inr (u, a ∙ ap (λ w. ok (some (w, u))) x), ih y)

  -- A URL of the list is the manifest of this release.
  abbrev pub NamedIn : V → List U → Type 0
  NamedIn version list =
      (url : U) × Memᴰ url list
      × (u : U) × (versioned_manifest_url c.ext c.urls c.app url ≡ ok (some (version, u)))

  candidates-NamedIn :
      (version : V) (list : List U) (cs : List (V × U)) (release_url : U)
      → candidates_of c.ext c.urls c.app list ≡ ok cs
      → first cs ≡ some (version, release_url)
      → NamedIn version list
  unfolding candidates_of
  candidates-NamedIn version [] cs release_url e h =
      let same : [] ≡ cs = ground arith in absurd (ground (arith, same, h))
  candidates-NamedIn version (url ∷ rest) cs release_url e h =
      let (found, a, f) = and_then-eq-ok (versioned_manifest_url c.ext c.urls c.app url) _ e in
      let (others, b, g) = and_then-eq-ok (candidates_of c.ext c.urls c.app rest) _ f in
      go found others g a (λ k. candidates-NamedIn version rest others release_url b k)
    where
      go :
          (found : Option (V × U)) (others : List (V × U))
          → ◌≡◌ {A = Result ReleaseError (List (V × U))}
              (ok (elim found [ none ↦ others | some (v, _) ↦ (v, url) ∷ others ]))
              (ok cs)
          → versioned_manifest_url c.ext c.urls c.app url ≡ ok found
          → (first others ≡ some (version, release_url) → NamedIn version rest)
          → NamedIn version (url ∷ rest)
      go none others g a ih =
          let same : others ≡ cs = ground arith in
          let (x, m, u, n) = ih (ap first same ∙ h) in (x, Memᴰ.tail m, u, n)
      go (some (v, u)) others g a ih =
          let same : (v, url) ∷ others ≡ cs = ground arith in
          let named : v ≡ version = ground (arith, ap first same ∙ h) in
          (url, Memᴰ.head refl, u, a ∙ ap (λ w. ok (some (w, u))) named)

  -- The response that the manifest of the latest release came in.
  pub record HasOrigin (repository : U) (m : ReleaseMetadata V U) : Type 0 where
    pub url : U
    pub asked : latest_metadata_url c.ext c.urls c.app repository ≡ ok url
    pub response : DownloadResponse U
    pub fetched : c.fetch url max_metadata_size ≡ ok response
    pub received : m.manifest_bytes ≡ response.bytes
    pub secure : Every (IsHttps c.ext c.urls) (response_history response)
    pub one_release : Every (NamesOnly m.version) (response_history response)
    pub named : NamedIn m.version (response_history response)

  -- Candidates that print alike have the version of the first.
  all_named :
      (version : V) (cs : List (V × U)) (release_url : U) (text : Str)
      → version_texts c cs ≡ text ∷ []
      → first cs ≡ some (version, release_url)
      → Every (λ x. x.0 ≡ version) cs
  all_named version [] release_url text e h = tt
  all_named version ((v, u) ∷ rest) release_url text e h =
      let (a, b) = texts_one c text ((v, u) ∷ rest) e in
      let same : v ≡ version = ground (arith, h) in
      Every-map _ _ (λ x p. text_same x.0 version (p ∙ sym a ∙ ap c.ext.version_text same))
        ((v, u) ∷ rest) (a, b)

  -- The latest metadata is authentic for its own version, and the redirects that led to it name that
  -- version's manifest and no other's.
  pub fetch_latest_metadata-IsAuthentic :
      (repository : U) (trusted_keys : Option (List TrustedKey)) (m : ReleaseMetadata V U)
      → fetch_latest_metadata_by c repository trusted_keys ≡ ok m
      → IsAuthentic c trusted_keys m.version m × HasOrigin repository m
  unfolding fetch_latest_metadata_by resolve_latest_response versioned_manifest_candidates
  fetch_latest_metadata-IsAuthentic repository trusted_keys m e =
      let (url, asked, f1) =
        and_then-eq-ok (latest_metadata_url c.ext c.urls c.app repository) _ e in
      let (response, fetched, f2) = and_then-eq-ok (c.fetch url max_metadata_size) _ f1 in
      let (_, e3, f3) = and_then-eq-ok (validate_response_transport c.ext c.urls response) _ f2 in
      let (candidates, e4, f4) =
        and_then-eq-ok (candidates_of c.ext c.urls c.app (response_history response)) _ f3 in
      let (_, e5, f5) =
        and_then-eq-ok (reject_if (not (length (version_texts c candidates) == 1)) _) _ f4 in
      let ((version, release_url), e6, f6) = and_then-eq-ok (ok_or (first candidates) _) _ f5 in
      let (base, _, f7) =
        and_then-eq-ok (release_base_from_manifest_url c.ext c.urls c.app release_url) _ f6 in
      let (authentic, bytes) =
        fetch_verified_metadata-IsAuthentic c lawful trusted_keys response.bytes base version m
          f7 in
      let same = authentic.resolved in
      let head = ok_or-eq-ok (first candidates) _ e6 in
      let one =
        single (version_texts c candidates) (==→eq _ 1 (ground (arith, reject_if-eq-ok _ _ e5))) in
      (
        subst (λ v. IsAuthentic c trusted_keys v m) (sym same) authentic,
        record {
          url = url;
          asked = asked;
          response = response;
          fetched = fetched;
          received = bytes;
          secure = validate_response_transport-IsHttps c.ext c.urls response e3;
          one_release =
              subst (λ v. Every (NamesOnly v) (response_history response)) (sym same)
                (candidates-NamesOnly version (response_history response) candidates e4
                  (all_named version candidates release_url one.0 one.1 head));
          named =
              subst (λ v. NamedIn v (response_history response)) (sym same)
                (candidates-NamedIn version (response_history response) candidates release_url e4
                  head);
        },
      )
