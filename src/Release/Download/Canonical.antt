-- ===== src/Release/Download/Canonical.antt =====
-- Which URLs are the manifest of a release (`versioned_manifest_url` in src/release/download.rs).
use relswap.Base.{
  Str, text, Bool, true, false, not, ◌||◌, ◌≡◌, refl, sym, ap, ◌∙◌, ◌↔◌, inl, inr, Option, none,
  some, List, [], ◌∷◌, ◌++◌, Result, ok, ok_or, and_then-eq-ok, reject_if, reject_if-eq-ok,
  ok_or-eq-ok, str_eq, str_eq_iff, str_eq_refl, strip_prefix, is_empty, is_some, if-cases, arith,
}
use relswap.External.{External, IsLawful}
use relswap.App
use relswap.App.{App}
use relswap.Release.Error.{ReleaseError}
use relswap.Release.Download.Urls.{
  UrlCrate, manifest_version, find_manifest, versioned_manifest_url,
}

or_last : (p q r : Bool) → (p || q || r || true) ≡ true
or_last p q r = ground arith

-- The text after a leading `v`.
strip_v : (tag raw : Str) → strip_prefix (text "v") tag ≡ some raw → tag ≡ b'v' ∷ raw
unfolding strip_prefix
strip_v [] raw e = cc
strip_v (c ∷ tag) raw e = ground (arith, e)

nothing_of : {A : Type 0} (o : Option A) → is_some o ≡ false → o ≡ none
nothing_of none e = refl
nothing_of (some a) e = cc

module _ {V U : Type 0} (ext : External V) (urls : UrlCrate U) (app : App) where
  -- The last four segments of a release's manifest.
  abbrev pub manifest_segments : V → List Str
  manifest_segments version =
      text "releases"
      ∷ text "download"
      ∷ (text "v" ++ ext.version_text version)
      ∷ App.metadata_filename app
      ∷ []

  -- The URL ends in the manifest of this release and has neither a query nor a fragment.
  pub record IsManifestOf (version : V) (url : U) : Type 0 where
    pub before : List Str
    pub segments : urls.path_segments url ≡ some (before ++ manifest_segments version)
    pub query : urls.query url ≡ none
    pub fragment : urls.fragment url ≡ none

  -- The tag is `v` and the canonical text of the version.
  tagged :
      (url : U) (tag : Str) (version : V)
      → manifest_version ext urls app url tag ≡ ok version
      → (tag ≡ text "v" ++ ext.version_text version)
        × (urls.query url ≡ none)
        × (urls.fragment url ≡ none)
  unfolding manifest_version
  tagged url tag version e =
      let (raw, e1, f1) = and_then-eq-ok (ok_or (strip_prefix (text "v") tag) _) _ e in
      let (v, e2, f2) = and_then-eq-ok (ok_or (ext.parse_version raw) _) _ f1 in
      let (_, e3, f3) =
        and_then-eq-ok
          (reject_if
            (not (str_eq (ext.version_text v) raw)
              || is_some (urls.query url)
              || is_some (urls.fragment url))
            _)
          _ f2 in
      let all =
        reject_if-eq-ok
          (not (str_eq (ext.version_text v) raw)
            || is_some (urls.query url)
            || is_some (urls.fragment url))
          _ e3 in
      let same : v ≡ version = ok_same v version f3 in
      let printed = (str_eq_iff (ext.version_text v) raw).0 (ground (arith, all)) in
      (
        strip_v tag raw (ok_or-eq-ok _ _ e1)
            ∙ ap (λ s. b'v' ∷ s) (sym printed ∙ ap ext.version_text same),
        nothing_of (urls.query url) (ground (arith, all)),
        nothing_of (urls.fragment url) (ground (arith, all)),
      )
    where
      ok_same : (v w : V) → ◌≡◌ {A = Result ReleaseError V} (ok v) (ok w) → v ≡ w
      ok_same v w e = ground arith

  parts :
      (a b d f : Str) (rest : List Str)
      → (not (str_eq a (text "releases"))
          || not (str_eq b (text "download"))
          || not (str_eq d f)
          || not (is_empty rest))
        ≡ false
      → (a ≡ text "releases") × (b ≡ text "download") × (d ≡ f) × (rest ≡ [])
  parts a b d f [] e = (
    (str_eq_iff a _).0 (ground (arith, e)),
    (str_eq_iff b _).0 (ground (arith, e)),
    (str_eq_iff d f).0 (ground (arith, e)),
    refl,
  )
  parts a b d f (x ∷ rest) e = absurd (ground (arith, e))

  found_parts :
      (url : U) (segments : List Str) (version : V) (u : U)
      → find_manifest ext urls app url segments ≡ ok (some (version, u))
      → (before : List Str) × (segments ≡ before ++ manifest_segments version)
        × (urls.query url ≡ none)
        × (urls.fragment url ≡ none)
  unfolding find_manifest
  found_parts url [] version u e = absurd (ground (arith, e))
  found_parts url (a ∷ []) version u e = absurd (ground (arith, e))
  found_parts url (a ∷ b ∷ []) version u e = absurd (ground (arith, e))
  found_parts url (a ∷ b ∷ tag ∷ []) version u e = absurd (ground (arith, e))
  found_parts url (a ∷ b ∷ tag ∷ d ∷ rest) version u e =
      elim (if-cases
        (not (str_eq a (text "releases"))
          || not (str_eq b (text "download"))
          || not (str_eq d (App.metadata_filename app))
          || not (is_empty rest))
        _ _ e) [
          | inl (_, f) ↦
              let (before, same, q, r) = found_parts url (b ∷ tag ∷ d ∷ rest) version u f in
              (a ∷ before, ap (λ l. a ∷ l) same, q, r)
          | inr (t, f) ↦
              let (x, y, z, w) = parts a b d (App.metadata_filename app) rest t in
              let (v, g, k) = and_then-eq-ok (manifest_version ext urls app url tag) _ f in
              let named : v ≡ version = ok_version v u version k in
              let (tag_is, q, r) = tagged url tag v g in
              ([], rw (x, y, z, w, tag_is, named) refl, q, r)
        ]
    where
      ok_version :
          (v : V) (u : U) (version : V)
          → ◌≡◌ {A = Result ReleaseError (Option (V × U))}
              (ok (some (v, url)))
              (ok (some (version, u)))
          → v ≡ version
      ok_version v u version k = ground arith

  -- Segments that are not the last four are passed over.
  skipped :
      (url : U) (a b c d e : Str) (rest : List Str)
      → find_manifest ext urls app url (a ∷ b ∷ c ∷ d ∷ e ∷ rest)
        ≡ find_manifest ext urls app url (b ∷ c ∷ d ∷ e ∷ rest)
  unfolding find_manifest
  skipped url a b c d e rest =
      rw
        (or_last (not (str_eq a (text "releases"))) (not (str_eq b (text "download")))
          (not (str_eq d (App.metadata_filename app))))
        refl

  module _ (lawful : IsLawful ext) (version : V) (url : U) (no_query : urls.query url ≡ none)
      (no_fragment : urls.fragment url ≡ none) where
    accepted : manifest_version ext urls app url (text "v" ++ ext.version_text version) ≡ ok version
    unfolding manifest_version strip_prefix
    accepted =
        rw
          (
            lawful.parse_version-version_text version,
            str_eq_refl (ext.version_text version),
            no_query,
            no_fragment,
          )
          refl

    last_segments :
        find_manifest ext urls app url (manifest_segments version) ≡ ok (some (version, url))
    unfolding find_manifest
    last_segments = rw (str_eq_refl (App.metadata_filename app), accepted) refl

    found_there :
        (before : List Str)
        → find_manifest ext urls app url (before ++ manifest_segments version)
          ≡ ok (some (version, url))
    found_there [] = last_segments
    found_there (a ∷ []) = skipped url a _ _ _ _ [] ∙ found_there []
    found_there (a ∷ b ∷ []) = skipped url a b _ _ _ _ ∙ found_there (b ∷ [])
    found_there (a ∷ b ∷ c ∷ []) = skipped url a b c _ _ _ ∙ found_there (b ∷ c ∷ [])
    found_there (a ∷ b ∷ c ∷ d ∷ []) = skipped url a b c d _ _ ∙ found_there (b ∷ c ∷ d ∷ [])
    found_there (a ∷ b ∷ c ∷ d ∷ e ∷ before) =
        skipped url a b c d e (before ++ manifest_segments version)
        ∙ found_there (b ∷ c ∷ d ∷ e ∷ before)

  -- A URL is read as the manifest of a release exactly where its path ends in the canonical segments of
  -- that manifest, whatever stands before them, and it has neither a query nor a fragment.
  pub versioned_manifest_url-IsManifestOf :
      (lawful : IsLawful ext) (version : V) (url : U)
      → (versioned_manifest_url ext urls app url ≡ ok (some (version, url)))
        ↔ IsManifestOf version url
  unfolding versioned_manifest_url
  versioned_manifest_url-IsManifestOf lawful version url = (
    λ e.
        let (segments, e1, f1) = and_then-eq-ok (ok_or (urls.path_segments url) _) _ e in
        let (before, same, q, r) = found_parts url segments version url f1 in
        record {
          before = before;
          segments = ok_or-eq-ok (urls.path_segments url) _ e1 ∙ ap some same;
          query = q;
          fragment = r;
        },
    λ m. rw m.segments (found_there lawful version url m.query m.fragment m.before),
  )
