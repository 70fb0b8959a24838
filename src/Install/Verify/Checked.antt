-- ===== src/Install/Verify/Checked.antt =====
-- What a verified version directory shows of its state document.
use relswap.Base.{
  Str, true, not, ◌||◌, ◌≡◌, refl, Option, none, some, List, ok, and_then-eq-ok, reject_if,
  reject_if-eq-ok, ok_or, str_eq_refl, str_eq, str_eq_iff, arith, is_empty, ◌==◌,
}
use relswap.Release.Target.{Target}
use relswap.Install.State.{
  VersionState, validate_version_state, valid_id, lower_sha256, read_version_document,
  state_schema_version,
}
use relswap.Install.Host.{Host, version_file}
use relswap.Install.Disk.{FileNode}
use relswap.Install.Journal.{read_json}
use relswap.Install.Verify.{verify_contents, verify_release, differs, node_at}

module _ {V : Type 0} (h : Host V) (members : List (Str × FileNode))
    (s : VersionState V Target) where
  -- A verification that asks for no installation succeeds for the one that the state names.
  pub verify_contents-named :
      (id : Str)
      → verify_contents h members none ≡ ok s
      → s.installation_id ≡ id
      → verify_contents h members (some id) ≡ ok s
  unfolding verify_contents differs
  verify_contents-named id e same =
      let (document, e1, f1) =
        and_then-eq-ok
          (read_json h.json.decode_version_state (read_version_document h.ext)
            (node_at version_file members))
          _ e in
      let (state, e2, f2) = and_then-eq-ok (ok_or document _) _ f1 in
      let (_, e3, f3) = and_then-eq-ok (validate_version_state h.ext h.app state) _ f2 in
      let (_, e4, f4) = and_then-eq-ok (verify_release h members state) _ f3 in
      let found : state ≡ s = ground (arith, f4) in
      rw (e1, e2, e3, e4, found, same, str_eq_refl id) refl

  -- A verification for an installation is one for any, and the state names that installation.
  pub verify_contents-owned :
      (id : Str)
      → verify_contents h members (some id) ≡ ok s
      → (verify_contents h members none ≡ ok s) × (s.installation_id ≡ id)
  unfolding verify_contents differs
  verify_contents-owned id e =
      let (document, e1, f1) =
        and_then-eq-ok
          (read_json h.json.decode_version_state (read_version_document h.ext)
            (node_at version_file members))
          _ e in
      let (state, e2, f2) = and_then-eq-ok (ok_or document _) _ f1 in
      let (_, e3, f3) = and_then-eq-ok (validate_version_state h.ext h.app state) _ f2 in
      let (_, e4, f4) = and_then-eq-ok (reject_if (not (str_eq state.installation_id id)) _) _ f3 in
      let (_, e5, f5) = and_then-eq-ok (verify_release h members state) _ f4 in
      let found : state ≡ s = ground (arith, f5) in
      let same = (str_eq_iff state.installation_id id).0 (ground (arith, reject_if-eq-ok _ _ e4)) in
      (rw (e1, e2, e3, e5, found) refl, rw (← found) same)

  pub verify_contents-Valid :
      (o : Option Str)
      → verify_contents h members o ≡ ok s
      → validate_version_state h.ext h.app s ≡ ok tt
  unfolding verify_contents
  verify_contents-Valid o e =
      let (document, e1, f1) =
        and_then-eq-ok
          (read_json h.json.decode_version_state (read_version_document h.ext)
            (node_at version_file members))
          _ e in
      let (state, e2, f2) = and_then-eq-ok (ok_or document _) _ f1 in
      let (_, e3, f3) = and_then-eq-ok (validate_version_state h.ext h.app state) _ f2 in
      let (_, e4, f4) = and_then-eq-ok (reject_if (differs h o state.installation_id) _) _ f3 in
      let (_, e5, f5) = and_then-eq-ok (verify_release h members state) _ f4 in
      let found : state ≡ s = ground (arith, f5) in rw (← found) e3

  pub valid_version_state-valid_id :
      validate_version_state h.ext h.app s ≡ ok tt → valid_id s.installation_id ≡ true
  unfolding validate_version_state
  valid_version_state-valid_id e =
      let (_, e1, f1) =
        and_then-eq-ok (reject_if (not (s.schema_version == state_schema_version)) _) _ e in
      let (_, e2, f2) =
        and_then-eq-ok
          (reject_if
            (is_empty (h.ext.version_text s.version)
              || not (valid_id s.installation_id)
              || s.size == 0
              || not (lower_sha256 s.binary_sha256))
            _)
          _ f1 in
      ground (arith, reject_if-eq-ok _ _ e2)
