-- ===== src/Install/Health/Documents.antt =====
-- What is written is read back: the two state documents and the pointer.
use relswap.Base.{
  Str, true, ◌≡◌, refl, Option, none, some, List, [], ◌∷◌, ◌++◌, ok, arith, str_eq_refl, ap,
}
use relswap.Install.State.{
  InstallState, PendingActivation, validate_install_state, validate_pending, deserialize_version,
  deserialize_optional_version, read_install_document, read_pending_document,
  parse_canonical_version,
}
use relswap.Install.Host.{Host, version_name, host_payload_name, payload_path, versions_dir_name}
use relswap.Install.Disk.{symlink}
use relswap.Install.Journal.{
  read_json, install_of, pending_of, install_document, pending_document, install_bytes,
  pending_bytes,
}
use relswap.Install.Pointer.{
  same_path, strip_path, parse_pointer_relative, parse_pointer_version, pointer_of,
}
use relswap.Install.Health.{IsLawfulHost}
use mathlib.Core.Option as option

same_path_refl : (p : List Str) → same_path p p ≡ true
unfolding same_path
same_path_refl [] = refl
same_path_refl (a ∷ p) = ground (arith, str_eq_refl a, same_path_refl p)

strip_path-append : (base p : List Str) → strip_path base (base ++ p) ≡ some p
unfolding strip_path
strip_path-append [] p = refl
strip_path-append (a ∷ base) p = ground (arith, str_eq_refl a, strip_path-append base p)

append_one : (root rest : List Str) (a : Str) → root ++ (a ∷ rest) ≡ (root ++ (a ∷ [])) ++ rest
append_one [] rest a = refl
append_one (b ∷ root) rest a = ap (λ l. b ∷ l) (append_one root rest a)

module _ {V : Type 0} (h : Host V) (lawful : IsLawfulHost h) where
  deserialize_version-text : (v : V) → deserialize_version h.ext (h.ext.version_text v) ≡ ok v
  unfolding deserialize_version
  deserialize_version-text v =
      rw (lawful.ext_lawful.parse_version-version_text v, str_eq_refl (h.ext.version_text v))

  deserialize_optional-text :
      (o : Option V) → deserialize_optional_version h.ext (option.map h.ext.version_text o) ≡ ok o
  unfolding deserialize_optional_version
  deserialize_optional-text none = refl
  deserialize_optional-text (some v) = rw (deserialize_version-text v)

  read-install_document :
      (s : InstallState V) → read_install_document h.ext (install_document h s) ≡ ok s
  unfolding read_install_document install_document
  read-install_document s =
      rw (deserialize_optional-text s.active, deserialize_optional-text s.previous)

  read-pending_document :
      (p : PendingActivation V) → read_pending_document h.ext (pending_document h p) ≡ ok p
  unfolding read_pending_document pending_document
  read-pending_document p = rw (deserialize_optional-text p.from, deserialize_version-text p.to)

  pub install_of-install_bytes :
      (s : InstallState V)
      → validate_install_state h.ext s ≡ ok tt
      → install_of h (install_bytes h s) ≡ ok (some s)
  unfolding install_of install_bytes read_json
  install_of-install_bytes s valid = rw (
    lawful.install_fits s valid,
    lawful.decode-encode_install (install_document h s),
    read-install_document s,
  )

  pub pending_of-pending_bytes :
      (p : PendingActivation V)
      → validate_pending h.ext p ≡ ok tt
      → pending_of h (pending_bytes h p) ≡ ok (some p)
  unfolding pending_of pending_bytes read_json
  pending_of-pending_bytes p valid = rw (
    lawful.pending_fits p valid,
    lawful.decode-encode_pending (pending_document h p),
    read-pending_document p,
  )

  parse_canonical-version_text :
      (v : V) → parse_canonical_version h.ext (h.ext.version_text v) ≡ ok v
  unfolding parse_canonical_version
  parse_canonical-version_text v =
      rw (lawful.ext_lawful.parse_version-version_text v, str_eq_refl (h.ext.version_text v))

  strip_path-payload_path :
      (v : V)
      → strip_path (h.root ++ (versions_dir_name ∷ [])) (payload_path h v)
        ≡ some (h.ext.version_text v ∷ host_payload_name h ∷ [])
  unfolding payload_path version_name
  strip_path-payload_path v =
      rw (append_one h.root (h.ext.version_text v ∷ host_payload_name h ∷ []) versions_dir_name) (
        strip_path-append (h.root ++ (versions_dir_name ∷ []))
          (h.ext.version_text v ∷ host_payload_name h ∷ []))

  parse_pointer-payload_path : (v : V) → parse_pointer_version h (payload_path h v) ≡ ok v
  unfolding parse_pointer_version parse_pointer_relative
  parse_pointer-payload_path v =
      rw (strip_path-payload_path v, parse_pointer_version)
        (rw (str_eq_refl (host_payload_name h)) (parse_canonical-version_text v))

  -- The pointer that a switch leaves names the version that was switched to.
  pub pointer_of-payload_path :
      (v : V) → pointer_of h (symlink true (payload_path h v)) ≡ ok (some v)
  unfolding pointer_of
  pointer_of-payload_path v = rw (parse_pointer-payload_path v, same_path_refl (payload_path h v))
