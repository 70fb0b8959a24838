-- ===== src/Install/Health/Completed.antt =====
-- The documents that recovery writes are valid.
use relswap.Base.{
  Str, true, false, not, ◌||◌, ◌≡◌, ◌≢◌, refl, sym, Option, none, some, ok, and_then-eq-ok,
  reject_if, reject_if-eq-ok, ◌==◌, arith, ap, Bool-cases, inl, inr,
}
use relswap.External.{External, IsLawful, version_eq, version_eq→eq}
use relswap.Install.State.{
  InstallState, PendingActivation, state_schema_version, valid_id, option_eq,
  validate_install_state, validate_pending,
}
use relswap.Install.Host.{Host}
use relswap.Install.Disk.{Disk, special}
use relswap.Install.Journal.{install_of, pending_of, read_json}
use relswap.Install.Health.{At}

module _ {V : Type 0} (ext : External V) (lawful : IsLawful ext) where
  pub version_eq_refl : (v : V) → version_eq ext v v ≡ true
  version_eq_refl v = rw ((lawful.cmp_eq v v).1 refl, version_eq) refl

  pub option_eq_refl : (o : Option V) → option_eq ext o o ≡ true
  option_eq_refl none = refl
  option_eq_refl (some v) = version_eq_refl v

  pub option_eq→eq : (o p : Option V) → option_eq ext o p ≡ true → o ≡ p
  option_eq→eq none none e = refl
  option_eq→eq (some a) (some b) e = ap some (version_eq→eq ext lawful a b e)
  option_eq→eq none (some b) e = cc
  option_eq→eq (some a) none e = cc

  pub option_eq-different : (o p : Option V) → o ≡ p → option_eq ext o p ≡ false → ⊥
  option_eq-different o p same e =
      let t : option_eq ext o p ≡ true = rw same (option_eq_refl p) in ground (arith, t, e)

  pub option_eq-sym : (o p : Option V) → option_eq ext o p ≡ false → option_eq ext p o ≡ false
  option_eq-sym o p e = elim (Bool-cases (option_eq ext p o)) [
    | inr f ↦ f
    | inl t ↦ absurd (option_eq-different o p (sym (option_eq→eq p o t)) e)
  ]

module _ {V : Type 0} (ext : External V) where
  pub validate_pending-from :
      (p : PendingActivation V)
      → validate_pending ext p ≡ ok tt
      → option_eq ext p.from (some p.to) ≡ false
  unfolding validate_pending
  validate_pending-from p e =
      let (_, e1, f1) =
        and_then-eq-ok
          (reject_if
            (not (p.schema_version == state_schema_version) || not (valid_id p.transaction_id)) _)
          _ e in
      reject_if-eq-ok _ _ f1

  -- An active version, another one or none before it, and no launcher.
  pub written_valid :
      (active : V) (previous : Option V) (id : Str)
      → valid_id id ≡ true
      → option_eq ext (some active) previous ≡ false
      → validate_install_state ext (record {
        schema_version = state_schema_version;
        active = some active;
        previous = previous;
        installation_id = id;
        launcher = none;
      })
        ≡ ok tt
  unfolding validate_install_state
  written_valid active previous id valid other = rw (valid, other) refl

module _ {V : Type 0} (h : Host V) {install : Option (InstallState V)}
    {pending : Option (PendingActivation V)} {pointer : Option V} {d : Disk}
    (x : At h install pending pointer d) where
  -- A document that reads is no link.
  pub install-real : d.install ≢ special
  unfolding install_of read_json
  install-real e = absurd (ground (arith, x.install_read, e))

  pub pending-real : d.pending ≢ special
  unfolding pending_of read_json
  pending-real e = absurd (ground (arith, x.pending_read, e))
