-- ===== src/Install/Health/Rules.antt =====
-- Rules for the actions that only read, make missing directories or verify: they keep what they are
-- given, whatever fails.
use relswap.Base.{
  Str, true, false, ◌≡◌, refl, sym, ◌∙◌, Option, none, some, List, [], ◌∷◌, Result, ok, err, arith,
  lookup,
}
use relswap.Install.State.{InstallError}
use relswap.Install.Host.{Host, version_name}
use relswap.Install.Disk.{
  DirState, missing, directory, not_directory, VersionDir, Disk, World, Action, ◌>>=◌, Slot, lift,
  sync, inspect, random_id, take_id, ensure_dir_state, ensure_private_dir,
  ensure_private_version_dir, ensure_private_layout, version_dir_state, make_slot, make_version_dir,
  slot_state, root_slot, versions_slot, staging_slot,
}
use relswap.Install.Disk.Triple.{
  Ends, Post, Triple, Triple-pure, Triple-raise, Triple-lift, Triple-inspect, Triple-effect,
  Triple-bind, Triple-weaken,
}
use mathlib.Core.Path.{subst}
use relswap.Install.Verify.{verify_version_dir, verify_final_version, members_of, verify_contents}

missing→none : (o : Option VersionDir) → version_dir_state o ≡ missing → o ≡ none
missing→none none e = refl
missing→none (some dir) e = ground arith

module _ {V A : Type 0} (P : Disk → Type 0) (E : Disk → Type 0)
    (weak : (d : Disk) → P d → E d) where
  Post-known :
      (f : Disk → Result (InstallError V) A) (r : Result (InstallError V) A) (d : Disk)
      → P d
      → f d ≡ r
      → Post (λ a d. P d × (f d ≡ ok a)) E d r
  Post-known f (ok a) d p e = (p, e)
  Post-known f (err x) d p e = weak d p

  -- A read gives its value and keeps `P`.
  pub Triple-read :
      (f : Disk → Result (InstallError V) A) → Triple P (inspect f) (λ a d. P d × (f d ≡ ok a)) E
  Triple-read f = Triple-inspect f weak (λ d p. Post-known f (f d) d p refl)

  Post-checked :
      (r r' : Result (InstallError V) A) (d : Disk)
      → P d
      → r ≡ r'
      → Post (λ a d. P d × (r ≡ ok a)) E d r'
  Post-checked r (ok a) d p e = (p, e)
  Post-checked r (err x) d p e = weak d p

  pub Triple-check : (r : Result (InstallError V) A) → Triple P (lift r) (λ a d. P d × (r ≡ ok a)) E
  Triple-check r = Triple-lift r (λ d p. Post-checked r r d p refl)

module _ (V : Type 0) (P : Disk → Type 0) (E : Disk → Type 0) (weak : (d : Disk) → P d → E d) where
  random-Ends : (ids : List Str) (w : World) → P w.disk → Ends {V = V} (λ _. P) E (take_id ids w)
  random-Ends [] w p = weak w.disk p
  random-Ends (i ∷ rest) w p = p

module _ {V : Type 0} (P : Disk → Type 0) (E : Disk → Type 0) (weak : (d : Disk) → P d → E d) where
  pub Triple-sync : Triple {V = V} P sync (λ _. P) E
  unfolding sync
  Triple-sync = Triple-effect (λ d. d) weak weak (λ d p. p)

  pub Triple-random_id : Triple {V = V} P random_id (λ _. P) E
  unfolding random_id
  Triple-random_id = record { at = λ w p. random-Ends V P E weak w.ids w p }

  -- A directory is checked, or made when it is missing.
  pub Triple-ensure_dir :
      (state : DirState) (make : Disk → Disk) (S : Disk → DirState)
      → ((d : Disk) → P d → S d ≡ missing → P (make d))
      → Triple {V = V}
          (λ d. P d × ◌≡◌ {A = Result (InstallError V) DirState} (ok (S d)) (ok state))
          (ensure_dir_state state make)
          (λ _. P)
          E
  unfolding ensure_dir_state
  Triple-ensure_dir missing make S k =
      Triple-effect make (λ d p. weak d p.0) (λ d p. weak (make d) (k d p.0 (ground arith)))
        (λ d p. k d p.0 (ground arith))
  Triple-ensure_dir (directory true) make S k = Triple-pure tt (λ d p. p.0)
  Triple-ensure_dir (directory false) make S k = Triple-raise _ (λ d p. weak d p.0)
  Triple-ensure_dir not_directory make S k = Triple-raise _ (λ d p. weak d p.0)

  pub Triple-ensure_private_dir :
      (slot : Slot)
      → ((d : Disk) → P d → P (make_slot slot d))
      → Triple {V = V} P (ensure_private_dir slot) (λ _. P) E
  unfolding ensure_private_dir
  Triple-ensure_private_dir slot k =
      Triple-bind _ _ (Triple-read P E weak (λ d. ok (slot_state slot d)))
        (λ state. Triple-ensure_dir state (make_slot slot) (slot_state slot) (λ d p _. k d p))

  pub Triple-ensure_private_layout :
      ((slot : Slot) (d : Disk) → P d → P (make_slot slot d))
      → Triple {V = V} P ensure_private_layout (λ _. P) E
  unfolding ensure_private_layout
  Triple-ensure_private_layout k =
      Triple-bind _ _ (Triple-ensure_private_dir root_slot (k root_slot)) (λ _.
        Triple-bind _ _ (Triple-ensure_private_dir versions_slot (k versions_slot))
          (λ _. Triple-ensure_private_dir staging_slot (k staging_slot)))

  pub Triple-ensure_version_dir :
      (name : Str)
      → ((d : Disk) → P d → lookup name d.versions ≡ none → P (make_version_dir name d))
      → Triple {V = V} P (ensure_private_version_dir name) (λ _. P) E
  unfolding ensure_private_version_dir
  Triple-ensure_version_dir name k =
      Triple-bind _ _ (Triple-read P E weak (λ d. ok (version_dir_state (lookup name d.versions))))
        (λ state.
          Triple-ensure_dir state (make_version_dir name)
            (λ d. version_dir_state (lookup name d.versions))
            (λ d p m. k d p (missing→none (lookup name d.versions) m)))

module _ {V : Type 0} (h : Host V) (P : Disk → Type 0) (E : Disk → Type 0)
    (weak : (d : Disk) → P d → E d) where
  -- A verification keeps `P`, if a directory made under a free name does. Its result verified.
  pub Triple-verify :
      (version : V) (id : Option Str)
      → ((name : Str) (d : Disk)
          → P d
          → lookup name d.versions ≡ none
          → P (make_version_dir name d))
      → Triple P
          (verify_final_version h version id)
          (λ s d.
            P d
            × (verify_contents h (members_of (lookup (version_name h version) d.versions)) id
                ≡ ok s))
          E
  unfolding verify_final_version verify_version_dir
  Triple-verify version id k =
      Triple-bind _ _
        (Triple-bind _ _ (Triple-ensure_version_dir P E weak (version_name h version) (k _)) (λ _.
          Triple-read P E weak
            (λ d. verify_contents h (members_of (lookup (version_name h version) d.versions)) id)))
        (λ s.
          Triple-bind _ _
            (Triple-check
              (λ d.
                P d
                × (verify_contents h (members_of (lookup (version_name h version) d.versions)) id
                    ≡ ok s))
              E (λ d p. weak d p.0) _)
            (λ _. Triple-pure s (λ d p. p.0)))

module _ {V A : Type 0} {P : Disk → Type 0} {Q : A → Disk → Type 0} {E : Disk → Type 0} where
  -- What every start satisfies may be assumed.
  pub Triple-fact :
      {F : Type 0} (m : Action V A) → ((d : Disk) → P d → F) → (F → Triple P m Q E) → Triple P m Q E
  Triple-fact m fact k = record { at = λ w p. (k (fact w.disk p)).at w p }

ok_value : {E A : Type 0} (a b : A) → ◌≡◌ {A = Result E A} (ok a) (ok b) → a ≡ b
ok_value a b e = ground arith

module _ {V A B : Type 0} (P : Disk → Type 0) {Q : B → Disk → Type 0} (E : Disk → Type 0)
    (weak : (d : Disk) → P d → E d) where
  -- A read whose answer is known goes on with that answer.
  pub Triple-known :
      (f : Disk → Result (InstallError V) A) (a : A) (k : A → Action V B)
      → ((d : Disk) → P d → f d ≡ ok a)
      → Triple P (k a) Q E
      → Triple P (inspect f >>= k) Q E
  Triple-known f a k known t = Triple-bind _ _ (Triple-read P E weak f) (λ b.
      Triple-fact (k b) (λ d x. ok_value a b (sym (known d x.0) ∙ x.1))
        (λ same.
          subst (λ c. Triple (λ d. P d × (f d ≡ ok b)) (k c) Q E) same
            (Triple-weaken (k a) t (λ d x. x.0) (λ _ d y. y))))
