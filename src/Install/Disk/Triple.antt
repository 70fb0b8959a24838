-- ===== src/Install/Disk/Triple.antt =====
-- Rules for actions on the disk. `Triple P m Q E`: from a disk with `P`, and whatever fails, `m` ends
-- with `Q` of its result or, on an error, with `E`. `Runs P m Q`: with an empty schedule, where every
-- call succeeds, `m` returns and ends with `Q`.
use relswap.Base.{Bool, true, false, List, [], ◌∷◌, Result, ok, err, is_ok, Str, reject_if}
use relswap.Install.State.{InstallError, FaultPoint}
use relswap.Install.Host.{Host}
use relswap.Install.Disk.{
  Disk, World, Outcome, succeeds, fails_before, fails_after, Action, pure, raise, lift, continue,
  effect, inspect, attempt, fault_at, ◌>>=◌,
}

abbrev pub Ends :
    {V A : Type 0}
    → (A → Disk → Type 0)
    → (Disk → Type 0)
    → Result (InstallError V) A × World
    → Type 0
Ends Q E (ok a, w) = Q a w.disk
Ends Q E (err e, w) = E w.disk

pub record Triple {V A : Type 0} (P : Disk → Type 0) (m : Action V A) (Q : A → Disk → Type 0)
    (E : Disk → Type 0) : Type 0 where
  pub at : (w : World) → P w.disk → Ends Q E (m w)

-- What a pure check at a disk leaves.
abbrev pub Post :
    {V A : Type 0}
    → (A → Disk → Type 0)
    → (Disk → Type 0)
    → Disk
    → Result (InstallError V) A
    → Type 0
Post Q E d (ok a) = Q a d
Post Q E d (err e) = E d

module _ {V A : Type 0} (Q : A → Disk → Type 0) (E : Disk → Type 0) where
  lift-Ends : (r : Result (InstallError V) A) (w : World) → Post Q E w.disk r → Ends Q E (r, w)
  lift-Ends (ok a) w p = p
  lift-Ends (err e) w p = p

  inspect-Ends :
      (f : Disk → Result (InstallError V) A) (disk : Disk) (schedule : List Outcome)
      (ids : List Str)
      → E disk
      → Post Q E disk (f disk)
      → Ends Q E (inspect f (record { disk = disk; schedule = schedule; ids = ids }))
  unfolding inspect
  inspect-Ends f d [] ids e p = lift-Ends (f d) _ p
  inspect-Ends f d (succeeds ∷ rest) ids e p = lift-Ends (f d) _ p
  inspect-Ends f d (fails_before ∷ rest) ids e p = e
  inspect-Ends f d (fails_after ∷ rest) ids e p = e

module _ (V : Type 0) (Q : Unit {0} → Disk → Type 0) (E : Disk → Type 0) where
  effect-Ends :
      (f : Disk → Disk) (disk : Disk) (schedule : List Outcome) (ids : List Str)
      → E disk
      → E (f disk)
      → Q tt (f disk)
      → Ends {V = V} Q E (effect f (record { disk = disk; schedule = schedule; ids = ids }))
  unfolding effect
  effect-Ends f d [] ids before after q = q
  effect-Ends f d (succeeds ∷ rest) ids before after q = q
  effect-Ends f d (fails_before ∷ rest) ids before after q = before
  effect-Ends f d (fails_after ∷ rest) ids before after q = after

  fault-Ends :
      (b : Bool) (e : InstallError V) (w : World)
      → E w.disk
      → Q tt w.disk
      → Ends Q E (reject_if b e, w)
  fault-Ends true e w x q = x
  fault-Ends false e w x q = q

module _ {V A B : Type 0} {R : A → Disk → Type 0} {Q : B → Disk → Type 0} {E : Disk → Type 0} where
  pub continue-Ends :
      (r : Result (InstallError V) A) (w : World) (f : A → Action V B)
      → Ends R E (r, w)
      → ((a : A) → Triple (R a) (f a) Q E)
      → Ends Q E (continue r f w)
  continue-Ends (ok a) w f p k = (k a).at w p
  continue-Ends (err e) w f p k = p

module _ {V A : Type 0} {P : Disk → Type 0} {Q : A → Disk → Type 0} {E : Disk → Type 0} where
  pub Triple-pure : (a : A) → ((d : Disk) → P d → Q a d) → Triple {V = V} P (pure a) Q E
  Triple-pure a k = record { at = λ w p. k w.disk p }

  pub Triple-raise : (e : InstallError V) → ((d : Disk) → P d → E d) → Triple P (raise e) Q E
  Triple-raise e k = record { at = λ w p. k w.disk p }

  pub Triple-lift :
      (r : Result (InstallError V) A) → ((d : Disk) → P d → Post Q E d r) → Triple P (lift r) Q E
  Triple-lift r k = record { at = λ w p. lift-Ends Q E r w (k w.disk p) }

  pub Triple-inspect :
      (f : Disk → Result (InstallError V) A)
      → ((d : Disk) → P d → E d)
      → ((d : Disk) → P d → Post Q E d (f d))
      → Triple P (inspect f) Q E
  Triple-inspect f e k = record {
    at = λ w p. inspect-Ends Q E f w.disk w.schedule w.ids (e w.disk p) (k w.disk p);
  }

module _ {V : Type 0} {P : Disk → Type 0} {Q : Unit {0} → Disk → Type 0} {E : Disk → Type 0} where
  pub Triple-effect :
      (f : Disk → Disk)
      → ((d : Disk) → P d → E d)
      → ((d : Disk) → P d → E (f d))
      → ((d : Disk) → P d → Q tt (f d))
      → Triple {V = V} P (effect f) Q E
  Triple-effect f before after q = record {
    at = λ w p.
        effect-Ends V Q E f w.disk w.schedule w.ids (before w.disk p) (after w.disk p) (q w.disk p);
  }

  pub Triple-fault :
      (h : Host V) (point : FaultPoint)
      → ((d : Disk) → P d → E d)
      → ((d : Disk) → P d → Q tt d)
      → Triple P (fault_at h point) Q E
  unfolding fault_at
  Triple-fault h point e q = record {
    at = λ w p. fault-Ends V Q E (h.injects point) _ w (e w.disk p) (q w.disk p);
  }

module _ {V A B : Type 0} {P : Disk → Type 0} {R : A → Disk → Type 0} {Q : B → Disk → Type 0}
    {E : Disk → Type 0} where
  pub Triple-bind :
      (m : Action V A) (f : A → Action V B)
      → Triple P m R E
      → ((a : A) → Triple (R a) (f a) Q E)
      → Triple P (m >>= f) Q E
  unfolding ◌>>=◌
  Triple-bind m f t k = record {
    at = λ w p. let (r, w') = m w in continue-Ends r w' f (t.at w p) k;
  }

module _ {V A : Type 0} (Q Q' : A → Disk → Type 0) (E : Disk → Type 0) where
  weaken-Ends :
      (r : Result (InstallError V) A) (w : World)
      → ((a : A) (d : Disk) → Q a d → Q' a d)
      → Ends Q E (r, w)
      → Ends Q' E (r, w)
  weaken-Ends (ok a) w k p = k a w.disk p
  weaken-Ends (err e) w k p = p

module _ {V A : Type 0} {P P' : Disk → Type 0} {Q Q' : A → Disk → Type 0} {E : Disk → Type 0} where
  -- A stronger start and a weaker end.
  pub Triple-weaken :
      (m : Action V A)
      → Triple P m Q E
      → ((d : Disk) → P' d → P d)
      → ((a : A) (d : Disk) → Q a d → Q' a d)
      → Triple P' m Q' E
  Triple-weaken m t pre post = record {
    at = λ w p. let (r, w') = m w in weaken-Ends Q Q' E r w' post (t.at w (pre w.disk p));
  }

module _ {V A : Type 0} (Q E : Disk → Type 0) where
  attempt-Ends :
      (r : Result (InstallError V) A) (w : World)
      → Ends (λ (_ : A) d. Q d) Q (r, w)
      → Ends {V = V} (λ (_ : Bool) d. Q d) E (ok (is_ok r), w)
  attempt-Ends (ok a) w p = p
  attempt-Ends (err e) w p = p

module _ {V A : Type 0} {P : Disk → Type 0} {Q E : Disk → Type 0} where
  pub Triple-attempt :
      (m : Action V A)
      → Triple P m (λ (_ : A) d. Q d) Q
      → Triple P (attempt m) (λ (_ : Bool) d. Q d) E
  unfolding attempt
  Triple-attempt m t = record { at = λ w p. let (r, w') = m w in attempt-Ends Q E r w' (t.at w p) }

module _ {V A : Type 0} (Q : A → Disk → Type 0) (E E' : Disk → Type 0) where
  relax-Ends :
      (r : Result (InstallError V) A) (w : World)
      → ((d : Disk) → E d → E' d)
      → Ends Q E (r, w)
      → Ends Q E' (r, w)
  relax-Ends (ok a) w k p = p
  relax-Ends (err e) w k p = k w.disk p

module _ {V A : Type 0} {P : Disk → Type 0} {Q : A → Disk → Type 0} {E E' : Disk → Type 0} where
  -- A weaker end on an error.
  pub Triple-relax : (m : Action V A) → Triple P m Q E → ((d : Disk) → E d → E' d) → Triple P m Q E'
  Triple-relax m t k = record {
    at = λ w p. let (r, w') = m w in relax-Ends Q E E' r w' k (t.at w p);
  }
