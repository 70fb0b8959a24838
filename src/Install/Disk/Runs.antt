-- ===== src/Install/Disk/Runs.antt =====
-- `Runs P m Q E`: with an empty schedule, where no call of the system fails, `m` ends with `Q` of its
-- result or, on an error of its own, with `E`; the schedule stays empty.
use relswap.Base.{Bool, false, ◌≡◌, refl, List, [], ◌∷◌, Result, ok, err, is_ok, Str}
use relswap.Install.State.{InstallError, FaultPoint}
use relswap.Install.Host.{Host}
use relswap.Install.Disk.{
  Disk, World, Outcome, Action, pure, raise, lift, continue, effect, inspect, attempt, fault_at,
  ◌>>=◌,
}
use relswap.Install.Disk.Triple.{Post}

abbrev pub Returns :
    {V A : Type 0}
    → (A → Disk → Type 0)
    → (Disk → Type 0)
    → Result (InstallError V) A × World
    → Type 0
Returns Q E (ok a, w) = (w.schedule ≡ []) × Q a w.disk
Returns Q E (err e, w) = (w.schedule ≡ []) × E w.disk

pub record Runs {V A : Type 0} (P : Disk → Type 0) (m : Action V A) (Q : A → Disk → Type 0)
    (E : Disk → Type 0) : Type 0 where
  pub at : (w : World) → w.schedule ≡ [] → P w.disk → Returns Q E (m w)

module _ {V A : Type 0} (Q : A → Disk → Type 0) (E : Disk → Type 0) where
  lift-Returns :
      (r : Result (InstallError V) A) (w : World)
      → w.schedule ≡ []
      → Post Q E w.disk r
      → Returns Q E (r, w)
  lift-Returns (ok a) w c p = (c, p)
  lift-Returns (err e) w c p = (c, p)

  inspect-Returns :
      (f : Disk → Result (InstallError V) A) (disk : Disk) (schedule : List Outcome)
      (ids : List Str)
      → schedule ≡ []
      → Post Q E disk (f disk)
      → Returns Q E (inspect f (record { disk = disk; schedule = schedule; ids = ids }))
  unfolding inspect
  inspect-Returns f d [] ids c p = lift-Returns (f d) _ refl p
  inspect-Returns f d (o ∷ rest) ids c p = cc

module _ (V : Type 0) (Q : Unit {0} → Disk → Type 0) (E : Disk → Type 0) where
  effect-Returns :
      (f : Disk → Disk) (disk : Disk) (schedule : List Outcome) (ids : List Str)
      → schedule ≡ []
      → Q tt (f disk)
      → Returns {V = V} Q E (effect f (record { disk = disk; schedule = schedule; ids = ids }))
  unfolding effect
  effect-Returns f d [] ids c q = (refl, q)
  effect-Returns f d (o ∷ rest) ids c q = cc

module _ {V A : Type 0} {P : Disk → Type 0} {Q : A → Disk → Type 0} {E : Disk → Type 0} where
  pub Runs-pure : (a : A) → ((d : Disk) → P d → Q a d) → Runs {V = V} P (pure a) Q E
  Runs-pure a k = record { at = λ w c p. (c, k w.disk p) }

  pub Runs-raise : (e : InstallError V) → ((d : Disk) → P d → E d) → Runs P (raise e) Q E
  Runs-raise e k = record { at = λ w c p. (c, k w.disk p) }

  pub Runs-lift :
      (r : Result (InstallError V) A) → ((d : Disk) → P d → Post Q E d r) → Runs P (lift r) Q E
  Runs-lift r k = record { at = λ w c p. lift-Returns Q E r w c (k w.disk p) }

  pub Runs-inspect :
      (f : Disk → Result (InstallError V) A)
      → ((d : Disk) → P d → Post Q E d (f d))
      → Runs P (inspect f) Q E
  Runs-inspect f k = record {
    at = λ w c p. inspect-Returns Q E f w.disk w.schedule w.ids c (k w.disk p);
  }

module _ {V : Type 0} {P : Disk → Type 0} {Q : Unit {0} → Disk → Type 0} {E : Disk → Type 0} where
  pub Runs-effect :
      (f : Disk → Disk) → ((d : Disk) → P d → Q tt (f d)) → Runs {V = V} P (effect f) Q E
  Runs-effect f q = record {
    at = λ w c p. effect-Returns V Q E f w.disk w.schedule w.ids c (q w.disk p);
  }

  pub Runs-fault :
      (h : Host V) (point : FaultPoint)
      → h.injects point ≡ false
      → ((d : Disk) → P d → Q tt d)
      → Runs P (fault_at h point) Q E
  unfolding fault_at
  Runs-fault h point off q = record { at = λ w c p. rw off (c, q w.disk p) }

module _ {V A B : Type 0} {R : A → Disk → Type 0} {Q : B → Disk → Type 0} {E : Disk → Type 0} where
  continue-Returns :
      (r : Result (InstallError V) A) (w : World) (f : A → Action V B)
      → Returns R E (r, w)
      → ((a : A) → Runs (R a) (f a) Q E)
      → Returns Q E (continue r f w)
  continue-Returns (ok a) w f p k = (k a).at w p.0 p.1
  continue-Returns (err e) w f p k = p

module _ {V A B : Type 0} {P : Disk → Type 0} {R : A → Disk → Type 0} {Q : B → Disk → Type 0}
    {E : Disk → Type 0} where
  pub Runs-bind :
      (m : Action V A) (f : A → Action V B)
      → Runs P m R E
      → ((a : A) → Runs (R a) (f a) Q E)
      → Runs P (m >>= f) Q E
  unfolding ◌>>=◌
  Runs-bind m f t k = record {
    at = λ w c p. let (r, w') = m w in continue-Returns r w' f (t.at w c p) k;
  }

module _ {V A : Type 0} (Q : Disk → Type 0) (E : Disk → Type 0) where
  attempt-Returns :
      (r : Result (InstallError V) A) (w : World)
      → Returns (λ (_ : A) d. Q d) Q (r, w)
      → Returns {V = V} (λ (_ : Bool) d. Q d) E (ok (is_ok r), w)
  attempt-Returns (ok a) w p = p
  attempt-Returns (err e) w p = p

module _ {V A : Type 0} {P : Disk → Type 0} {Q : Disk → Type 0} {E : Disk → Type 0} where
  pub Runs-attempt :
      (m : Action V A) → Runs P m (λ (_ : A) d. Q d) Q → Runs P (attempt m) (λ (_ : Bool) d. Q d) E
  unfolding attempt
  Runs-attempt m t = record {
    at = λ w c p. let (r, w') = m w in attempt-Returns Q E r w' (t.at w c p);
  }

module _ {V A : Type 0} (Q Q' : A → Disk → Type 0) (E : Disk → Type 0) where
  weaken-Returns :
      (r : Result (InstallError V) A) (w : World)
      → ((a : A) (d : Disk) → Q a d → Q' a d)
      → Returns Q E (r, w)
      → Returns Q' E (r, w)
  weaken-Returns (ok a) w k p = (p.0, k a w.disk p.1)
  weaken-Returns (err e) w k p = p

module _ {V A : Type 0} {P : Disk → Type 0} {Q Q' : A → Disk → Type 0} {E : Disk → Type 0} where
  pub Runs-weaken :
      (m : Action V A) → Runs P m Q E → ((a : A) (d : Disk) → Q a d → Q' a d) → Runs P m Q' E
  Runs-weaken m t post = record {
    at = λ w c p. let (r, w') = m w in weaken-Returns Q Q' E r w' post (t.at w c p);
  }
