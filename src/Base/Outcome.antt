-- ===== src/Base/Outcome.antt =====
-- Rust's `Result`, with `?` as a bind.
use mathlib.Core.Path.{◌≡◌, refl}
use mathlib.Core.Logic.{◌⊎◌, inl, inr}
use mathlib.Core.Bool.{Bool, true, false}
use mathlib.Core.Option.{Option, none, some}
use native.Mathlib.Omega.{arith}

pub data Result (E A : Type 0) : Type 0 where
  ok : A → Result E A
  err : E → Result E A

abbrev pub and_then : {E A B : Type 0} → Result E A → (A → Result E B) → Result E B
and_then (ok a) f = f a
and_then (err e) f = err e

abbrev pub map_err : {E F A : Type 0} → (E → F) → Result E A → Result F A
map_err f (ok a) = ok a
map_err f (err e) = err (f e)

abbrev pub ok_or : {E A : Type 0} → Option A → E → Result E A
ok_or none e = err e
ok_or (some a) e = ok a

-- `if c { return Err(e) }`
abbrev pub reject_if : {E : Type 0} → Bool → E → Result E (Unit {0})
reject_if true e = err e
reject_if false e = ok tt

abbrev pub is_ok : {E A : Type 0} → Result E A → Bool
is_ok (ok _) = true
is_ok (err _) = false

-- What a chain that succeeded went through.
pub and_then-eq-ok :
    {E A B : Type 0} (m : Result E A) (f : A → Result E B) {b : B}
    → and_then m f ≡ ok b
    → (a : A) × (m ≡ ok a) × (f a ≡ ok b)
and_then-eq-ok (ok a) f h = (a, refl, h)
and_then-eq-ok (err e) f h = cc

-- Where a chain that failed failed.
pub and_then-eq-err :
    {E A B : Type 0} (m : Result E A) (f : A → Result E B) {e : E}
    → and_then m f ≡ err e
    → (m ≡ err e) ⊎ ((a : A) × (m ≡ ok a) × (f a ≡ err e))
and_then-eq-err (ok a) f h = inr (a, refl, h)
and_then-eq-err (err e) f h = inl (ground arith)

pub reject_if-eq-err :
    {E : Type 0} (c : Bool) (e : E) {x : E} → reject_if c e ≡ err x → (c ≡ true) × (e ≡ x)
reject_if-eq-err true e h = ground arith
reject_if-eq-err false e h = cc

pub ok_or-eq-err :
    {E A : Type 0} (o : Option A) (e : E) {x : E} → ok_or o e ≡ err x → (o ≡ none) × (e ≡ x)
ok_or-eq-err none e h = ground arith
ok_or-eq-err (some a) e h = cc

pub reject_if-eq-ok : {E : Type 0} (c : Bool) (e : E) → reject_if c e ≡ ok tt → c ≡ false
reject_if-eq-ok true e h = cc
reject_if-eq-ok false e h = refl

pub ok_or-eq-ok : {E A : Type 0} (o : Option A) (e : E) {a : A} → ok_or o e ≡ ok a → o ≡ some a
ok_or-eq-ok none e h = cc
ok_or-eq-ok (some a) e h = ground arith

pub map_err-eq-ok :
    {E F A : Type 0} (f : E → F) (r : Result E A) {a : A} → map_err f r ≡ ok a → r ≡ ok a
map_err-eq-ok f (ok a) h = ground arith
map_err-eq-ok f (err e) h = cc

pub Result-cases :
    {E A : Type 0} (r : Result E A) → ((a : A) × (r ≡ ok a)) ⊎ ((e : E) × (r ≡ err e))
Result-cases (ok a) = inl (a, refl)
Result-cases (err e) = inr (e, refl)
