-- ===== src/Base/Bytes.antt =====
-- Rust's `str` and `[u8]` as lists of byte values, with the string methods that the source calls.
use Prim.Native.Nat.{ℕ}
use Prim.Native.Char.{code}
use Prim.Native.String.{String}
use mathlib.Core.Path.{◌≡◌, refl}
use mathlib.Core.Logic.{◌↔◌}
use mathlib.Core.Bool.{Bool, true, false, ◌&&◌, ◌||◌}
use mathlib.Core.Option.{Option, none, some}
use mathlib.Core.List.{List, [], ◌∷◌, reverse}
use native.Mathlib.Omega.{arith}
use relswap.Base.Tests.{◌==◌, if◌then◌else◌}

abbrev pub Str : Type 0
Str = List ℕ

-- The bytes of an ASCII literal.
abbrev pub text : String → Str
text String.[] = []
text (String.◌∷◌ c s) = code c ∷ text s

unfoldable pub str_eq : Str → Str → Bool
str_eq [] [] = true
str_eq (a ∷ s) (b ∷ t) = (a == b) && str_eq s t
str_eq _ _ = false

pub str_eq_refl : (s : Str) → str_eq s s ≡ true
unfolding str_eq
str_eq_refl [] = refl
str_eq_refl (a ∷ s) = ground (arith, str_eq_refl s)

str_eq→eq : (s t : Str) → str_eq s t ≡ true → s ≡ t
unfolding str_eq
str_eq→eq [] [] h = refl
str_eq→eq (a ∷ s) (b ∷ t) h = ground (arith, str_eq→eq s t)
str_eq→eq [] (b ∷ t) h = cc
str_eq→eq (a ∷ s) [] h = cc

pub str_eq_iff : (s t : Str) → (str_eq s t ≡ true) ↔ (s ≡ t)
str_eq_iff s t = (str_eq→eq s t, λ e. rw e (str_eq_refl t))

-- `value.contains(byte)`
unfoldable pub contains_byte : ℕ → Str → Bool
contains_byte b [] = false
contains_byte b (c ∷ s) = (b == c) || contains_byte b s

-- `value.bytes().all(test)`
unfoldable pub all_bytes : (ℕ → Bool) → Str → Bool
all_bytes p [] = true
all_bytes p (c ∷ s) = p c && all_bytes p s

-- `value.strip_prefix(prefix)`
unfoldable pub strip_prefix : Str → Str → Option Str
strip_prefix [] s = some s
strip_prefix (a ∷ p) [] = none
strip_prefix (a ∷ p) (b ∷ s) = let rest = strip_prefix p s in if a == b then rest else none

unfoldable pub starts_with : Str → Str → Bool
unfolding strip_prefix
starts_with p s = elim (strip_prefix p s) [ none ↦ false | some _ ↦ true ]

-- `value.contains(text)`
unfoldable pub contains_str : Str → Str → Bool
unfolding starts_with
contains_str p [] = starts_with p []
contains_str p (c ∷ s) = starts_with p (c ∷ s) || contains_str p s

-- `value.strip_suffix(suffix)`
unfoldable pub strip_suffix : Str → Str → Option Str
unfolding strip_prefix
strip_suffix p s = elim (strip_prefix (reverse p) (reverse s)) [
  | none ↦ none
  | some rest ↦ some (reverse rest)
]

-- Put a byte before the first piece.
abbrev push_first : ℕ → List Str → List Str
push_first c [] = (c ∷ []) ∷ []
push_first c (w ∷ ws) = (c ∷ w) ∷ ws

-- `value.split(byte)`, which always has a first piece.
unfoldable pub split_on : ℕ → Str → List Str
split_on b [] = [] ∷ []
split_on b (c ∷ s) = let rest = split_on b s in if b == c then [] ∷ rest else push_first c rest
