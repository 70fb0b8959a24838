-- ===== src/Base.antt =====
-- The names that every module shares: the libraries', passed on, and those of the children, which
-- hold Boolean tests, results, byte strings and list operations over the native numbers.
mod Tests
mod Outcome
mod Bytes
mod Lists
pub use Tests.*
pub use Outcome.*
unfoldable pub use Bytes.{
  str_eq, starts_with, strip_prefix, strip_suffix, split_on, contains_byte, all_bytes, contains_str,
}
pub use Bytes.{Str, text, str_eq_iff, str_eq_refl}
pub use Lists.*
pub use Prim.Native.Nat.{ℕ, zero, suc, ◌+◌, ◌-◌, ◌*◌, ◌/◌, ◌%◌, ◌^◌, ◌≤◌, ◌<◌}
pub use Prim.Native.String.{String}
pub use mathlib.Core.Path.{◌≡◌, refl, sym, ap, ◌∙◌}
pub use mathlib.Core.Logic.{◌≢◌, ◌↔◌, ◌⊎◌, inl, inr}
pub use mathlib.Core.Bool.{Bool, true, false, not, ◌&&◌, ◌||◌}
pub use mathlib.Core.Option.{Option, none, some}
pub use mathlib.Core.List.{List, [], ◌∷◌, ◌++◌, map}
pub use native.Mathlib.Omega.{arith}
