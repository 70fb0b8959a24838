-- ===== src/Release/Target/Laws.antt =====
-- The text of a release target and its reading (src/release/target.rs).
use relswap.Base.{Str, ◌≡◌, refl, ◌↔◌, ok, text, str_eq, str_eq_iff, arith}
use relswap.Release.Target.{
  Target, x86_64_unknown_linux_gnu, aarch64_unknown_linux_gnu, x86_64_apple_darwin,
  aarch64_apple_darwin, x86_64_pc_windows_msvc, as_str, from_str,
}

from_str-as_str : (t : Target) → from_str (as_str t) ≡ ok t
unfolding from_str as_str str_eq
from_str-as_str x86_64_unknown_linux_gnu = refl
from_str-as_str aarch64_unknown_linux_gnu = refl
from_str-as_str x86_64_apple_darwin = refl
from_str-as_str aarch64_apple_darwin = refl
from_str-as_str x86_64_pc_windows_msvc = refl

as_str-from_str : (s : Str) (t : Target) → from_str s ≡ ok t → as_str t ≡ s
unfolding from_str as_str
as_str-from_str s t e = ground (
  arith,
  str_eq_iff s (text "x86_64-unknown-linux-gnu"),
  str_eq_iff s (text "aarch64-unknown-linux-gnu"),
  str_eq_iff s (text "x86_64-apple-darwin"),
  str_eq_iff s (text "aarch64-apple-darwin"),
  str_eq_iff s (text "x86_64-pc-windows-msvc"),
)

-- A string is read as a target exactly where it is the text of that target, and then as no other.
pub from_str_iff : (s : Str) (t : Target) → (from_str s ≡ ok t) ↔ (as_str t ≡ s)
from_str_iff s t = (as_str-from_str s t, λ e. rw (← e) (from_str-as_str t))
