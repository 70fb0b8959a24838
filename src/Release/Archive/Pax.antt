-- ===== src/Release/Archive/Pax.antt =====
-- PAX extended headers (`pax_overrides`, `OwnedPaxOverrides::update`).
use relswap.Base.{
  ℕ, suc, zero, ◌+◌, ◌-◌, Str, text, not, Option, none, some, [], ◌∷◌, Result, ok, err, ok_or,
  reject_if, str_eq, length, is_empty, take, drop, get_elem?, ltb, leb, ◌==◌, if◌then◌else◌,
}
use relswap.Release.Error.{ReleaseError, archive, finished, ◌>>=◌, ◌>>◌}
use relswap.Release.Archive.Names.{is_utf8, parse_u64}

-- The outer `Option` says whether a record names the field, the inner one is its value.
pub record PaxOverrides : Type 0 where
  pub path : Option (Option Str)
  pub size : Option (Option ℕ)

abbrev pub no_overrides : PaxOverrides
no_overrides = record { path = none; size = none }

pub record OwnedPaxOverrides : Type 0 where
  pub path : Option Str
  pub size : Option ℕ

abbrev keep_or {ℓ} : {A : Type ℓ} → A → Option A → A
keep_or old none = old
keep_or old (some new) = new

unfoldable pub update : OwnedPaxOverrides → PaxOverrides → OwnedPaxOverrides
update g o = record { path = keep_or g.path o.path; size = keep_or g.size o.size }

-- `.iter().position(|byte| *byte == b)`
unfoldable pub position : ℕ → Str → Option ℕ
position b [] = none
position b (c ∷ s) =
    let rest = position b s in
    if c == b then some 0 else elim rest [ none ↦ none | some i ↦ some (suc i) ]

-- `str::from_utf8(s).ok().and_then(parse)`
unfoldable pub parse_number : Str → Option ℕ
unfolding is_utf8 parse_u64
parse_number s = if is_utf8 s then parse_u64 s else none

-- What one `key=value` field does to the overrides.
unfoldable pub apply_field : Str → Str → PaxOverrides → Result ReleaseError PaxOverrides
unfolding parse_number str_eq
apply_field key value o =
    if str_eq key (text "path")
    then ok (record o { path = some (if is_empty value then none else some value) })
    else if str_eq key (text "size")
    then (if is_empty value then ok (record o { size = some none }) else (do
      size ← ok_or (parse_number value) (archive "invalid PAX size")
      ok (record o { size = some (some size) })))
    else ok o

-- One record at the front of `bytes`: its overrides and its length.
unfoldable pub pax_record : Str → PaxOverrides → Result ReleaseError (PaxOverrides × ℕ)
unfolding position parse_number apply_field
pax_record bytes o = do
  space ← ok_or (position b' ' bytes) (archive "malformed PAX record")
  end ← ok_or (parse_number (take space bytes)) (archive "invalid PAX length")
  reject_if (ltb (length bytes) end) (archive "oversized PAX record")
  reject_if (leb end (space + 1)) (archive "malformed PAX record")
  last ← ok_or (get_elem? bytes (end - 1)) (archive "malformed PAX record")
  reject_if (not (last == 10)) (archive "malformed PAX record")
  let field = take (end - 1 - (space + 1)) (drop (space + 1) bytes)
  equals ← ok_or (position b'=' field) (archive "malformed PAX field")
  overrides ← apply_field (take equals field) (drop (equals + 1) field) o
  ok (overrides, end)

-- The `while cursor < bytes.len()` loop, on the bytes from the cursor on. Each record is at least two
-- bytes long, so as many rounds as there are bytes are enough; `none` is a lack of rounds.
unfoldable pub pax_loop : ℕ → Str → PaxOverrides → Option (Result ReleaseError PaxOverrides)
unfolding pax_record
pax_loop fuel [] o = some (ok o)
pax_loop zero (b ∷ bytes) o = none
pax_loop (suc fuel) (b ∷ bytes) o = elim (pax_record (b ∷ bytes) o) [
  | err e ↦ some (err e)
  | ok (overrides, end) ↦ pax_loop fuel (drop end (b ∷ bytes)) overrides
]

unfoldable pub pax_overrides : Str → Result ReleaseError PaxOverrides
unfolding pax_loop
pax_overrides bytes = finished (pax_loop (length bytes) bytes no_overrides)
