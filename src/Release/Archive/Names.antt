-- ===== src/Release/Archive/Names.antt =====
-- Member names (`validate_member_name`, `trim_tar_nul`) and the standard library's UTF-8 check and
-- decimal parser, on bytes.
use relswap.Base.{
  ℕ, suc, zero, ◌+◌, ◌-◌, ◌*◌, ◌^◌, Str, text, Bool, true, false, not, ◌&&◌, ◌||◌, Option, none,
  some, List, [], ◌∷◌, Result, ok, reject_if, str_eq, starts_with, strip_suffix, split_on,
  contains_byte, contains_str, length, is_empty, any, ltb, leb, ◌==◌, if◌then◌else◌,
}
use relswap.Release.Error.{ReleaseError, archive, ◌>>◌, max_archive_member_name}
use relswap.Release.Manifest.{is_unsafe_part}

-- A continuation byte, in the range that the lead byte allows.
abbrev between : ℕ → ℕ → ℕ → Bool
between lo hi b = leb lo b && leb b hi

-- `std::str::from_utf8`, by the well-formed byte sequences of the standard: `need` continuation
-- bytes are due, the next one between `lo` and `hi`.
unfoldable pub utf8_from : ℕ → ℕ → ℕ → Str → Bool
utf8_from zero lo hi [] = true
utf8_from (suc n) lo hi [] = false
utf8_from (suc n) lo hi (b ∷ s) =
    let rest = utf8_from n 128 191 s in if between lo hi b then rest else false
utf8_from zero lo hi (b ∷ s) =
    let ascii = utf8_from zero 128 191 s in
    let two = utf8_from 1 128 191 s in
    let three_low = utf8_from 2 160 191 s in
    let three = utf8_from 2 128 191 s in
    let three_high = utf8_from 2 128 159 s in
    let four_low = utf8_from 3 144 191 s in
    let four = utf8_from 3 128 191 s in
    let four_high = utf8_from 3 128 143 s in
    if leb b 127
    then ascii
    else if between 194 223 b
    then two
    else if b == 224
    then three_low
    else if b == 237
    then three_high
    else if between 225 239 b
    then three
    else if b == 240
    then four_low
    else if between 241 243 b
    then four
    else if b == 244
    then four_high
    else false

unfoldable pub is_utf8 : Str → Bool
unfolding utf8_from
is_utf8 s = utf8_from zero 128 191 s

-- The digits of `str::parse::<u64>`: a value past the limit is an error at once.
unfoldable pub parse_digits : ℕ → Str → Option ℕ
parse_digits acc [] = some acc
parse_digits acc (c ∷ s) =
    let next = acc * 10 + (c - b'0') in
    let rest = parse_digits next s in
    if leb b'0' c && leb c b'9' && ltb next (2 ^ 64) then rest else none

-- A leading `+` is accepted, and no digits are an error.
unfoldable pub parse_u64 : Str → Option ℕ
unfolding parse_digits
parse_u64 [] = none
parse_u64 (c ∷ []) = parse_digits 0 (c ∷ [])
parse_u64 (c ∷ d ∷ s) = if c == b'+' then parse_digits 0 (d ∷ s) else parse_digits 0 (c ∷ d ∷ s)

-- `value.strip_suffix(&[0]).unwrap_or(value)`
unfoldable pub trim_tar_nul : Str → Str
unfolding strip_suffix
trim_tar_nul value = elim (strip_suffix (0 ∷ []) value) [ none ↦ value | some v ↦ v ]

-- `raw.strip_suffix('/').unwrap_or(raw)`
unfoldable pub without_trailing_slash : Str → Str
unfolding strip_suffix
without_trailing_slash raw = elim (strip_suffix (text "/") raw) [ none ↦ raw | some v ↦ v ]

abbrev pub first_part : List Str → Str
first_part [] = []
first_part (w ∷ ws) = w

unfoldable pub validate_member_name : Str → Str → Result ReleaseError Str
unfolding contains_byte contains_str starts_with split_on is_unsafe_part is_utf8
    without_trailing_slash str_eq
validate_member_name raw root = do
  reject_if
      (is_empty raw
        || ltb max_archive_member_name (length raw)
        || contains_byte 0 raw
        || contains_byte 92 raw)
      (archive "malformed archive member name")
  reject_if (not (is_utf8 raw)) (archive "non-UTF-8 archive member name")
  reject_if (starts_with (text "/") raw) (archive "absolute archive member name")
  let path = without_trailing_slash raw
  reject_if
      (is_empty path || contains_str (text "//") path || any is_unsafe_part (split_on b'/' path))
      (archive "malformed archive member name")
  reject_if
      (contains_byte b':' (first_part (split_on b'/' path))
        || not (str_eq (first_part (split_on b'/' path)) root)
        || any (contains_byte b':') (split_on b'/' path))
      (archive "archive member is outside canonical root")
  ok path
