-- ===== src/Release/Archive/Rounds.antt =====
-- The rounds that the PAX and the ZIP directory loops are given are enough (`pax_overrides`,
-- `zip_central_member_count`, src/release/archive.rs).
use relswap.Base.{
  ℕ, zero, suc, ◌+◌, ◌-◌, ◌≤◌, ◌<◌, Str, Bool, true, false, not, ◌≡◌, refl, inl, inr, [], ◌∷◌,
  Option, some, err, Result, ok, ok_or, and_then-eq-ok, reject_if, reject_if-eq-ok, Result-cases,
  length, length-drop, take, drop, get_elem?, str_eq, ltb, leb, ◌==◌, arith, if◌then◌else◌,
}
use relswap.Release.Error.{
  ReleaseError, max_archive_member_name, max_archive_metadata_size, max_archive_members,
}
use relswap.Release.Archive.Pax.{
  PaxOverrides, position, parse_number, apply_field, pax_record, pax_loop,
}
use relswap.Release.Archive.Zip.{central_header_size, short, central_loop}

-- A record is not empty.
pax_record-pos :
    (bytes : Str) (o o' : PaxOverrides) (end : ℕ) → pax_record bytes o ≡ ok (o', end) → 0 < end
unfolding pax_record
pax_record-pos bytes o o' end e =
    let (space, _, f1) = and_then-eq-ok (ok_or (position b' ' bytes) _) _ e in
    let (n, _, f2) = and_then-eq-ok (ok_or (parse_number (take space bytes)) _) _ f1 in
    let (_, _, f3) = and_then-eq-ok (reject_if (ltb (length bytes) n) _) _ f2 in
    let (_, e4, f4) = and_then-eq-ok (reject_if (leb n (space + 1)) _) _ f3 in
    let (last, _, f5) = and_then-eq-ok (ok_or (get_elem? bytes (n - 1)) _) _ f4 in
    let (_, _, f6) = and_then-eq-ok (reject_if (not (last == 10)) _) _ f5 in
    let field = take (n - 1 - (space + 1)) (drop (space + 1) bytes) in
    let (equals, _, f7) = and_then-eq-ok (ok_or (position b'=' field) _) _ f6 in
    let (p, _, f8) =
      and_then-eq-ok (apply_field (take equals field) (drop (equals + 1) field) o) _ f7 in
    let small = reject_if-eq-ok _ _ e4 in same_end p o' n end f8 (ground (arith, small))
  where
    same_end :
        (p o' : PaxOverrides) (n end : ℕ)
        → ◌≡◌ {A = Result ReleaseError (PaxOverrides × ℕ)} (ok (p, n)) (ok (o', end))
        → 0 < n
        → 0 < end
    same_end p o' n end e pos = ground arith

-- As many rounds as there are bytes are enough: the loop over the records of a PAX header comes to its
-- end, with overrides or an error, and never lacks rounds.
pub pax_loop-returns :
    (fuel : ℕ) (bytes : Str) (o : PaxOverrides)
    → length bytes ≤ fuel
    → (result : Result ReleaseError PaxOverrides) × (pax_loop fuel bytes o ≡ some result)
unfolding pax_loop
pax_loop-returns fuel [] o a = (ok o, refl)
pax_loop-returns zero (c ∷ bytes) o a = absurd (omega arith)
pax_loop-returns (suc fuel) (c ∷ bytes) o a = elim (Result-cases (pax_record (c ∷ bytes) o)) [
  | inr (x, e) ↦ rw (e, pax_loop) (err x, refl)
  | inl ((o', end), e) ↦
      let pos = pax_record-pos (c ∷ bytes) o o' end e in
      rw (e, pax_loop)
        (pax_loop-returns fuel (drop end (c ∷ bytes)) o'
          (omega (arith, length-drop end (c ∷ bytes))))
]

module _ {A : Type 0} where
  -- A branch that returns, or else one that does.
  either_returns :
      (b : Bool) (r : A) {y : Option A}
      → (b ≡ false → (result : A) × (y ≡ some result))
      → (result : A) × ((if b then some r else y) ≡ some result)
  either_returns true r k = (r, refl)
  either_returns false r k = k refl

-- A header is not empty, so with more rounds than there are bytes from the cursor to the end of the
-- directory the count comes to its end, with a count or an error, and never lacks rounds.
pub central_loop-returns :
    (bytes : Str) (fuel end cursor members size : ℕ)
    → end - cursor < fuel
    → (result : Result ReleaseError (Option ℕ)) × (central_loop bytes fuel end cursor members size
        ≡ some result)
unfolding central_loop
central_loop-returns bytes zero end cursor members size a = absurd (omega arith)
central_loop-returns bytes (suc fuel) end cursor members size a =
    let header = take central_header_size (drop cursor bytes) in
    let variable = short header 28 + short header 30 + short header 32 in
    either_returns (leb end cursor) _ (λ more.
      either_returns (ltb (length header) central_header_size) _ (λ _.
        either_returns (not (str_eq (take 4 header) (b'P' ∷ b'K' ∷ 1 ∷ 2 ∷ []))) _ (λ _.
          either_returns (ltb max_archive_member_name (short header 28)) _ (λ _.
            either_returns (ltb max_archive_metadata_size (size + variable)) _ (λ _.
              either_returns (ltb end (cursor + (central_header_size + variable))) _ (λ _.
                either_returns (ltb max_archive_members (members + 1)) _ (λ _.
                  central_loop-returns bytes fuel end (cursor + (central_header_size + variable))
                    (members + 1) (size + variable) (ground arith))))))))
