-- ===== src/Release/Archive/TarLoop.antt =====
-- The loop of the tar reader: what it keeps, and that it ends (`inspect_tar_gz`,
-- src/release/archive.rs).
use relswap.Base.{
  ℕ, zero, suc, ◌≤◌, ◌<◌, Str, Bool, true, false, ◌||◌, ◌≡◌, refl, inl, inr, Option, some, Result,
  ok, err, and_then-eq-ok, reject_if, length, Result-cases, arith, is_some, all_bytes,
}
use relswap.External.{External}
use relswap.Release.Error.{ReleaseError, finished}
use mathlib.Core.Path.{subst}
use relswap.Release.Manifest.{ReleaseAsset}
use relswap.Release.Archive.Member.{Found}
use relswap.Release.Archive.Tar.{
  TarHeader, Reader, TarState, read_exact, read_block, is_zero, end_marker, check_trailing,
  tar_loop,
}
use relswap.Release.Archive.Kept.{IsSound}
use relswap.Release.Archive.TarKept.{Round, read_exact_left, read_block-IsSound}

ok_found : (a b : Found) → ◌≡◌ {A = Result ReleaseError Found} (ok a) (ok b) → a ≡ b
ok_found a b e = ground arith

module _ {V : Type 0} (ext : External V) (asset : ReleaseAsset) (root : Str)
    (expected : Option Str) where
  end_marker-IsSound :
      (r : Reader) (s : TarState) (found : Found)
      → IsSound ext asset root expected s.found
      → end_marker ext asset root expected r s ≡ ok found
      → IsSound ext asset root expected found
  unfolding end_marker
  end_marker-IsSound r s found sound e =
      let (_, _, f1) =
        and_then-eq-ok
          (reject_if (is_some s.long_name || is_some s.long_link || is_some s.pending_pax) _) _ e in
      let (_, _, f2) = and_then-eq-ok (check_trailing r) _ f1 in
      let same : s.found ≡ found = ok_found s.found found f2 in rw (← same) sound

  module _ (tar_header : Str → TarHeader) where
    abbrev after_block :
        ℕ
        → Reader
        → TarState
        → Bool
        → Result ReleaseError (TarState × Reader)
        → Option (Result ReleaseError Found)
    after_block fuel r s ended o = elim ended [
      | true ↦ some (end_marker ext asset root expected r s)
      | false ↦ elim o [
        | err e ↦ some (err e)
        | ok (s', r') ↦ tar_loop ext asset root expected tar_header fuel r' s'
      ]
    ]

    abbrev after_read :
        ℕ → TarState → Result ReleaseError (Str × Reader) → Option (Result ReleaseError Found)
    after_read fuel s x = elim x [
      | err e ↦ some (err e)
      | ok (block, r') ↦
          after_block fuel r' s (all_bytes is_zero block)
            (read_block ext asset root expected (tar_header block) block r' s)
    ]

    after_block-IsSound :
        (fuel : ℕ) (r : Reader) (s : TarState) (ended : Bool)
        (o : Result ReleaseError (TarState × Reader)) (found : Found)
        → IsSound ext asset root expected s.found
        → Round ext asset root expected o r
        → ((r' : Reader) (s' : TarState)
            → IsSound ext asset root expected s'.found
            → finished (tar_loop ext asset root expected tar_header fuel r' s') ≡ ok found
            → IsSound ext asset root expected found)
        → finished (after_block fuel r s ended o) ≡ ok found
        → IsSound ext asset root expected found
    after_block-IsSound fuel r s true o found sound k ih e = end_marker-IsSound r s found sound e
    after_block-IsSound fuel r s false (err x) found sound k ih e = cc
    after_block-IsSound fuel r s false (ok (s', r')) found sound k ih e =
        ih r' s' (k s' r' refl).0 e

    -- The loop keeps the members that it has seen sound.
    pub tar_loop-IsSound :
        (fuel : ℕ) (r : Reader) (s : TarState) (found : Found)
        → IsSound ext asset root expected s.found
        → finished (tar_loop ext asset root expected tar_header fuel r s) ≡ ok found
        → IsSound ext asset root expected found
    unfolding tar_loop
    tar_loop-IsSound zero r s found sound e = cc
    tar_loop-IsSound (suc fuel) r s found sound e =
        elim (Result-cases (read_exact 512 "invalid tar header" r)) [
          | inr (x, failed) ↦ absurd (ground (arith, e, failed))
          | inl ((block, r'), read) ↦
              after_block-IsSound fuel r' s (all_bytes is_zero block)
                (read_block ext asset root expected (tar_header block) block r' s) found sound
                (read_block-IsSound ext asset root expected (tar_header block) block r' s sound)
                (λ q t sound' h. tar_loop-IsSound fuel q t found sound' h)
                (subst (λ x. finished (after_read fuel s x) ≡ ok found) read e)
        ]

    after_block-returns :
        (fuel : ℕ) (r : Reader) (s : TarState) (ended : Bool)
        (o : Result ReleaseError (TarState × Reader))
        → Round ext asset root expected o r
        → ((r' : Reader) (s' : TarState)
            → IsSound ext asset root expected s'.found
            → length r'.left ≤ length r.left
            → (result : Result ReleaseError Found) × (tar_loop ext asset root expected tar_header
                  fuel r' s'
                ≡ some result))
        → (result : Result ReleaseError Found) × (after_block fuel r s ended o ≡ some result)
    after_block-returns fuel r s true o k ih = (end_marker ext asset root expected r s, refl)
    after_block-returns fuel r s false (err x) k ih = (err x, refl)
    after_block-returns fuel r s false (ok (s', r')) k ih =
        let (sound, left) = k s' r' refl in ih r' s' sound left

    -- From a sound state, with more rounds than the stream has bytes, the reader comes to its end, with
    -- the members found or an error, and never lacks rounds; whatever the header decoder answers.
    pub tar_loop-returns :
        (fuel : ℕ) (r : Reader) (s : TarState)
        → IsSound ext asset root expected s.found
        → length r.left < fuel
        → (result : Result ReleaseError Found) × (tar_loop ext asset root expected tar_header fuel r
              s
            ≡ some result)
    unfolding tar_loop
    tar_loop-returns zero r s sound a = absurd (omega arith)
    tar_loop-returns (suc fuel) r s sound a =
        elim (Result-cases (read_exact 512 "invalid tar header" r)) [
          | inr (x, e) ↦ rw (e, tar_loop) (err x, refl)
          | inl ((block, r'), e) ↦
              let (_, left) = read_exact_left 512 "invalid tar header" r r' block e in
              rw (e, tar_loop)
                (after_block-returns fuel r' s (all_bytes is_zero block)
                  (read_block ext asset root expected (tar_header block) block r' s)
                  (read_block-IsSound ext asset root expected (tar_header block) block r' s sound)
                  (λ q t sound' less. tar_loop-returns fuel q t sound' (omega arith)))
        ]
