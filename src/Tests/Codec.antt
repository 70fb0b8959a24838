-- ===== src/Tests/Codec.antt =====
-- A codec for the two state documents that reads back what it wrote, in place of serde_json.
use relswap.Base.{
  ℕ, zero, suc, ◌+◌, Str, Bool, true, false, ◌≡◌, refl, Option, none, some, [], ◌∷◌, length, arith,
}
use relswap.Install.State.{InstallState, PendingActivation, LauncherOwnership}

-- A string ends with 0, and its bytes are written one higher.
abbrev pub put : Str → Str → Str
put [] rest = 0 ∷ rest
put (b ∷ s) rest = suc b ∷ put s rest

abbrev add_first : ℕ → Option (Str × Str) → Option (Str × Str)
add_first b none = none
add_first b (some (s, rest)) = some (b ∷ s, rest)

abbrev pub get : Str → Option (Str × Str)
get [] = none
get (zero ∷ rest) = some ([], rest)
get (suc b ∷ rest) = add_first b (get rest)

pub get-put : (s rest : Str) → get (put s rest) ≡ some (s, rest)
get-put [] rest = refl
get-put (b ∷ s) rest = rw (get-put s rest) refl

abbrev pub put_option : Option Str → Str → Str
put_option none rest = 0 ∷ rest
put_option (some s) rest = 1 ∷ put s rest

abbrev and_some : Option (Str × Str) → Option (Option Str × Str)
and_some none = none
and_some (some (s, rest)) = some (some s, rest)

abbrev pub get_option : Str → Option (Option Str × Str)
get_option [] = none
get_option (zero ∷ rest) = some (none, rest)
get_option (suc _ ∷ rest) = and_some (get rest)

pub get_option-put_option :
    (o : Option Str) (rest : Str) → get_option (put_option o rest) ≡ some (o, rest)
get_option-put_option none rest = refl
get_option-put_option (some s) rest = rw (get-put s rest) refl

abbrev pub and_get : {A B : Type 0} → Option (A × Str) → (A → Str → Option B) → Option B
and_get none f = none
and_get (some (a, rest)) f = f a rest

abbrev bit : Bool → ℕ
bit false = 0
bit true = 1

abbrev is_one : ℕ → Bool
is_one zero = false
is_one (suc _) = true

abbrev pub put_launcher : Option LauncherOwnership → Str
put_launcher none = []
put_launcher (some l) = bit l.owned ∷ l.size ∷ l.protocol ∷ put l.path (put l.sha256 [])

abbrev get_launcher : Str → Option (Option LauncherOwnership)
get_launcher (owned ∷ size ∷ protocol ∷ rest) = and_get (get rest) λ path r.
    and_get (get r) λ sha256 _. some (
      some (record {
        owned = is_one owned;
        path = path;
        sha256 = sha256;
        size = size;
        protocol = protocol;
      }))
get_launcher _ = some none

is_one-bit : (b : Bool) → is_one (bit b) ≡ b
is_one-bit false = refl
is_one-bit true = refl

get_launcher-put_launcher : (l : Option LauncherOwnership) → get_launcher (put_launcher l) ≡ some l
get_launcher-put_launcher none = refl
get_launcher-put_launcher (some l) =
    rw (get-put l.path (put l.sha256 []), get-put l.sha256 [], is_one-bit l.owned) refl

abbrev pub encode_install : InstallState Str → Str
encode_install d =
    d.schema_version
    ∷ put_option d.active (put_option d.previous (put d.installation_id (put_launcher d.launcher)))

abbrev finish_install :
    ℕ
    → Option Str
    → Option Str
    → Str
    → Option (Option LauncherOwnership)
    → Option (InstallState Str)
finish_install n active previous id none = none
finish_install n active previous id (some launcher) = some (record {
  schema_version = n;
  active = active;
  previous = previous;
  installation_id = id;
  launcher = launcher;
})

abbrev pub decode_install : Str → Option (InstallState Str)
decode_install [] = none
decode_install (n ∷ rest) = and_get (get_option rest) λ active r.
    and_get (get_option r)
      λ previous s. and_get (get s) λ id t. finish_install n active previous id (get_launcher t)

pub decode-encode_install : (d : InstallState Str) → decode_install (encode_install d) ≡ some d
decode-encode_install d =
    let t = put_launcher d.launcher in
    let s = put d.installation_id t in
    rw
      (
        get_option-put_option d.active (put_option d.previous s),
        get_option-put_option d.previous s,
        get-put d.installation_id t,
        get_launcher-put_launcher d.launcher,
      )
      refl

abbrev pub encode_pending : PendingActivation Str → Str
encode_pending p = p.schema_version ∷ put_option p.from (put p.to (put p.transaction_id []))

abbrev pub decode_pending : Str → Option (PendingActivation Str)
decode_pending [] = none
decode_pending (n ∷ rest) = and_get (get_option rest) λ from r. and_get (get r) λ to s.
    and_get (get s)
      λ id _. some (record { schema_version = n; from = from; to = to; transaction_id = id })

pub decode-encode_pending : (p : PendingActivation Str) → decode_pending (encode_pending p) ≡ some p
decode-encode_pending p =
    let s = put p.transaction_id [] in
    rw (get_option-put_option p.from (put p.to s), get-put p.to s, get-put p.transaction_id []) refl

pub length-put : (s rest : Str) → length (put s rest) ≡ suc (length s + length rest)
length-put [] rest = omega arith
length-put (b ∷ s) rest = omega (arith, length-put s rest)
