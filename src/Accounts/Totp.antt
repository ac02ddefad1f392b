-- ===== src/Accounts/Totp.antt =====
-- apps/accounts/mfa.py: the verification of a one-time password. The decoding of the secret and
-- HMAC-SHA1 are parameters; a digest is a list of 20 bytes.
pub mod Window
use payroll_management_syste.Prelude.{
  ℕ, zero, suc, ◌+◌, ◌-◌, ◌*◌, ◌/◌, ◌%◌, ◌^◌, ◌≤◌, ◌<◌, max, min, String, ◌≡◌, refl, sym, ap, subst,
  ◌∙◌, ◌≢◌, ◌↔◌, ◌⊎◌, inl, inr, Bool, true, false, not, ◌&&◌, ◌||◌, Option, none, some,
  some-injective, List, [], ◌∷◌, ◌++◌, map, append-nil, append_assoc, arith, str_eq, str_eq_iff,
  ltb, leb, ◌==◌, if◌then◌else◌, ==_iff, Bool-cases, Option-cases, length, length-append, any, all,
  select, find, update_where, All, All-append, any-append, Elem, find-Elem, Elem-any, find_sound,
  select-append, All-select, All-map, Elem-select, select-Elem, select-All, find-append_new,
  length-update_where,
}
use payroll_management_syste.Prelude.Text.{codes, is_digit}

-- `b32decode` is of the secret in upper case.
pub record TotpContext : Type 0 where
  pub b32decode : String → Option (List ℕ)
  pub hmac_sha1 : List ℕ → ℕ → List ℕ

abbrev pub byte_at : List ℕ → ℕ → ℕ
byte_at [] i = 0
byte_at (b ∷ bs) zero = b
byte_at (b ∷ bs) (suc i) = byte_at bs i

abbrev pub last_byte : List ℕ → ℕ
last_byte [] = 0
last_byte (b ∷ []) = b
last_byte (b ∷ c ∷ bs) = last_byte (c ∷ bs)

-- `struct.unpack(">I", digest[index : index + 4])[0] & 0x7FFFFFFF`, for `index = digest[-1] & 15`.
unfoldable pub truncated : List ℕ → ℕ
truncated digest =
    let i = last_byte digest % 16 in
    (byte_at digest i * 16777216
      + byte_at digest (i + 1) * 65536
      + byte_at digest (i + 2) * 256
      + byte_at digest (i + 3))
    % 2147483648

-- The decimal digits of a number below 10 ^ n, with zeros in front.
abbrev pub digits : ℕ → ℕ → List ℕ
digits zero n = []
digits (suc places) n = digits places (n / 10) ++ (48 + n % 10) ∷ []

-- `f"{code:06d}"`
unfoldable pub code_of : TotpContext → List ℕ → ℕ → List ℕ
code_of c key counter = digits 6 (truncated (c.hmac_sha1 key counter) % 1000000)

abbrev pub same_text : List ℕ → List ℕ → Bool
same_text [] [] = true
same_text [] (d ∷ ds) = false
same_text (c ∷ cs) [] = false
same_text (c ∷ cs) (d ∷ ds) = c == d && same_text cs ds

-- The loop over the offsets, with the counters that are left.
unfoldable pub matches_from : TotpContext → List ℕ → List ℕ → ℕ → ℕ → Bool
matches_from c key token counter zero = false
matches_from c key token counter (suc left) =
    same_text (code_of c key counter) token || matches_from c key token (counter + 1) left

-- `verify_totp` with a window of one, for a time of 30 seconds or more and a token in ASCII.
unfoldable pub verify_totp : TotpContext → String → String → ℕ → Bool
verify_totp c secret token now =
    let ts = codes token in
    if str_eq secret "" || length ts == 0 || not (all is_digit ts)
    then false
    else elim (c.b32decode secret) [
      | none ↦ false
      | some key ↦ matches_from c key ts (now / 30 - 1) 3
    ]
