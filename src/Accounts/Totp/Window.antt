-- ===== src/Accounts/Totp/Window.antt =====
-- Which one-time passwords are accepted.
use payroll_management_syste.Prelude.{
  ℕ, zero, suc, ◌+◌, ◌-◌, ◌/◌, ◌≤◌, ◌<◌, String, ◌≡◌, refl, sym, ap, ◌∙◌, ◌↔◌, ◌⊎◌, inl, inr, true,
  false, some, List, [], ◌∷◌, arith, str_eq, ◌==◌, Bool-cases, Option-cases, length, all,
}
use payroll_management_syste.Prelude.Text.{codes, is_digit}
use payroll_management_syste.Accounts.Totp.{
  TotpContext, code_of, same_text, matches_from, verify_totp,
}

same_text_iff : (xs ys : List ℕ) → (same_text xs ys ≡ true) ↔ (xs ≡ ys)
same_text_iff [] [] = (λ h. refl, λ h. refl)
same_text_iff [] (y ∷ ys) = (λ h. cc, λ h. cc)
same_text_iff (x ∷ xs) [] = (λ h. cc, λ h. cc)
same_text_iff (x ∷ xs) (y ∷ ys) =
    let ih = same_text_iff xs ys in
    (
      λ h.
          let head : x ≡ y = ground arith in let tail = ih.0 (ground arith) in rw (head, tail) refl,
      λ h. let head : x ≡ y = cc in let tail = ih.1 cc in rw (head, tail) (ground arith),
    )

-- The password is the code of one of so many counters from the first on.
abbrev pub IsCodeFrom : TotpContext → List ℕ → List ℕ → ℕ → ℕ → Type 0
IsCodeFrom c key token first count = (k : ℕ) × (k < count) × (code_of c key (first + k) ≡ token)

matches_from_iff :
    (c : TotpContext) (key token : List ℕ) (first count : ℕ)
    → (matches_from c key token first count ≡ true) ↔ IsCodeFrom c key token first count
unfolding matches_from
matches_from_iff c key token first zero = (λ h. cc, λ (k, lt, _). absurd (omega (arith, lt)))
matches_from_iff c key token first (suc count) =
    let ih = matches_from_iff c key token (first + 1) count in
    (
      λ h. elim (Bool-cases (same_text (code_of c key first) token)) [
        | inl now ↦ (
          0,
          omega arith,
          ap (code_of c key) (omega arith) ∙ (same_text_iff (code_of c key first) token).0 now,
        )
        | inr not_now ↦
            let (k, lt, e) = ih.0 (rw not_now at h) in
            (k + 1, omega (arith, lt), ap (code_of c key) (omega arith) ∙ e)
      ],
      λ (k, lt, e). elim (Bool-cases (same_text (code_of c key first) token)) [
        | inl now ↦ rw now refl
        | inr not_now ↦ rw not_now (ih.1 (later k lt e not_now))
      ],
    )
  where
    later :
        (k : ℕ)
        → k < suc count
        → code_of c key (first + k) ≡ token
        → same_text (code_of c key first) token ≡ false
        → IsCodeFrom c key token (first + 1) count
    later zero lt e not_now =
        let here : code_of c key first ≡ token = ap (code_of c key) (omega arith) ∙ e in
        let found = (same_text_iff (code_of c key first) token).1 here in cc
    later (suc k) lt e not_now = (k, omega (arith, lt), ap (code_of c key) (omega arith) ∙ e)

code-length : (c : TotpContext) (key : List ℕ) (counter : ℕ) → length (code_of c key counter) ≡ 6
unfolding code_of
code-length c key counter = refl

near :
    (c : TotpContext) (key token : List ℕ) (counter : ℕ)
    → 1 ≤ counter
    → IsCodeFrom c key token (counter - 1) 3 ↔ (
        (code_of c key counter ≡ token)
        ⊎ (code_of c key (counter - 1) ≡ token)
        ⊎ (code_of c key (counter + 1) ≡ token))
near c key token counter one = (to_cases, from_cases)
  where
    to_cases :
        IsCodeFrom c key token (counter - 1) 3
        → (code_of c key counter ≡ token)
          ⊎ (code_of c key (counter - 1) ≡ token)
          ⊎ (code_of c key (counter + 1) ≡ token)
    to_cases (zero, lt, e) = inr (inl (ap (code_of c key) (omega arith) ∙ e))
    to_cases (suc zero, lt, e) = inl (ap (code_of c key) (omega arith) ∙ e)
    to_cases (suc (suc zero), lt, e) = inr (inr (ap (code_of c key) (omega arith) ∙ e))
    to_cases (suc (suc (suc k)), lt, e) = absurd (omega (arith, lt))

    from_cases :
        (code_of c key counter ≡ token)
          ⊎ (code_of c key (counter - 1) ≡ token)
          ⊎ (code_of c key (counter + 1) ≡ token)
        → IsCodeFrom c key token (counter - 1) 3
    from_cases (inl e) = (1, omega arith, ap (code_of c key) (omega arith) ∙ e)
    from_cases (inr (inl e)) = (0, omega arith, ap (code_of c key) (omega arith) ∙ e)
    from_cases (inr (inr e)) = (2, omega arith, ap (code_of c key) (omega arith) ∙ e)

verify_totp_matches :
    (c : TotpContext) (secret token : String) (now : ℕ)
    → all is_digit (codes token) ≡ true
    → verify_totp c secret token now ≡ true
    → (key : List ℕ) × (str_eq secret "" ≡ false)
      × (c.b32decode secret ≡ some key)
      × (matches_from c key (codes token) (now / 30 - 1) 3 ≡ true)
unfolding verify_totp
verify_totp_matches c secret token now numeric h = elim (Bool-cases (str_eq secret "")) [
  | inl blank ↦ let refused : false ≡ true = rw blank at h in cc
  | inr filled ↦ elim (Bool-cases (length (codes token) == 0)) [
    | inl empty ↦ let refused : false ≡ true = rw (filled, empty) at h in cc
    | inr some_digits ↦ elim (Option-cases (c.b32decode secret)) [
      | inl malformed ↦
          let refused : false ≡ true = rw (filled, some_digits, numeric, malformed) at h in cc
      | inr (key, decoded) ↦ (key, filled, decoded, rw (filled, some_digits, numeric, decoded) at h)
    ]
  ]
]

-- A password of ASCII digits is accepted at a time of 30 seconds or more exactly if the secret is not
-- empty and can be decoded and the password is the code of the 30 seconds of the time, of those before
-- or of those after; and a password that is accepted has six digits.
pub verify_totp_accepts :
    (c : TotpContext) (secret token : String) (now : ℕ)
    → 30 ≤ now
    → all is_digit (codes token) ≡ true
    → ((verify_totp c secret token now ≡ true) ↔ (
        (key : List ℕ) × (str_eq secret "" ≡ false)
        × (c.b32decode secret ≡ some key)
        × ((code_of c key (now / 30) ≡ codes token)
            ⊎ (code_of c key (now / 30 - 1) ≡ codes token)
            ⊎ (code_of c key (now / 30 + 1) ≡ codes token))))
      × (verify_totp c secret token now ≡ true → length (codes token) ≡ 6)
unfolding verify_totp
verify_totp_accepts c secret token now late numeric = (
  (
    λ h.
        let (key, filled, decoded, found) = verify_totp_matches c secret token now numeric h in
        (
          key,
          filled,
          decoded,
          (near c key (codes token) (now / 30) (omega arith)).0
              ((matches_from_iff c key (codes token) (now / 30 - 1) 3).0 found),
        ),
    λ (key, filled, decoded, code).
        let within = (near c key (codes token) (now / 30) (omega arith)).1 code in
        let found = (matches_from_iff c key (codes token) (now / 30 - 1) 3).1 within in
        let (k, _, e) = within in
        let six : length (codes token) ≡ 6 =
          ap length (sym e) ∙ code-length c key (now / 30 - 1 + k) in
        let some_digits : (length (codes token) == 0) ≡ false = rw six refl in
        rw (filled, some_digits, numeric, decoded) found,
  ),
  λ h.
      let (key, _, _, found) = verify_totp_matches c secret token now numeric h in
      let (k, _, e) = (matches_from_iff c key (codes token) (now / 30 - 1) 3).0 found in
      ap length (sym e) ∙ code-length c key (now / 30 - 1 + k),
)
