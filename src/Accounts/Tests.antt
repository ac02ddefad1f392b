-- ===== src/Accounts/Tests.antt =====
-- Two wrong passwords on an account that is locked at the second one, and one-time passwords.
use payroll_management_syste.Prelude.{
  ◌-◌, ◌/◌, ℕ, List, length, ◌⊎◌, ◌↔◌, ◌+◌, ◌≤◌, ◌<◌, ◌≡◌, refl, true, false, none, some, [], ◌∷◌,
  arith, str_eq,
}
use payroll_management_syste.Accounts.Lockout.{
  Account, LockoutSettings, PasswordCheck, is_locked, register_failed_login, authenticate_account,
}
use payroll_management_syste.Accounts.Lockout.Guesses.{Attempts, tried, tried_bounds}
use payroll_management_syste.Prelude.Text.{codes}
use payroll_management_syste.Accounts.Totp.{
  TotpContext, code_of, truncated, matches_from, verify_totp,
}
use payroll_management_syste.Accounts.Totp.Window.{verify_totp_accepts}

abbrev account : Account
account = record { username = 5; is_active = true; failed_login_attempts = 0; locked_until = none }

abbrev settings : LockoutSettings
settings = record { account_lockout_threshold = 2; account_lockout_duration = 900 }

abbrev refusing : PasswordCheck
refusing a password = str_eq password "right"

abbrev attempts : Attempts
attempts = (10, "a") ∷ (11, "b") ∷ (12, "c") ∷ []

tried_two : tried refusing settings attempts account ≡ 2
unfolding tried authenticate_account is_locked register_failed_login
tried_two = refl

locked_out :
    authenticate_account refusing settings 20 "right" (record account { locked_until = some 21 })
    ≡ (false, record account { locked_until = some 21 })
unfolding authenticate_account is_locked
locked_out = refl

tried_bounds_example :
    (tried refusing settings attempts account ≤ 2)
    × (0 < 2 → tried refusing settings attempts account + 0 ≤ 2)
tried_bounds_example = tried_bounds refusing settings 10 attempts account refl (
  omega arith,
  omega arith,
  λ b _. refl,
  (omega arith, omega arith, λ b _. refl, (omega arith, omega arith, λ b _. refl, tt)),
)

-- A digest that shows the counter.
abbrev clock : TotpContext
clock = record {
  b32decode = λ secret. some (1 ∷ []);
  hmac_sha1 = λ key counter. 128 ∷ 0 ∷ 0 ∷ counter ∷ 0 ∷ [];
}

previous_code_test : verify_totp clock "SECRET" "000001" 70 ≡ true
unfolding verify_totp matches_from code_of truncated
previous_code_test = refl

old_code_test : verify_totp clock "SECRET" "000000" 70 ≡ false
unfolding verify_totp matches_from code_of truncated
old_code_test = refl

verify_totp_accepts_example :
    ((verify_totp clock "SECRET" "000001" 70 ≡ true) ↔ (
      (key : List ℕ) × (str_eq "SECRET" "" ≡ false)
      × (clock.b32decode "SECRET" ≡ some key)
      × ((code_of clock key (70 / 30) ≡ codes "000001")
          ⊎ (code_of clock key (70 / 30 - 1) ≡ codes "000001")
          ⊎ (code_of clock key (70 / 30 + 1) ≡ codes "000001"))))
    × (verify_totp clock "SECRET" "000001" 70 ≡ true → length (codes "000001") ≡ 6)
verify_totp_accepts_example = verify_totp_accepts clock "SECRET" "000001" 70 (omega arith) refl
