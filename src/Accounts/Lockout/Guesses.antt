-- ===== src/Accounts/Lockout/Guesses.antt =====
-- How many wrong passwords an account lets be tried.
use payroll_management_syste.Prelude.{
  leb-cases, ℕ, ◌+◌, ◌-◌, ◌≤◌, ◌<◌, max, String, ◌≡◌, refl, inl, inr, true, false, some, List, [],
  ◌∷◌, arith, leb, if◌then◌else◌, Bool-cases,
}
use payroll_management_syste.Accounts.Lockout.{
  register_failed_login, is_locked, authenticate_account, Account, LockoutSettings, PasswordCheck,
}

-- An attempt is its time and its password.
abbrev pub Attempts : Type 0
Attempts = List (ℕ × String)

module _ (check : PasswordCheck) (settings : LockoutSettings) where
  -- The attempts whose password django's backend is asked about.
  unfoldable pub tried : Attempts → Account → ℕ
  tried [] a = 0
  tried ((now, password) ∷ attempts) a =
      let later = tried attempts (authenticate_account check settings now password a).1 in
      if is_locked now a then later else later + 1

  -- Within a span of the lockout's duration, with wrong passwords only.
  abbrev pub AreWrong : ℕ → ℕ → Attempts → Type 0
  AreWrong name start [] = Unit
  AreWrong name start ((now, password) ∷ attempts) =
      (start ≤ now)
      × (now < start + settings.account_lockout_duration)
      × ((b : Account) → b.username ≡ name → check b password ≡ false)
      × AreWrong name start attempts

  -- Nothing is tried on an account that is locked for the whole span.
  none_tried :
      (start until : ℕ) (attempts : Attempts) (a : Account)
      → a.locked_until ≡ some until
      → start + settings.account_lockout_duration ≤ until
      → AreWrong a.username start attempts
      → tried attempts a ≡ 0
  unfolding tried authenticate_account
  none_tried start until [] a locked long wrong = refl
  none_tried start until ((now, password) ∷ attempts) a locked long (_, inside, _, wrong) =
      let shut : is_locked now a ≡ true = rw (locked, is_locked) (ground arith) in
      rw shut (none_tried start until attempts a locked long wrong)

  -- A wrong password on an active account that is not locked is counted, and locks at the threshold.
  failed_attempt :
      (now : ℕ) (password : String) (a : Account)
      → is_locked now a ≡ false
      → check a password ≡ false
      → a.is_active ≡ true
      → (authenticate_account check settings now password a).1
        ≡ register_failed_login settings now a
  unfolding authenticate_account
  failed_attempt now password a open_account wrong active = rw (open_account, wrong, active) refl

  locked_attempt :
      (now : ℕ) (password : String) (a : Account)
      → is_locked now a ≡ true
      → authenticate_account check settings now password a ≡ (false, a)
  unfolding authenticate_account
  locked_attempt now password a shut = rw shut refl

  left : Account → ℕ
  left a = max 1 (settings.account_lockout_threshold - a.failed_login_attempts)

  tried-le-left :
      (start : ℕ) (attempts : Attempts) (a : Account)
      → a.is_active ≡ true
      → AreWrong a.username start attempts
      → tried attempts a ≤ left a
  unfolding tried left register_failed_login
  tried-le-left start [] a active wrong = omega arith
  tried-le-left start ((now, password) ∷ attempts) a active (after, inside, bad, wrong) =
      elim (Bool-cases (is_locked now a)) [
        | inl shut ↦
            rw (shut, locked_attempt now password a shut)
              (tried-le-left start attempts a active wrong)
        | inr open_account ↦
            let failed = failed_attempt now password a open_account (bad a refl) active in
            elim (leb-cases settings.account_lockout_threshold (a.failed_login_attempts + 1)) [
              | inl reached ↦
                  let test : leb settings.account_lockout_threshold (a.failed_login_attempts + 1)
                      ≡ true =
                    ground arith in
                  let rest =
                    none_tried start (now + settings.account_lockout_duration) attempts
                      (record a {
                        failed_login_attempts = a.failed_login_attempts + 1;
                        locked_until = some (now + settings.account_lockout_duration);
                      })
                      refl (omega arith) wrong in
                  rw (open_account, failed, register_failed_login, test, rest) (omega arith)
              | inr below ↦
                  let test : leb settings.account_lockout_threshold (a.failed_login_attempts + 1)
                      ≡ false =
                    ground arith in
                  let rest =
                    tried-le-left start attempts
                      (record a { failed_login_attempts = a.failed_login_attempts + 1 }) active
                      wrong in
                  rw (open_account, failed, register_failed_login, test) (omega arith)
            ]
      ]

  -- On an active account, for attempts that all have wrong passwords and fall within a span of the
  -- lockout's duration: at most as many of them are tried as the threshold says, or one if that is
  -- zero, and no more than are left after the failed attempts that are already counted.
  pub tried_bounds :
      (start : ℕ) (attempts : Attempts) (a : Account)
      → a.is_active ≡ true
      → AreWrong a.username start attempts
      → (tried attempts a ≤ max 1 settings.account_lockout_threshold)
        × (a.failed_login_attempts < settings.account_lockout_threshold
            → tried attempts a + a.failed_login_attempts ≤ settings.account_lockout_threshold)
  unfolding left
  tried_bounds start attempts a active wrong =
      let bound = tried-le-left start attempts a active wrong in (omega arith, λ below. omega arith)
