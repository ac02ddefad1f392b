-- ===== src/Accounts/Lockout.antt =====
-- `User` of apps/accounts/models.py and `LockoutModelBackend` of backends.py. What django's own
-- backend says to a password is a parameter.
pub mod Guesses
use payroll_management_syste.Prelude.{
  ℕ, ◌+◌, String, Bool, true, false, Option, none, some, List, ltb, leb, ◌==◌, if◌then◌else◌, find,
  update_where,
}
use payroll_management_syste.Prelude.{ℕ}

-- `User`, as far as the lockout reads it. `username` stands for the unique name as a number.
pub record Account : Type 0 where
  pub username : ℕ
  pub is_active : Bool
  pub failed_login_attempts : ℕ
  pub locked_until : Option ℕ

pub record LockoutSettings : Type 0 where
  pub account_lockout_threshold : ℕ
  pub account_lockout_duration : ℕ

-- `User.is_locked`
unfoldable pub is_locked : ℕ → Account → Bool
is_locked now a = elim a.locked_until [ none ↦ false | some until ↦ ltb now until ]

-- `User.register_failed_login`
unfoldable pub register_failed_login : LockoutSettings → ℕ → Account → Account
register_failed_login settings now a =
    let counted = record a { failed_login_attempts = a.failed_login_attempts + 1 } in
    if leb settings.account_lockout_threshold counted.failed_login_attempts
    then record counted { locked_until = some (now + settings.account_lockout_duration) }
    else counted

-- `User.clear_failed_logins`; what it does not save it would not change.
unfoldable pub clear_failed_logins : Account → Account
clear_failed_logins a = record a { failed_login_attempts = 0; locked_until = none }

-- The parameter: whether django's backend authenticates this account with a password.
abbrev pub PasswordCheck : Type 0
PasswordCheck = Account → String → Bool

-- The branches of `authenticate` for an account that exists: whether the user is returned, and the
-- account as it is stored afterwards.
unfoldable pub authenticate_account :
    PasswordCheck → LockoutSettings → ℕ → String → Account → Bool × Account
unfolding is_locked register_failed_login clear_failed_logins
authenticate_account check settings now password a =
    if is_locked now a
    then (false, a)
    else if check a password
    then (true, clear_failed_logins a)
    else if a.is_active
    then (false, register_failed_login settings now a)
    else (false, a)

abbrev pub has_name : ℕ → Account → Bool
has_name name a = a.username == name

-- `LockoutModelBackend.authenticate`. An unknown name goes to django's backend, which finds no user
-- of that name either.
unfoldable pub authenticate :
    PasswordCheck → LockoutSettings → ℕ → ℕ → String → List Account → Option ℕ × List Account
authenticate check settings now name password accounts = elim (find (has_name name) accounts) [
  | none ↦ (none, accounts)
  | some a ↦
      let (found, saved) = authenticate_account check settings now password a in
      (if found then some name else none, update_where (has_name name) (λ _. saved) accounts)
]
