-- ===== src/Accounts/Sessions.antt =====
-- `SessionIdleTimeoutMiddleware` of apps/accounts/middleware.py: the session before the view is called.
use payroll_management_syste.Prelude.{ℕ, ◌+◌, Bool, false, Option, none, some, ltb, if◌then◌else◌}

-- The user of the request is authenticated, and "last_activity" of the session. `logout` flushes both.
pub record Session : Type 0 where
  pub is_authenticated : Bool
  pub last_activity : Option ℕ

abbrev pub last_or : Option ℕ → ℕ → ℕ
last_or none now = now
last_or (some last) now = last

abbrev pub flushed : Session
flushed = record { is_authenticated = false; last_activity = none }

-- `__call__`, up to the view. `now - last` is negative for a clock that went back, and then not idle.
unfoldable pub touch : ℕ → ℕ → Session → Session
touch idle_timeout now s =
    if s.is_authenticated
    then (if ltb (last_or s.last_activity now + idle_timeout) now
        then flushed
        else record s { last_activity = some now })
    else s
