-- ===== src/Accounts.antt =====
-- apps/accounts: the lockout of models.py and backends.py, and the idle sessions of middleware.py.
pub mod Lockout
pub mod Sessions
pub mod Totp
mod Tests
