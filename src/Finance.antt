-- ===== src/Finance.antt =====
-- apps/finance: the ledger with the checks of its rows, the metrics that are calculated from it, and the
-- categories that a role may see.
pub mod Models
pub mod Calculations
pub mod Permissions
pub mod Forecasting
mod Tests
