-- ===== src/Payroll.antt =====
-- apps/payroll: calculation rules, lifecycle, and the processing of a period.
pub mod Models
pub mod Rules
pub mod Payslips
pub mod Actors
pub mod Lifecycle
pub mod Provenance
pub mod Processing
pub mod Records
pub mod History
mod Tests
