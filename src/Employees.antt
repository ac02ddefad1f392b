-- ===== src/Employees.antt =====
-- apps/employees: profiles and their restricted records, effective-dated terms of employment, and the
-- privacy requests of services/privacy.py.
pub mod Models
pub mod Profiles
pub mod Periods
pub mod Careers
pub mod Privacy
mod Tests
