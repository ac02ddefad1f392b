-- ===== src/Taxation.antt =====
-- apps/taxation: tax rules by jurisdiction, their import and approval, and the calculations.
pub mod Models
pub mod Engine
pub mod Table
pub mod Imports
pub mod Filings
mod Tests
