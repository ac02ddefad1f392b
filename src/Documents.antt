-- ===== src/Documents.antt =====
-- apps/documents: legal holds, the purge of expired documents, and redactions.
pub mod Models
pub mod Workflows
pub mod Uploads
mod Tests
