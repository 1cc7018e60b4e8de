-- ===== src/Documents.antt =====
-- Documents: packages/domain/src/workflowforge_domain/documents.py.
pub mod Naming
pub mod Filename
pub mod Keys
pub mod Distinct
pub mod Version
pub mod Document
