-- ===== src/Batches.antt =====
-- Document batches: packages/domain/src/workflowforge_domain/batches.py and what is built on it.
pub mod Batch
pub mod Store
pub mod Repository
pub mod Service
pub mod Listing
pub mod Pages
