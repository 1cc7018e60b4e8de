-- ===== src/Cases.antt =====
-- Cases: packages/domain/src/workflowforge_domain/cases.py and what is built on it.
pub mod Case
pub mod Task
pub mod Store
pub mod Repository
pub mod Service
pub mod Listing
