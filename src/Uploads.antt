-- ===== src/Uploads.antt =====
-- The intake of files: packages/application/src/workflowforge_application/documents/
-- upload_validation.py.
pub mod Stream
pub mod Bounded
pub mod Ends
pub mod Guarantees
pub mod Metadata
pub mod Content
pub mod Consistent
pub mod Samples
pub mod Fingerprint
