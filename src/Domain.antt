-- ===== src/Domain.antt =====
-- litehive/domain: the vocabularies that the pipeline shares.
pub mod Common
pub mod Recovery
pub mod Status
pub mod Runtime
pub mod Task
pub mod Storage
pub mod Consistency
