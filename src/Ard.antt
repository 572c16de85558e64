-- ===== src/Ard.antt =====
-- internal/ard
pub mod Document
pub mod Checks
pub mod Partition
pub mod Attribution
pub mod Inline
pub mod Embedded
pub mod Urn
pub mod UrnText
pub mod Report
pub mod Verdict
pub mod Semantic
pub mod Subjects
pub mod Verify
pub mod Stored
pub mod Unique
pub mod Samples
mod Examples
mod Reports
