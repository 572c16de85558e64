-- ===== src/Crawler.antt =====
-- internal/crawler
pub mod Backoff
pub mod Digits
pub mod Keys
pub mod Relations
pub mod Identity
pub mod Engine
pub mod Outcome
pub mod Dispatch
pub mod Drained
pub mod Liveness
pub mod Fanout
pub mod PageBudget
pub mod World
pub mod Rows
pub mod Catalogs
pub mod Requests
pub mod Seeding
pub mod Pages
pub mod Probing
pub mod Documents
pub mod Harvesting
pub mod Nesting
pub mod Leaves
pub mod Followups
pub mod Recovery
pub mod Unchanged
pub mod Probed
pub mod Keeps
pub mod Handling
pub mod Steps
pub mod Valid
mod Examples
mod Scenario
