-- ===== src/Frontier.antt =====
-- internal/frontier
pub mod Db
pub mod Config
pub mod Shard
pub mod Enqueue
pub mod Keys
pub mod Dequeue
pub mod Release
pub mod Rely
pub mod Invariant
pub mod Statements
pub mod Validity
pub mod Schedule
pub mod Picked
pub mod Ownership
pub mod Exclusive
pub mod Lookup
pub mod Finish
pub mod Admission
pub mod Selection
pub mod Handout
pub mod Budget
pub mod Sharing
pub mod Sweeps
pub mod Samples
mod Examples
