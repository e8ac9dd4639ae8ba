-- ===== src/Tests.antt =====
-- The theorems at concrete tables, and runs of the code on them.
pub mod Tables
pub mod Changes
pub mod Searches
pub mod Caches
pub mod Runs
pub mod Joins
pub mod Interface
pub mod Service
pub mod Lifetime
pub mod Counters
