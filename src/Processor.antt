-- ===== src/Processor.antt =====
-- backend/processor: spans are turned into records in memory, and written in batches.
pub mod Handlers
pub mod Accumulate
pub mod Flush
pub mod Process
pub mod Options
pub mod Merge
pub mod Served
pub mod Suited
pub mod Tied
pub mod Mentions
pub mod Detections
pub mod Batches
pub mod Waves
pub mod Runs
pub mod Setup
pub mod Gauges
pub mod Metered
pub mod Builder
