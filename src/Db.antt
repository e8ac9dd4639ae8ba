-- ===== src/Db.antt =====
-- db/memory.go: the in-memory database. Each operation on a table is a function on `Table`, and the
-- exported method finds the table by its name first.
pub mod Types
pub mod Index
pub mod Tables
pub mod Insert
pub mod Upsert
pub mod Batch
pub mod Conflict
pub mod Query
pub mod Join
pub mod Coherence
pub mod Validity
pub mod Interface
