-- ===== src/Service.antt =====
-- main.go: the parts of the program put together.
pub mod Links
pub mod Reads
pub mod Connections
pub mod Catalog
pub mod Lasting
pub mod Responses
pub mod Logs
pub mod Lifetime
pub mod Spans
pub mod Splits
pub mod Held
pub mod Covers
pub mod Plain
pub mod Types
pub mod Collisions
pub mod Boot
