-- ===== src/Api.antt =====
-- backend/api/api.go: the responses, read from the database and kept in the response cache. The
-- parallel reads of a request are made in the order of the source.
pub mod Types
pub mod Catalog
pub mod Connections
pub mod Backend
pub mod Cached
pub mod Metered
