-- ===== src/Store.antt =====
-- internal/store: the reads of the database that routing, discovery and the key pool rest on.
pub mod Db
pub mod Providers
pub mod Aliases
pub mod Keys
pub mod Slug
