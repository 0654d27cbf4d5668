-- ===== src/Storage.antt =====
-- The message database of daemon/storage/messages.go.
pub mod Message
pub mod Url
pub mod Upsert
pub mod Table
pub mod Query
pub mod Raw
pub mod Schema
