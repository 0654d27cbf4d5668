-- ===== src/Protocol.antt =====
-- The WhatsApp client of daemon/protocol.
pub mod Event
pub mod Receipt
pub mod Contact
pub mod Content
pub mod Media
pub mod Reconnect
pub mod Client
pub mod Preview
pub mod Session
pub mod Calls
