-- ===== src/Service.antt =====
-- The D-Bus service of daemon/dbus/service.go.
pub mod State
pub mod Variants
pub mod Receipt
pub mod Login
pub mod Groups
pub mod Told
pub mod Avatars
pub mod Paths
pub mod Messages
pub mod Contacts
pub mod Loop
pub mod Chats
pub mod Run
pub mod Threads
pub mod Interface
pub mod Qr
