-- ===== src/Tests.antt =====
-- The theorems at concrete inputs, and the data of these tests.
pub mod Data
pub mod Sorted
pub mod StorageTests
pub mod ProtocolTests
pub mod ServiceTests
pub mod ThreadTests
pub mod SessionTests
pub mod DaemonTests
