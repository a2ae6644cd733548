-- ===== src/Tests.antt =====
-- The theorems at concrete inputs.
pub mod Connection
pub mod Devices
pub mod Endings
pub mod Files
pub mod Loop
pub mod Messages
pub mod Relay
pub mod Sending
pub mod Releasing
pub mod Sessions
pub mod Texts
