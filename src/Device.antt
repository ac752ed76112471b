-- ===== src/Device.antt =====
-- src/device.c: the device behind the state machine, and the callbacks that feed the machine. The
-- proofs are in the children.
pub mod World
pub mod Handlers
pub mod Session
pub mod Reply
pub mod Sound
pub mod Armed
pub mod Feeds
pub mod Links
pub mod Leak
pub mod Publish
pub mod Polling
pub mod Start
pub mod Run
pub mod Masked
pub mod Safe
pub mod Up
pub mod Invariant
