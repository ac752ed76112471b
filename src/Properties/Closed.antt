-- ===== src/Properties/Closed.antt =====
-- src/properties.c: whatever its operations return, the descriptors that they open are closed again.
pub mod Writes
pub mod Updates
pub mod Loads
pub mod Operations
