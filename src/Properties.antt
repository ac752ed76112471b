-- ===== src/Properties.antt =====
-- src/properties.c: what of a thing is kept in its settings files.
pub mod Credentials
pub mod Update
pub mod Load
pub mod Limits
pub mod Closed
pub mod Create
