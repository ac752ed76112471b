-- ===== src/Examples.antt =====
-- Concrete devices, settings and values, and the theorems applied to them.
pub mod Settings
pub mod Machines
pub mod Values
pub mod Devices
pub mod Files
pub mod Loads
pub mod Creates
pub mod Links
pub mod Starts
pub mod Together
pub mod Runs
