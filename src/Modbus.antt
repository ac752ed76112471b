-- ===== src/Modbus.antt =====
-- src/iface-modbus.c.
pub mod Endian
pub mod Read
pub mod Connect
