-- ===== src/Event.antt =====
-- src/event.c: when a value of a sensor is published, and the timers of the sensors.
pub mod Compare
pub mod Sensors
