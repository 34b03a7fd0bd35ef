-- ===== src/Rtu.antt =====
-- The Modbus RTU transport over a serial session: src/transport/serial_rtu_transport.h and .cpp.
pub mod State
pub mod Write
pub mod Read
pub mod Exchange
pub mod Frames
pub mod Rounds
pub mod Complete
pub mod Ends
pub mod Examples
