-- ===== src/SerialIo.antt =====
-- The window's view of the serial port (src/win32/native_serial_io_state.h and .cpp): who owns the
-- port, and which results of it still count.
pub mod State
pub mod Decisions
pub mod Ownership
pub mod DecisionLaws
pub mod Examples
