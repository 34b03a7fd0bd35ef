-- ===== src/Transport/WriteQueue.antt =====
-- src/transport/serial_write_queue.h and .cpp: the bounded queue of serial writes.
pub mod State
pub mod Enqueue
pub mod Settle
pub mod Ids
pub mod Invariant
pub mod Admission
pub mod Cases
pub mod Runs
pub mod Conservation
pub mod Fresh
pub mod Fifo
pub mod Outcomes
mod Examples
