-- ===== src/Transport.antt =====
-- src/transport: the shared serial types and the bounded write queue.
pub mod Types
pub mod Names
pub mod WriteQueue
