-- ===== src/Receiver.antt =====
-- src/receiver.rs and src/receiver: reorder-capable SRTP reception.
pub mod IndexRecovery
pub mod Generation
pub mod Manager
