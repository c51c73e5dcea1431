-- ===== src/Tesla.antt =====
-- src/tesla: per-sender source authentication.
pub mod Chain
pub mod Schedule
pub mod Mac
pub mod Extension
pub mod Commitment
pub mod Sender
pub mod Receiver
