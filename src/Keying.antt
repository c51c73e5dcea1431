-- ===== src/Keying.antt =====
-- src/keying: the key ratchet and the keying granularities.
pub mod Ratchet
pub mod Granularity
pub mod Mls
