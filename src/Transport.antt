-- ===== src/Transport.antt =====
-- src/transport: RTP packets and SRTP sessions.
pub mod Rtp
pub mod SrtpSession
