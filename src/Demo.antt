-- ===== src/Demo.antt =====
-- The programs under demo/: the authentication service and the client.
pub mod AuthService
pub mod Client
pub mod DsClient
pub mod Group
pub mod Main
