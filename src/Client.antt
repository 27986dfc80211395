-- ===== src/Client.antt =====
-- The file operations of the client, src/xpn_client/xpn/xpn_simple/xpncore.
pub mod Rw
pub mod Mdata
pub mod Files
pub mod Affected
pub mod Open
pub mod Names
mod Tests
