-- ===== src/Policy.antt =====
-- The placement policy of src/xpn_client/xpn/xpn_simple/policy: how the bytes of a file are
-- spread over the data servers.
pub mod Block
pub mod Reconfigure
pub mod Transfer
pub mod Grouping
mod Tests
