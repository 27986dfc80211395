-- ===== src/Base.antt =====
-- The containers and the arithmetic of src/base.
pub mod Darray
pub mod Dtable
pub mod WorkersOndemand
pub mod WorkersPool
pub mod Hash
pub mod Raid
pub mod Tests
