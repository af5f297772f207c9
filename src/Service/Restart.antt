-- ===== src/Service/Restart.antt =====
-- What a restart of the dashboard finds: the groups and the sentinels that are cached are those that
-- the coordinator holds.
pub mod Backed
pub mod Writes
pub mod Watches
pub mod Balancers
pub mod Members
pub mod Masters
pub mod Serves
pub mod Loads
pub mod Same
