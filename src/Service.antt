-- ===== src/Service.antt =====
-- The dashboard's service: topom/group.go, topom/sentinel.go, topom/gslb.go, topom/sorter.go.
pub mod Sort
pub mod Backends
pub mod Gslbs
pub mod Sentinels
pub mod Checks
pub mod Servers
pub mod Groups
pub mod Promote
pub mod Restart
pub mod Polls
pub mod Page
pub mod Api
pub mod Life
