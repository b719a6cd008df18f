-- ===== src/Admin/Server.antt =====
-- crates/admin/src/admin/server.rs: the admin server, which answers the clients and watches the
-- units of the registry through their agents.
pub mod World
pub mod Client
pub mod Endpoints
pub mod Units
pub mod Monitor
pub mod Locale
pub mod Handlers
pub mod Runs
pub mod Placed
pub mod Frame
pub mod Orderly
pub mod Requests
pub mod Invariant
pub mod Machines
pub mod Loops
pub mod Launch
pub mod Restart
pub mod Recovery
pub mod Watch
pub mod Register
pub mod Services
pub mod Apps
