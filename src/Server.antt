-- ===== src/Server.antt =====
-- aquilo-server/src: topics.rs, config.rs, and the serve loop of server.rs.
pub mod Topics
pub mod Routing
pub mod Transition
pub mod Config
pub mod Contract
pub mod Refused
pub mod Batch
pub mod PumpOut
pub mod Sends
pub mod Fulfils
pub mod Sessions
pub mod Runtime
pub mod Firmware
pub mod Handler
pub mod Restart
pub mod Retained
pub mod Serve
pub mod Keeps
pub mod History
pub mod Persistence
pub mod Liveness
pub mod Versions
pub mod Broker
pub mod Run
pub mod Pings
pub mod Requests
