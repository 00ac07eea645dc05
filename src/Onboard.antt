-- ===== src/Onboard.antt =====
-- aquilo-server/src/onboard.rs: the facts that onboarding gathers, what it writes, and its two modes.
pub mod Facts
pub mod Output
pub mod Observe
pub mod Observed
pub mod Learn
pub mod Progress
pub mod Sessions
pub mod Handshake
pub mod Seeding
pub mod Replies
pub mod Runs
pub mod Reconnects
pub mod Handover
pub mod Gathering
pub mod Settled
pub mod Learning
pub mod Observing
pub mod Resume
pub mod Start
pub mod Writing
