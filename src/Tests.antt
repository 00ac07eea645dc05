-- ===== src/Tests.antt =====
-- The unit tests of the crates, on the model: each test is a statement of what it asserts, under the
-- test's name, and a proof by evaluation.
pub mod Wire
pub mod Core
pub mod Values
pub mod Readings
pub mod States
pub mod Stored
pub mod Server
pub mod Onboarding
pub mod Outputs
