-- ===== src/Examples.antt =====
-- Runs of the model on concrete inputs, with stand-ins for the libraries that the program calls.
pub mod Toy
pub mod Framing
pub mod Serving
pub mod Onboarding
pub mod Readings
pub mod Inputs
pub mod Exact
pub mod Restarts
pub mod PumpOuts
pub mod Refusals
pub mod Decoding
pub mod Runs
pub mod Handover
pub mod Gathering
pub mod Streams
