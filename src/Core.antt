-- ===== src/Core.antt =====
-- aquilo-core: calibration, battery curve, history projections, the raw-reading parser and the state.
pub mod Calibration
pub mod Battery
pub mod History
pub mod Reading
pub mod State
pub mod Telemetry
pub mod Windows
pub mod Projection
pub mod Tank
pub mod Charge
pub mod Curve
pub mod Estimate
pub mod Sorting
