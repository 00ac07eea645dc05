-- ===== src/Wire.antt =====
-- aquilo-server/src/mqtt_wire.rs: the partial MQTT 3.x codec of the onboarding modes.
pub mod Decode
pub mod Encode
pub mod Stream
pub mod Fields
pub mod Framing
pub mod Cursor
pub mod Layout
pub mod Loops
pub mod RoundTrip
pub mod Credentials
pub mod Replies
pub mod Reads
pub mod Taken
pub mod Frames
pub mod Chunks
pub mod Cuts
