-- ===== src/Lib.antt =====
-- aquilo-offline: a local server for the AquiloSensor tank gauge, in place of the vendor's cloud. The
-- device speaks MQTT to a broker; `serve` (aquilo-server/src/server.rs) is a client of that broker
-- that folds each `/read` message into its state, saves it, and publishes it retained for the device
-- and the home automation. `learn` and `observe` (aquilo-server/src/onboard.rs) recover the device's
-- identity first, as a proxy to the cloud or as a stand-in broker, with the MQTT codec of
-- aquilo-server/src/mqtt_wire.rs, and write the config and the first state file.
--
-- Which file models which part:
--   Core.Calibration, Core.Battery, Core.History, Core.Reading, Core.State: the modules of the same
--     names in aquilo-core/src; Core.Telemetry, Core.Windows, Core.Sorting and Core.Projection are on
--     them, and with the laws of IEEE 754 Core.Charge, Core.Curve, Core.Tank and Core.Estimate.
--   Store: `JsonFileStore` of aquilo-store/src/lib.rs over a file system that may fail or stop at any
--     call; Store.Crash and Store.Elsewhere are on it.
--   Server.Topics, Server.Config: aquilo-server/src/topics.rs and config.rs.
--   Server.Runtime, Server.Handler, Server.Firmware: server.rs. `Runtime`, `load_runtime`, `persist`
--     and `Runtime::apply_reading` are in Runtime, the handlers and the loop of `run` in Handler, as
--     actions on a world of runtime, store and requests sent. Server.Transition, Server.Batch,
--     Server.PumpOut, Server.Routing, Server.Keeps, Server.Refused, Server.History, Server.Retained,
--     Server.Serve, Server.Liveness, Server.Restart, Server.Persistence, Server.Requests and
--     Server.Versions are on them. Firmware has `firmware_from_log` of onboard.rs too. Server.Contract
--     says what the loop promises, without links, worlds and stores; Server.Sends, Server.Fulfils and
--     Server.Sessions are on it.
--   Server.Broker: aquilo-server/src/broker.rs, and the choice of the broker in `run` of server.rs;
--     Server.Broker.Access is on it. Server.Run: `run` as a whole, with the ping task beside the loop;
--     Server.Pings is on it.
--   Wire.Decode, Wire.Stream, Wire.Encode: mqtt_wire.rs; the other files of Wire are on them.
--   Onboard.Facts, Onboard.Output, Onboard.Observe, Onboard.Learn, Onboard.Runs: onboard.rs, the last
--     one with the connections of `run_learn` and `run_observe`; Onboard.Progress, Onboard.Sessions,
--     Onboard.Handshake, Onboard.Seeding, Onboard.Replies, Onboard.Gathering, Onboard.Writing,
--     Onboard.Settled and Onboard.Reconnects are on them. Onboard.Learning and Onboard.Observing
--     join the two modes with the decoder, from the bytes of the device to the written output, the
--     second one over the fold of Onboard.Observed. Onboard.Handover joins `write_outputs`, the
--     store and `load_runtime`, Onboard.Start the config file and `serve` of main.rs, which reads it,
--     Onboard.Resume the serve loop.
--   Cli: `Args` and the choice of mode of aquilo-server/src/main.rs; Cli.Compose and Cli.RoundTrip
--     are on it.
--   Base: bytes, UTF-8, decimal numbers, `i64` with its wrap-around, the interfaces for `f64` and
--     serde_json, and in Base.Ieee the laws of `f64`. Examples: concrete stand-ins for the parameters,
--     one of them with a proof that it meets those laws, and runs with them. Tests: the unit tests of
--     the crates, on the model, with stand-ins for what they call beside it.
--
-- Numbers: `i64` is an integer whose sums wrap into 64 bits, as in a release build; a `usize` is a
-- natural number. `f64` is an interface; where a theorem needs more of it than its operations, what
-- IEEE 754 and the Rust reference say of rounding is the hypothesis `IeeeLaws`. Strings are their UTF-8
-- bytes.
-- Fuel: the loop of `push` has the length of the buffer, and each frame takes two bytes at least;
-- the loop over the topics of a SUBSCRIBE has the length of the body; the length encoder of `frame`
-- has the length plus one, which falls at each round while it is not 0.
-- Parameters: serde_json, the TOML decoder, chrono, the MQTT client (a request is accepted or
-- refused), rumqttd (its thread starts or not), the parser of socket addresses, sockets (a write
-- succeeds or fails), the file system, and the clock's readings.
-- Left out: a stop after the rename of a save and before its report, a restart of the broker between the
-- requests (the theorems on what is retained start at a CONNACK), and a clock that moves on between two
-- packets of one chunk.
-- Not modelled: what rumqttd and the MQTT client do inside, clock.rs, which only reads the clock,
-- tracing, the tokio runtime, and the tools under capture and addon.
pub mod Base
pub mod Wire
pub mod Core
pub mod Server
pub mod Onboard
pub mod Store
pub mod Cli
pub mod Examples
pub mod Tests
