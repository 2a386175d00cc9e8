-- ===== src/Sink.antt =====
-- scene/src/output_sink.rs: how a program sends to another one.
-- `Core` has the sink and the world that it sees, `Send` its `Sink` operations, `Immediate` the ones
-- that do not wait, and the others are theorems.
pub mod Core
pub mod Send
