-- ===== src/Input.antt =====
-- scene/src/input_stream.rs: the queue that every subprogram reads its messages from.
-- `Core` has the shared state and its operations, `Stream` what the owner of the stream does (poll,
-- drop), and `Run` the histories of calls that the theorems range over.
pub mod Core
pub mod Stream
pub mod Laws
pub mod Run
