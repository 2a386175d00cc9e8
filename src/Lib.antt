-- ===== src/Lib.antt =====
-- flo_scene is a runtime for programs that talk to each other by sending messages to the input
-- streams of a scene. The crate `flo_scene` (scene/) is the runtime itself, and `flo_scene_pipe`
-- (pipe/) reads and writes messages over sockets as text.
--
-- How the parts interact: a scene starts programs, each with an input stream, and gives each a
-- slot. A program asks for an output sink for a type of messages and a target. The scene follows
-- the connections and the filters from there to the input stream of a running program, and hands
-- out a sink that sends to it. A sender that finds the stream full leaves its waker there, and the
-- owner's poll wakes it.
--
-- Common has the shared names, Common/Table the hash maps (association lists behind an equality).
-- SubProgram is scene/src/subprogram_id.rs.
-- Input is scene/src/input_stream.rs. Its state is `InputStreamCore`, behind a mutex in the source, so
-- that each method is one function from core to core here: `send`, `send_with_overfill`, `close`,
-- `wait_for_idle` (`waiting_for_idle`), `poll_next`, and so on. The wakers that a method calls after
-- it has released the lock are in its result. Input/Run has the histories of calls.
-- Scene/Types is scene/src/stream_id.rs, stream_source.rs, stream_target.rs and the errors.
-- Scene/Filters is the registry of scene/src/filter.rs.
-- Scene/Slots is the part of scene/src/scene_core.rs that places programs (`start_subprogram`, and the
-- end of the program's process).
-- Scene/Routing is the part of scene/src/scene_core.rs that routes a stream: Routing/Mapping is
-- `mapped_target_for_connection`, Routing/Sinks is `sink_for_target` with all that it calls, and
-- Routing/Connect is `connect_programs`. What connecting does to the output sinks of programs, and the
-- updates that it sends, are a list of effects there, and a panic is `none`.
-- Sink is scene/src/output_sink.rs. A sink and what it shares with the scene (its target, the cores of
-- the inputs) are two records, and each method of the sink takes both: Sink/Send is `poll_ready`,
-- `start_send`, `poll_flush` and `poll_close`, Sink/Send/Immediate is `send_immediate` with the two
-- methods that it tries first. A thread that is stolen runs another program, which is a function of
-- that state here.
-- Outputs is scene/src/subprogram_core.rs with `send` of scene/src/scene_context.rs: the table of a
-- program's output sinks. Sinks with the same core share it; a core is a number here, and the state has
-- the list of the cores that sinks hold. Routing's `sink_for_target` says what a new core is attached
-- to. A panic is `none`.
-- Scheduler is the part of scene/src/scene_core.rs that runs processes, with scene/src/process_core.rs:
-- `start_process`, `stop` and the wakers of processes are in Scheduler, the loop of `run_core` in
-- Scheduler/Turns (`turn`, and then `put_back` or `finish`), and `steal_thread_for_program` in
-- Scheduler/Steals (`begin_steal`, and then `return_stolen` or `finish_stolen`). Each is what one call
-- does while it holds the lock; Scheduler/System has these in all the orders in which threads may
-- come, a poll being what is between its two halves. Scheduler/Idle is `notify_on_next_idle` and
-- `check_if_idle`.
-- Pipe is pipe/src/tokenizer.rs: Pipe/Utf8 reads characters from the chunks of bytes of a stream, and
-- Pipe/Tokenizer is `match_token`. Pipe/Json has the token matchers of pipe/src/parse_json.rs,
-- Pipe/Parser is the stack machine of pipe/src/parser.rs, and Pipe/Values the parser of JSON values of
-- pipe/src/parse_json.rs (`json_parse_value` and what it calls), on that stack machine. Pipe/Commands
-- is pipe/src/commands/parse_command.rs: its matchers are in Pipe/Commands, the steps and the readers
-- of tokens in Pipe/Commands/Steps, and `command_parse` with what it calls in Pipe/Commands/Parse. The
-- parser of JSON reads the same tokens as that of commands, but skips other white space, so that the
-- tokens that it leaves are what is left after as many calls of its reader as it took tokens.
-- Tests has concrete runs.
--
-- Loops and bounds: the loops of Input and Scene run over lists, and are structural recursion. The
-- three loops of Pipe run on fuel: `read_while` on the number of bytes at hand, the inner loop of
-- `match_token` on 32 turns (it stops at 32 bytes of lookahead, and each turn adds one), and the
-- outer loop on the number of bytes that are left and two more turns. `json_parse_value` runs on
-- fuel as well; `fuel_of`, which counts values, items, fields and the ends of their lists, is enough,
-- and so is any fuel above the number of tokens. `command_parse` needs fuel above the number of tokens,
-- and gives the parser of JSON twice their number and two.
-- Counters (`blocked`, `waiting_for_idle`, handles) are natural numbers; where the source
-- subtracts 1, the model is `none` at 0. Overflow of a 64-bit counter is modelled for the identifiers of
-- tasks only.
--
-- Not modelled: what the futures of programs and filters do when they are polled, the executor
-- that polls `run_core`, the static tables of functions by type, serialization, timers and
-- sockets. A message type is a number, and the default targets of
-- message types are a parameter of the model.
mod Common
pub mod SubProgram
pub mod Input
pub mod Scene
pub mod Sink
pub mod Scheduler
pub mod Outputs
pub mod Pipe
mod Tests
