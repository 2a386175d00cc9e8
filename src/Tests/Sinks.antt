-- ===== src/Tests/Sinks.antt =====
-- Runs of scene/src/output_sink.rs on small inputs.
use flo_scene.Common.{ℕ, true, false, [], ◌∷◌, none, some, ◌≡◌, ◌⊎◌, refl}
use flo_scene.SubProgram.{SubProgramId, named}
use flo_scene.Input.Core.{new, send, send_with_overfill, is_waiting_for_idle}
use flo_scene.Input.Stream.{pending}
use flo_scene.Sink.Core.{SinkTarget, World, OutputSink, target_input, attach, stream_disconnected}
use flo_scene.Sink.Send.{Steal, start_send, poll_flush, ok, err}
use flo_scene.Sink.Send.Laws.{Fate, start_send-Fate}
use flo_scene.Sink.Send.Flush.{Flushed, poll_flush-Flushed}
use flo_scene.Sink.Send.Immediate.{
  send_immediate, try_flush_immediate, try_send_immediate, flush_and_retry, last_resort,
}
use flo_scene.Sink.Send.Immediate.Places.{Placed, send_immediate-Placed}

abbrev reader : SubProgramId
reader = named 1

abbrev writer : SubProgramId
writer = named 2

-- One message fills the input.
abbrev open_world : World ℕ
open_world = record {
  inputs = some (new reader 0 false) ∷ [];
  target = SinkTarget.input 0;
  when_target_changed = none;
  scene_alive = true;
}

-- No program runs on a stolen thread.
abbrev no_steal : Steal ℕ
no_steal p w = (none, w)

abbrev once : World ℕ
once = (start_send no_steal 5 (attach writer) open_world).world

abbrev twice : OutputSink ℕ
twice = (start_send no_steal 6 (attach writer) once).sink

waits_when_full : twice.waiting_message ≡ some 6
unfolding start_send attach new target_input send is_waiting_for_idle
waits_when_full = refl

flush_waits : (poll_flush 9 twice once).result ≡ pending
unfolding poll_flush start_send attach new target_input send is_waiting_for_idle
flush_waits = refl

no_target_error :
    (send_immediate no_steal writer 7 (record open_world { inputs = none ∷ [] })).result
    ≡ err (stream_disconnected 7)
unfolding send_immediate try_send_immediate target_input flush_and_retry last_resort
no_target_error = refl

overfills : (send_immediate no_steal writer 7 once).result ≡ ok
unfolding send_immediate start_send attach new target_input send try_send_immediate flush_and_retry
    last_resort send_with_overfill
overfills = refl

start_send-Fate_example :
    Fate no_steal 6 (attach writer) once (start_send no_steal 6 (attach writer) once)
start_send-Fate_example = start_send-Fate no_steal 6 (attach writer) once

poll_flush-Flushed_example : Flushed 9 twice once (poll_flush 9 twice once)
poll_flush-Flushed_example = poll_flush-Flushed 9 twice once

send_immediate-Placed_example :
    Placed no_steal writer 7 once (send_immediate no_steal writer 7 once)
    ⊎ Placed no_steal writer 7
        (try_flush_immediate no_steal once).1
        (send_immediate no_steal writer 7 once)
send_immediate-Placed_example = send_immediate-Placed no_steal writer 7 once
