-- ===== src/Tests/Sends.antt =====
-- Runs of scene/src/scene_context.rs and scene/src/subprogram_core.rs on small inputs.
use flo_scene.Common.{arith, List, [], ◌∷◌, Option, ◌≡◌, ◌↔◌, refl, length}
use flo_scene.Common.Table.{lookup}
use flo_scene.SubProgram.{id_eq}
use flo_scene.Scene.Types.{
  StreamTarget, StreamId, stream_key, with_message_type, for_program, for_target, ok, stream_id_beq,
  target_beq,
}
use flo_scene.Scene.Slots.{start_subprogram, empty, is_started}
use flo_scene.Scene.Routing.{SceneCore}
use flo_scene.Scene.Routing.Mapping.{mapped_target_for_connection, mapped_target, all_filter}
use flo_scene.Scene.Routing.Sinks.{input_core, input}
use flo_scene.Outputs.{ProgramOutputs, is_held, hold, release_all_unused_output_sinks, send}
use flo_scene.Outputs.Shared.{release_all_lem}
use flo_scene.Outputs.Run.{Call, task, release, send_to, drop_sink, run, sends_share}
use flo_scene.Outputs.Panics.{IsClash, send_panics_iff}
use flo_scene.Outputs.Tasks.{tasks, AllDiffer, tasks-AllDiffer}
use flo_scene.Tests.Scenes.{alice, bob, two, converting, no_defaults}

abbrev plain : SceneCore
plain = record { slots = two; connections = []; filter_conversions = []; filtered_targets = [] }

abbrev to_bob : StreamId
to_bob = for_program (with_message_type 20) bob

abbrev nothing_sent : ProgramOutputs
nothing_sent = record {
  id = alice;
  outputs = [];
  output_high_water = 0;
  next_command_sequence = 0;
  cores = [];
  held = [];
}

-- Alice has a sink to Bob.
abbrev one_sink : ProgramOutputs
one_sink = record nothing_sent {
  outputs = (to_bob, 0) ∷ [];
  cores =
      record {
        message_type = 20;
        target = input (record { message_type = 20; through = []; handle = 1 });
      }
      ∷ [];
  held = 0 ∷ [];
}

first_send :
    send converting no_defaults plain 20 (StreamTarget.program bob) nothing_sent
    ≡ Option.some (ok 0, one_sink)
unfolding send mapped_target_for_connection mapped_target all_filter start_subprogram is_started
    empty id_eq input_core with_message_type
first_send = refl

-- A filter's messages use the stream of the messages that are sent directly.
send_panics_iff_example :
    (send converting no_defaults plain 10 (StreamTarget.filtered 0 bob) one_sink ≡ Option.none)
    ↔ IsClash converting no_defaults plain 10 (StreamTarget.filtered 0 bob) one_sink
send_panics_iff_example =
    send_panics_iff converting no_defaults plain 10 (StreamTarget.filtered 0 bob) one_sink

abbrev calls : List Call
calls = task ∷ send_to plain 20 (StreamTarget.program bob) ∷ drop_sink 0 ∷ release ∷ []

abbrev later_state : ProgramOutputs
later_state = record one_sink { next_command_sequence = 1; output_high_water = 1 }

sends_share_example :
    send converting no_defaults plain 20 (StreamTarget.program bob) later_state
    ≡ Option.some (ok 0, hold 0 later_state)
unfolding send run is_held mapped_target_for_connection mapped_target all_filter start_subprogram
    is_started empty id_eq input_core with_message_type stream_id_beq for_target target_beq
sends_share_example =
    sends_share converting no_defaults 20 to_bob 0 (StreamTarget.program bob) plain plain
      nothing_sent one_sink later_state calls refl refl (refl, (refl, (refl, (refl, tt)))) refl

-- Two streams, of which only the second has a sink.
abbrev two_streams : ProgramOutputs
two_streams = record one_sink { outputs = (with_message_type 20, 1) ∷ (to_bob, 0) ∷ [] }

release_all_lem_example :
    (lookup stream_key
        (with_message_type 20)
        (release_all_unused_output_sinks two_streams).1.outputs
      ≡ Option.none)
    × ((release_all_unused_output_sinks two_streams).1.output_high_water
        ≡ length (release_all_unused_output_sinks two_streams).1.outputs)
unfolding lookup is_held stream_id_beq with_message_type
release_all_lem_example = release_all_lem two_streams (with_message_type 20)

tasks-AllDiffer_example : AllDiffer (tasks 2 nothing_sent)
tasks-AllDiffer_example = tasks-AllDiffer 2 nothing_sent (omega arith)
