-- ===== src/Tests/Scenes.antt =====
-- Runs of scene/src/scene_core.rs and scene/src/filter.rs on small inputs.
use flo_scene.Common.{[], ◌∷◌, Option, ◌≡◌, ◌≢◌, refl, arith}
use flo_scene.Common.Table.{lookup, insert}
use flo_scene.SubProgram.{SubProgramId, named, id_eq}
use flo_scene.Scene.Types.{
  StreamSource, StreamTarget, TypeId, FilterHandle, with_message_type, for_program, source_beq,
  target_beq, stream_id_beq, for_target,
}
use flo_scene.Scene.Filters.{
  FilterRegistry, no_filters, for_filter, conversion_filter, source_stream_id_any,
}
use flo_scene.Scene.Slots.{
  SubProgramCore, Slots, empty, is_started, start_subprogram, end_subprogram, get_sub_program,
  get_input_stream_core,
}
use flo_scene.Scene.Slots.Invariant.{Reach, here, next, starts, IsTidy, Reach-IsTidy}
use flo_scene.Scene.Slots.Stale.{stale_index}
use flo_scene.Scene.Routing.{SceneCore, connection}
use flo_scene.Scene.Routing.Mapping.{mapped_target_for_connection, mapped_target, all_filter}
use flo_scene.Scene.Routing.Mapping.Laws.{mapped_not_bypassed}
use flo_scene.Scene.Routing.Sinks.{
  OutputSinkTarget, close_when_dropped, sink_for_target, sink_of, filtered_input_for_program,
  input_core, downcast, create_input_stream_core,
}
use flo_scene.Scene.Routing.Sinks.Types.{Carries, sink_for_target-Carries}

abbrev pub alice : SubProgramId
alice = named 1

abbrev pub bob : SubProgramId
bob = named 2

-- Alice reads messages of type 10, and Bob messages of type 20.
abbrev pub alice_core : SubProgramCore
alice_core = record {
  id = alice;
  input_stream_id = with_message_type 10;
  process_id = Option.some 0;
  outputs = [];
}

abbrev pub bob_core : SubProgramCore
bob_core = record {
  id = bob;
  input_stream_id = with_message_type 20;
  process_id = Option.some 1;
  outputs = [];
}

abbrev pub or_empty : Option Slots → Slots
or_empty Option.none = empty
or_empty (Option.some s) = s

abbrev pub one : Slots
one = or_empty (start_subprogram alice_core empty)

abbrev pub two : Slots
two = or_empty (start_subprogram bob_core one)

-- Bob in the slot that Alice had.
abbrev taken : Slots
taken = or_empty (start_subprogram bob_core (end_subprogram 0 one))

one_reached : Reach one
unfolding start_subprogram is_started empty lookup
one_reached = next here (starts alice_core refl)

two_reached : Reach two
unfolding start_subprogram is_started empty lookup id_eq insert
two_reached = next one_reached (starts bob_core refl)

Reach-IsTidy_example : IsTidy two
Reach-IsTidy_example = Reach-IsTidy two_reached

stale_index_example :
    (get_sub_program alice taken ≡ Option.some bob_core)
    × (get_input_stream_core alice taken ≡ Option.some (with_message_type 20, bob))
    × (start_subprogram alice_core taken ≡ Option.none)
unfolding start_subprogram end_subprogram is_started empty lookup id_eq insert
stale_index_example = stale_index alice_core bob_core 0 one_reached refl (omega arith) refl refl

abbrev pub converting : FilterRegistry
converting = (conversion_filter 10 20 no_filters).1

abbrev filter_zero : FilterHandle
filter_zero = 0

abbrev pub no_defaults : TypeId → Option StreamTarget
no_defaults t = Option.none

-- Bob's own type has a filter for all; Alice's type has none.
abbrev scene : SceneCore
scene = record {
  slots = two;
  connections =
      ((StreamSource.all, for_program (with_message_type 10) bob), StreamTarget.filtered 0 bob)
      ∷ [];
  filter_conversions = [];
  filtered_targets = [];
}

mapped_not_bypassed_example :
    connection StreamSource.all (for_program (with_message_type 10) alice) scene
    ≢ Option.some (StreamTarget.filtered 0 alice)
unfolding mapped_target_for_connection mapped_target all_filter lookup for_target with_message_type
    source_beq target_beq stream_id_beq id_eq
mapped_not_bypassed_example =
    mapped_not_bypassed no_defaults converting (StreamSource.program bob)
      (StreamTarget.program alice) (with_message_type 10) scene alice 0 refl

abbrev bob_filtered : OutputSinkTarget
bob_filtered = close_when_dropped (record { message_type = 10; through = 0 ∷ []; handle = 1 })

-- The 'all' filter on Bob's input turns the messages of type 10 into Bob's.
sink_for_target-Carries_example : Carries converting scene 10 bob_filtered
unfolding mapped_target_for_connection mapped_target all_filter lookup for_target with_message_type
    source_beq target_beq stream_id_beq id_eq sink_for_target sink_of filtered_input_for_program
    input_core downcast create_input_stream_core source_stream_id_any conversion_filter for_filter
    no_filters insert start_subprogram is_started empty
sink_for_target-Carries_example =
    sink_for_target-Carries converting scene no_defaults 10 alice (StreamTarget.program bob)
      bob_filtered refl
