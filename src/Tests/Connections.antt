-- ===== src/Tests/Connections.antt =====
-- Connections that `connect_programs` of scene/src/scene_core.rs makes in a small scene.
use flo_scene.Common.{[], ◌∷◌, Option, ◌≡◌, refl, inl}
use flo_scene.Common.Table.{lookup, insert}
use flo_scene.SubProgram.{id_eq}
use flo_scene.Scene.Types.{
  ConnectionError, StreamSource, StreamTarget, with_message_type, ok, err, stream_id_beq, ready,
  as_message_type, matches_subprogram, target_sub_program,
}
use flo_scene.Scene.Slots.{Slots, start_subprogram, is_started, empty}
use flo_scene.Scene.Routing.{SceneCore}
use flo_scene.Scene.Routing.Mapping.{mapped_target_for_connection, all_filter}
use flo_scene.Scene.Routing.Connect.{
  Outcome, has_output_sink, get_target_input, check_filters, register_source, reconnection,
  reconnect,
}
use flo_scene.Scene.Routing.Connect.Finish.{
  is_affected, updates_for, remake_conversions, update_programs, make_connection,
  finish_connecting_programs, connect_specific, after_finish, connect_standard, connect_programs,
}
use flo_scene.Scene.Routing.Connect.Made.{Done, connect_programs_cases, connected_is_followed}
use flo_scene.Scene.Routing.Connect.Panics.{connect_panics}
use flo_scene.Scene.Routing.Connect.Isolated.{connect_isolated}
use flo_scene.Tests.Scenes.{alice, bob, alice_core, bob_core, two, converting, no_defaults}

-- Alice has a sink for messages of type 10 and one for messages of type 20.
abbrev talking : Slots
talking = record two {
  sub_programs =
      Option.some (record alice_core {
        outputs = (with_message_type 10, 10) ∷ (with_message_type 20, 20) ∷ [];
      })
      ∷ Option.some bob_core
      ∷ [];
}

abbrev scene : SceneCore
scene = record {
  slots = talking;
  connections = [];
  filter_conversions = ((with_message_type 10, with_message_type 20), 0) ∷ [];
  filtered_targets = [];
}

abbrev or_failed : Option Outcome → Outcome
or_failed Option.none = record {
  result = err ConnectionError.cancelled;
  core = scene;
  effects = [];
}
or_failed (Option.some o) = o

-- Alice's messages of type 20 go to Bob.
abbrev to_bob : Outcome
to_bob = or_failed (
    connect_programs converting (StreamSource.program alice) (StreamTarget.program bob)
      (with_message_type 20) scene)

connect_programs_cases_example :
    Done converting
      (StreamSource.program alice)
      (StreamTarget.program bob)
      (with_message_type 20)
      scene
      to_bob
unfolding connect_programs connect_standard finish_connecting_programs make_connection
    update_programs updates_for remake_conversions is_affected after_finish connect_specific
    check_filters register_source reconnection reconnect get_target_input has_output_sink
    matches_subprogram target_sub_program lookup insert id_eq stream_id_beq with_message_type
    start_subprogram is_started empty
connect_programs_cases_example =
    connect_programs_cases converting (StreamSource.program alice) (StreamTarget.program bob)
      (with_message_type 20) scene to_bob refl

connected_is_followed_example :
    mapped_target_for_connection no_defaults converting
      (StreamSource.program alice)
      StreamTarget.any
      (with_message_type 20)
      to_bob.core
    ≡ ok (
        all_filter no_defaults converting
          (with_message_type 20)
          to_bob.core
          (StreamTarget.program bob))
unfolding connect_programs connect_standard finish_connecting_programs make_connection
    update_programs updates_for remake_conversions is_affected after_finish connect_specific
    check_filters register_source reconnection reconnect get_target_input has_output_sink
    matches_subprogram target_sub_program lookup insert id_eq stream_id_beq with_message_type
    start_subprogram is_started empty
connected_is_followed_example =
    connected_is_followed converting no_defaults (StreamSource.program alice)
      (StreamTarget.program bob) (with_message_type 20) scene to_bob ready alice refl refl
      (inl refl)

connect_panics_example :
    connect_programs converting StreamSource.all
      (StreamTarget.program bob)
      (with_message_type 10)
      scene
    ≡ Option.none
unfolding lookup insert id_eq stream_id_beq with_message_type as_message_type start_subprogram
    is_started empty is_affected matches_subprogram has_output_sink
connect_panics_example =
    connect_panics converting StreamSource.all bob 1 (with_message_type 20, bob)
      (with_message_type 10) 0 scene 0
      (record alice_core { outputs = (with_message_type 10, 10) ∷ (with_message_type 20, 20) ∷ [] })
      (λ g e. cc) refl refl refl refl refl refl

-- Alice's connection changes nothing for Bob.
connect_isolated_example :
    mapped_target_for_connection no_defaults converting
      (StreamSource.program bob)
      StreamTarget.any
      (with_message_type 20)
      to_bob.core
    ≡ mapped_target_for_connection no_defaults converting
        (StreamSource.program bob)
        StreamTarget.any
        (with_message_type 20)
        scene
unfolding connect_programs connect_standard finish_connecting_programs make_connection
    update_programs updates_for remake_conversions is_affected after_finish connect_specific
    check_filters register_source reconnection reconnect get_target_input has_output_sink
    matches_subprogram target_sub_program lookup insert id_eq stream_id_beq with_message_type
    start_subprogram is_started empty
connect_isolated_example =
    connect_isolated no_defaults converting alice (StreamTarget.program bob) (with_message_type 20)
      scene to_bob (StreamSource.program bob) StreamTarget.any (with_message_type 20) refl (λ e. cc)
