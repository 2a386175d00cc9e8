-- ===== src/Scene/Routing/Connect.antt =====
-- scene/src/scene_core.rs: `connect_programs`, `finish_connecting_programs` and `get_target_input`.
-- What is done to the output sinks of programs is a list of effects; `none` is a panic, of the
-- `expect` in `SubProgramCore::reconnect_output_sinks`, `disconnect_output_sink` or
-- `discard_output_from`, where the type of the stream is not that of the sink's core or of the input.
pub mod Finish
pub mod Laws
pub mod Made
pub mod Panics
pub mod Isolated
use flo_scene.Common.{
  ℕ, List, [], ◌∷◌, ◌++◌, map, Option, Bool, true, false, not, ◌&&◌, ◌||◌, ◌==◌, if◌then◌else◌,
}
use flo_scene.Common.Table.{lookup, insert, remove}
use flo_scene.SubProgram.{SubProgramId}
use flo_scene.Scene.Filters.{
  FilterRegistry, source_stream_id_any, target_stream_id_any, target_stream_id,
}
use flo_scene.Scene.Slots.Lists.{slot_at}
use flo_scene.Scene.Slots.{SubProgramCore}
use flo_scene.Scene.Types.{
  StreamSource, StreamTarget, StreamId, FilterHandle, TypeId, id_key, stream_key, stream_id_beq,
  for_program, as_message_type, matches_subprogram, target_sub_program, target_program,
  ConnectionError, target_not_in_scene, target_not_available, wrong_input_type,
  filter_source_input_must_match_stream, filter_target_input_must_match_stream, ConnectionResult,
  Result, ok, err, ◌>>=◌, ok_or,
}
use flo_scene.Scene.Routing.{SceneCore, connection_key, conversion_key}
use flo_scene.Scene.Routing.Sinks.{InputCore, OutputSinkTarget, create_input_stream_core}

-- `SceneUpdate` of scene/src/programs/control.rs
pub data SceneUpdate : Type 0 where
  started : SubProgramId → StreamId → SceneUpdate
  connected : SubProgramId → SubProgramId → StreamId → SceneUpdate
  disconnected : SubProgramId → StreamId → SceneUpdate
  failed_connection : ConnectionError → StreamSource → StreamTarget → StreamId → SceneUpdate
  stopped : SubProgramId → SceneUpdate

-- A sink gets a target, the sinks of a program for a type of messages are routed again
-- (`reconnect_disconnected_outputs`), or an update is sent.
pub data ConnectEffect : Type 0 where
  attach : SubProgramId → StreamId → OutputSinkTarget → ConnectEffect
  remake : SubProgramId → StreamId → ConnectEffect
  announce : SceneUpdate → ConnectEffect

pub record Outcome : Type 0 where
  pub result : Result ConnectionResult
  pub core : SceneCore
  pub effects : List ConnectEffect

-- The closure `reconnect_subprogram`, by the arm that makes it.
pub data Reconnect : Type 0 where
  discards disconnects : Reconnect
  remakes : StreamId → Reconnect
  attaches : InputCore → Reconnect
  filters_to : FilterHandle → InputCore → Reconnect

unfoldable pub has_output_sink : StreamId → List (StreamId × TypeId) → Bool
unfolding lookup
has_output_sink id outputs = elim (lookup stream_key id outputs) [
  | Option.none ↦ false
  | Option.some t ↦ true
]

-- A slot that is indexed is never out of range.
unfoldable pub get_target_input : SubProgramId → StreamId → SceneCore → Result InputCore
get_target_input p id core = do
  h ← ok_or (lookup id_key p core.program_indexes) target_not_in_scene
  slot ← ok_or (slot_at core.sub_program_inputs h) target_not_available
  if (slot.0).message_type == id.message_type
      then ok (record { message_type = (slot.0).message_type; through = []; handle = h })
      else elim (lookup conversion_key (as_message_type id, as_message_type slot.0)
          core.filter_conversions) [
            | Option.some f ↦
                ok (record { message_type = (slot.0).message_type; through = []; handle = h })
            | Option.none ↦ err (wrong_input_type id.message_type (slot.0).message_type)
          ]

-- `possible_targets.retain(|old_target| old_target != &target_stream)`
unfoldable pub retained : StreamId → List StreamId → List StreamId
retained id [] = []
retained id (o ∷ os) = let rest = retained id os in if stream_id_beq o id then rest else o ∷ rest

abbrev pub or_nothing : Option (List StreamId) → List StreamId
or_nothing Option.none = []
or_nothing (Option.some ids) = ids

-- The `match target` of a filter source, on its source and target streams.
unfoldable pub add_filtered_target : StreamTarget → StreamId → StreamId → SceneCore → SceneCore
unfolding retained
add_filtered_target StreamTarget.any source target core = record core {
  filtered_targets =
      insert stream_key source
        (retained target (or_nothing (lookup stream_key source core.filtered_targets))
          ++ target ∷ [])
        core.filtered_targets;
  connections = remove connection_key (StreamSource.all, source) core.connections;
}
add_filtered_target _ source target core = core

-- The arms of `match (source, target)` that give a combination a standard form.
abbrev pub standard : StreamSource → StreamTarget → StreamSource × StreamTarget
standard (StreamSource.filtered f) (StreamTarget.program p) =
    (StreamSource.all, StreamTarget.filtered f p)
standard source target = (source, target)

abbrev pub or_disconnects : Result InputCore → Result Reconnect
or_disconnects (ok i) = ok (attaches i)
or_disconnects (err target_not_in_scene) = ok disconnects
or_disconnects (err (wrong_input_type a b)) = ok disconnects
or_disconnects (err e) = err e

-- The update of one program's connection.
abbrev pub update_for : StreamTarget → SubProgramId → StreamId → SceneUpdate
update_for target q id = elim (target_sub_program target) [
  | Option.some p ↦ connected q p id
  | Option.none ↦ SceneUpdate.disconnected q id
]

-- The functions of stream_id.rs that give a sink a target: `fits` is whether an input has the type of
-- the stream, and the sink is looked up in the table of its program.
abbrev pub attach_if :
    Bool → Option TypeId → SubProgramId → StreamId → OutputSinkTarget → Option (List ConnectEffect)
attach_if fits Option.none q id sink = Option.some []
attach_if fits (Option.some t) q id sink =
    if t == id.message_type && fits then Option.some (attach q id sink ∷ []) else Option.none

abbrev pub and_then :
    Option (List ConnectEffect) → Option (List ConnectEffect) → Option (List ConnectEffect)
and_then (Option.some a) (Option.some b) = Option.some (a ++ b)
and_then _ _ = Option.none

module _ (filters : FilterRegistry) where
  -- The checks at the head of `connect_programs`.
  unfoldable pub check_filters : StreamSource → StreamTarget → StreamId → Result (Unit {0})
  check_filters (StreamSource.filtered f) (StreamTarget.filtered g p) id = do
    source ← source_stream_id_any f filters
    if not (stream_id_beq (as_message_type source) (as_message_type id))
        then err filter_source_input_must_match_stream
        else (do
          middle ← target_stream_id_any f filters
          target ← source_stream_id_any g filters
          if not (stream_id_beq middle target)
              then err filter_target_input_must_match_stream
              else ok tt)
  check_filters (StreamSource.filtered f) _ id = do
    source ← source_stream_id_any f filters
    if not (stream_id_beq (as_message_type source) (as_message_type id))
        then err filter_source_input_must_match_stream
        else ok tt
  check_filters _ (StreamTarget.filtered g p) id = do
    target ← source_stream_id_any g filters
    if not (stream_id_beq (as_message_type target) (as_message_type id))
        then err filter_target_input_must_match_stream
        else ok tt
  check_filters _ _ id = ok tt

  -- What a filter source adds to the tables.
  unfoldable pub register_source : StreamSource → StreamTarget → SceneCore → Result SceneCore
  unfolding add_filtered_target
  register_source (StreamSource.filtered f) target core = do
    source ← source_stream_id_any f filters
    middle ← target_stream_id_any f filters
    ok (
        add_filtered_target target source middle (record core {
          filter_conversions = insert conversion_key (source, middle) f core.filter_conversions;
        }))
  register_source _ target core = ok core

  unfoldable pub reconnection :
      StreamSource → StreamTarget → StreamId → SceneCore → Result Reconnect
  reconnection source StreamTarget.none id core = ok discards
  reconnection (StreamSource.filtered f) StreamTarget.any id core = do
    source ← source_stream_id_any f filters
    ok (remakes source)
  reconnection source StreamTarget.any id core = ok disconnects
  reconnection source (StreamTarget.program p) id core = or_disconnects (get_target_input p id core)
  reconnection source (StreamTarget.filtered f p) id core = do
    input_id ← target_stream_id f p filters
    target ← get_target_input p input_id core
    ok (filters_to f target)

  -- The closure, run for one program.
  unfoldable pub reconnect : Reconnect → StreamId → SubProgramCore → Option (List ConnectEffect)
  unfolding lookup has_output_sink
  reconnect discards id c =
      attach_if true (lookup stream_key id c.outputs) c.id id OutputSinkTarget.discard
  reconnect disconnects id c =
      attach_if true (lookup stream_key id c.outputs) c.id id OutputSinkTarget.disconnected
  reconnect (remakes s) id c = Option.some (remake c.id s ∷ [])
  reconnect (attaches i) id c =
      attach_if (i.message_type == id.message_type) (lookup stream_key id c.outputs) c.id id
        (OutputSinkTarget.input i)
  reconnect (filters_to f i) id c =
      if has_output_sink id c.outputs
      then elim (create_input_stream_core filters f i) [
        | ok j ↦
            attach_if (j.message_type == id.message_type) (lookup stream_key id c.outputs) c.id id
              (OutputSinkTarget.close_when_dropped j)
        | err e ↦ Option.some []
      ]
      else Option.some []
