-- ===== src/Scene/Routing/Sinks.antt =====
-- scene/src/scene_core.rs: `filtered_input_for_program`, `filtered_chain_input_for_program`,
-- `filter_source_for_program` and `sink_for_target`, with `create_input_stream_core` and
-- `chain_filters` of scene/src/filter.rs. The process that runs a filter is not modelled: an input
-- is known by its message type, the filters before it, and the slot that it ends in.
pub mod Types
use flo_scene.Common.{ℕ, List, [], ◌∷◌, Option, Bool, true, false, if◌then◌else◌, ◌==◌, not}
use flo_scene.Common.Table.{nat_key, lookup}
use flo_scene.SubProgram.{SubProgramId}
use flo_scene.Scene.Filters.{FilterRegistry, source_stream_id_any}
use flo_scene.Scene.Slots.Lists.{slot_at}
use flo_scene.Scene.Types.{
  StreamSource, StreamTarget, StreamId, TypeId, FilterHandle, stream_id_beq, id_key, stream_key,
  with_message_type, as_message_type, for_program, ConnectionError, wrong_input_type,
  target_not_in_scene, filter_handle_not_found, filter_mapping_missing, filter_input_does_not_match,
  filter_output_does_not_match, Result, ok, err, ◌>>=◌, ok_or,
}
use flo_scene.Scene.Routing.{SceneCore, connection, conversion_key}
use flo_scene.Scene.Routing.Mapping.{mapped_target_for_connection}

-- `Arc<dyn Any>` of an `InputStreamCore`: the type of the messages that it takes, the filters that
-- these go through, first one first, and the slot of the program at the end.
pub record InputCore : Type 0 where
  pub message_type : TypeId
  pub through : List FilterHandle
  pub handle : ℕ

pub data OutputSinkTarget : Type 0 where
  disconnected discard : OutputSinkTarget
  input close_when_dropped : InputCore → OutputSinkTarget

-- `downcast::<Mutex<InputStreamCore<T>>>()`
unfoldable pub downcast : TypeId → InputCore → ConnectionError → Result InputCore
downcast t core e = if core.message_type == t then ok core else err e

-- The target's input, and its stream.
unfoldable pub input_core : SubProgramId → SceneCore → Result (StreamId × InputCore)
input_core p core = do
  h ← ok_or (lookup id_key p core.program_indexes) target_not_in_scene
  slot ← ok_or (slot_at core.sub_program_inputs h) target_not_in_scene
  ok (slot.0, record { message_type = (slot.0).message_type; through = []; handle = h })

module _ (filters : FilterRegistry) where
  -- `FilterHandle::create_input_stream_core`
  unfoldable pub create_input_stream_core : FilterHandle → InputCore → Result InputCore
  create_input_stream_core f target = do
    output ← ok_or (lookup nat_key f filters.stream_id_for_target) filter_handle_not_found
    source ← ok_or (lookup nat_key f filters.source_stream_id) filter_handle_not_found
    if target.message_type == output
        then ok (record {
          message_type = source.message_type;
          through = f ∷ target.through;
          handle = target.handle;
        })
        else err filter_output_does_not_match

  -- `FilterHandle::chain_filters`
  unfoldable pub chain_filters : FilterHandle → FilterHandle → InputCore → Result InputCore
  unfolding create_input_stream_core
  chain_filters f next target = do
    following ← create_input_stream_core next target
    create_input_stream_core f following

  unfoldable pub filtered_input_for_program :
      TypeId → FilterHandle → SubProgramId → SceneCore → Result InputCore
  filtered_input_for_program t f p core = do
    target ← input_core p core
    filter_input ← source_stream_id_any f filters
    if not (stream_id_beq filter_input (with_message_type t))
        then (do
          initial ←
              ok_or
                (lookup conversion_key (with_message_type t, filter_input) core.filter_conversions)
                filter_mapping_missing
          chained ← chain_filters initial f target.1
          downcast t chained filter_input_does_not_match)
        else (do
          filtered ← create_input_stream_core f target.1
          downcast t filtered filter_input_does_not_match)

  unfoldable pub filtered_chain_input_for_program :
      TypeId → FilterHandle → FilterHandle → SubProgramId → SceneCore → Result InputCore
  filtered_chain_input_for_program t f next p core = do
    target ← input_core p core
    chained ← chain_filters f next target.1
    downcast t chained filter_input_does_not_match

  -- The `find_map` of `filter_source_for_program`: a filter's output whose stream to the target
  -- program has a connection, with that connection.
  unfoldable pub filtered_connection :
      SubProgramId → SubProgramId → List StreamId → SceneCore → Option (StreamTarget × StreamId)
  filtered_connection source target [] core = Option.none
  filtered_connection source target (output ∷ outputs) core =
      let rest = filtered_connection source target outputs core in
      elim (connection (StreamSource.program source) (for_program output target) core) [
        | Option.some c ↦ Option.some (c, output)
        | Option.none ↦ elim (connection StreamSource.all (for_program output target) core) [
          | Option.some c ↦ Option.some (c, output)
          | Option.none ↦ rest
        ]
      ]

  -- The last `match` of `filter_source_for_program`, on the input filter and the connection.
  unfoldable pub source_filtered :
      TypeId → ConnectionError → Option FilterHandle → StreamTarget → SceneCore → Result InputCore
  source_filtered t wrong (Option.some f) (StreamTarget.program p) core =
      filtered_input_for_program t f p core
  source_filtered t wrong (Option.some f) (StreamTarget.filtered g p) core =
      filtered_chain_input_for_program t f g p core
  source_filtered t wrong _ _ core = err wrong

  unfoldable pub through_connection :
      TypeId
      → ConnectionError
      → StreamId
      → Option (StreamTarget × StreamId)
      → SceneCore
      → Result InputCore
  unfolding source_filtered
  through_connection t wrong from Option.none core = err wrong
  through_connection t wrong from (Option.some (c, output)) core =
      source_filtered t wrong (lookup conversion_key (from, output) core.filter_conversions) c core

  -- Where there is no direct filter: `filtered_targets.get(&source_id)` and what is done with it.
  unfoldable pub through_outputs :
      TypeId
      → SubProgramId
      → ConnectionError
      → StreamId
      → SubProgramId
      → Option (List StreamId)
      → SceneCore
      → Result InputCore
  unfolding filtered_connection through_connection
  through_outputs t source wrong from target Option.none core = err wrong
  through_outputs t source wrong from target (Option.some outputs) core =
      through_connection t wrong from (filtered_connection source target outputs core) core

  unfoldable pub filter_source_for_program :
      TypeId → SubProgramId → StreamId → StreamId → SubProgramId → SceneCore → Result InputCore
  unfolding through_outputs
  filter_source_for_program t source source_id target_id target core =
      let from = as_message_type source_id in
      let to = as_message_type target_id in
      let wrong = wrong_input_type from.message_type to.message_type in
      elim (lookup conversion_key (from, to) core.filter_conversions) [
        | Option.some f ↦ filtered_input_for_program t f target core
        | Option.none ↦
            through_outputs t source wrong from target
              (lookup stream_key from core.filtered_targets) core
      ]

  -- The arms that the matches on a found input end in: a type that does not fit and a program that
  -- is not there leave the sink disconnected.
  abbrev pub or_disconnected :
      (InputCore → OutputSinkTarget) → Result InputCore → Result OutputSinkTarget
  or_disconnected connect (ok found) = ok (connect found)
  or_disconnected connect (err (wrong_input_type _ _)) = ok disconnected
  or_disconnected connect (err target_not_in_scene) = ok disconnected
  or_disconnected connect (err e) = err e

  -- The downcast of the target's own input, or else the conversion of it.
  unfoldable pub direct_input :
      TypeId → SubProgramId → SubProgramId → StreamId × InputCore → SceneCore → Result InputCore
  unfolding filter_source_for_program
  direct_input t source p (id, found) core =
      if found.message_type == t
      then ok found
      else filter_source_for_program t source (with_message_type t) id p core

  -- The arm for a program with no filter asked for.
  unfoldable pub program_sink :
      TypeId → SubProgramId → SubProgramId → SceneCore → Result OutputSinkTarget
  unfolding direct_input
  program_sink t source p core = elim (lookup id_key p core.program_indexes) [
    | Option.none ↦ ok disconnected
    | Option.some h ↦ do
      found ← input_core p core
      or_disconnected input (direct_input t source p found core)
  ]

  unfoldable pub sink_of :
      TypeId
      → SubProgramId
      → Option FilterHandle
      → StreamTarget
      → SceneCore
      → Result OutputSinkTarget
  unfolding program_sink
  sink_of t source output_filter StreamTarget.none core = ok discard
  sink_of t source output_filter StreamTarget.any core = ok disconnected
  sink_of t source Option.none (StreamTarget.program p) core = program_sink t source p core
  sink_of t source Option.none (StreamTarget.filtered f p) core =
      or_disconnected close_when_dropped (filtered_input_for_program t f p core)
  sink_of t source (Option.some f) (StreamTarget.program p) core =
      or_disconnected close_when_dropped (filtered_input_for_program t f p core)
  sink_of t source (Option.some f) (StreamTarget.filtered g p) core =
      or_disconnected close_when_dropped (filtered_chain_input_for_program t f g p core)

  abbrev pub output_filter_of : StreamTarget → Option FilterHandle
  output_filter_of (StreamTarget.filtered f _) = Option.some f
  output_filter_of _ = Option.none

  unfoldable pub sink_for_target :
      (TypeId → Option StreamTarget)
      → TypeId
      → SubProgramId
      → StreamTarget
      → SceneCore
      → Result OutputSinkTarget
  unfolding sink_of
  sink_for_target defaults t source target core = do
    mapped ←
        mapped_target_for_connection defaults filters (StreamSource.program source) target
          (with_message_type t) core
    sink_of t source (output_filter_of target) mapped core
