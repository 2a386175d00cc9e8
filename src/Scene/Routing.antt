-- ===== src/Scene/Routing.antt =====
-- scene/src/scene_core.rs: where the messages of a stream go. `Mapping` follows the connections,
-- `Sinks` finds the input at their end, `Connect` makes a connection.
pub mod Mapping
pub mod Sinks
pub mod Connect
use flo_scene.Common.{List, Option, none, some, Bool, true, false, if◌then◌else◌, [], ◌∷◌}
use flo_scene.Common.Table.{Eq, pair_eq, lookup}
use flo_scene.Scene.Slots.{Slots}
use flo_scene.Scene.Types.{
  StreamSource, StreamId, StreamTarget, FilterHandle, TypeId, source_key, stream_key,
}

-- The fields of `SceneCore` that routing reads and writes.
pub record SceneCore : Type 0 where
  pub slots : Slots
  pub open slots use *
  pub connections : List ((StreamSource × StreamId) × StreamTarget)
  pub filter_conversions : List ((StreamId × StreamId) × FilterHandle)
  pub filtered_targets : List (StreamId × List StreamId)

abbrev pub connection_key : Eq (StreamSource × StreamId)
connection_key = pair_eq source_key stream_key

abbrev pub conversion_key : Eq (StreamId × StreamId)
conversion_key = pair_eq stream_key stream_key

-- `connections.get(&(source, stream_id))`
abbrev pub connection : StreamSource → StreamId → SceneCore → Option StreamTarget
connection source id core = lookup connection_key (source, id) core.connections
