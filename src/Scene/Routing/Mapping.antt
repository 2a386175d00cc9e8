-- ===== src/Scene/Routing/Mapping.antt =====
-- scene/src/scene_core.rs: `filter_mapped_target` and `mapped_target_for_connection`, with
-- `StreamId::default_target` of scene/src/stream_id.rs.
pub mod Laws
use flo_scene.Common.{List, [], ◌∷◌, Option, if◌then◌else◌}
use flo_scene.Common.Table.{lookup}
use flo_scene.SubProgram.{SubProgramId, id_eq}
use flo_scene.Scene.Filters.{FilterRegistry, target_stream_id_any}
use flo_scene.Scene.Types.{
  StreamSource, StreamTarget, StreamId, TypeId, stream_key, for_program, Result, ok, ◌>>=◌,
}
use flo_scene.Scene.Routing.{SceneCore, connection}

-- The scan of `filter_mapped_target` over the outputs of the filters.
unfoldable pub first_connected : List StreamId → SceneCore → Option StreamTarget
first_connected [] core = Option.none
first_connected (id ∷ ids) core =
    let rest = first_connected ids core in
    elim (connection StreamSource.all id core) [
      | Option.none ↦ rest
      | Option.some StreamTarget.none ↦ rest
      | Option.some StreamTarget.any ↦ rest
      | Option.some target ↦ Option.some target
    ]

unfoldable pub filter_mapped_target : StreamId → SceneCore → Option StreamTarget
filter_mapped_target id core = elim (lookup stream_key id core.filtered_targets) [
  | Option.none ↦ Option.none
  | Option.some ids ↦ first_connected ids core
]

-- The chain `if let Some(a) = … else if let Some(b) = …`.
abbrev pub or_else {ℓ} : {A : Type ℓ} → Option A → A → A
or_else Option.none a = a
or_else (Option.some a) _ = a

-- The default target of each message type that is registered (`SceneMessage::default_target`).
module _ (defaults : TypeId → Option StreamTarget) (filters : FilterRegistry) where
  -- `StreamId::default_target`
  unfoldable pub default_target : StreamId → StreamTarget
  default_target id = or_else (defaults id.message_type) StreamTarget.none

  -- The first `match` of `mapped_target_for_connection`.
  unfoldable pub mapped_target :
      StreamSource → StreamTarget → StreamId → SceneCore → Result StreamTarget
  unfolding default_target
  mapped_target source StreamTarget.none id core = ok (
      or_else (connection source id core) (
        or_else (connection StreamSource.all id core)
          (or_else (filter_mapped_target id core) StreamTarget.none)))
  mapped_target source StreamTarget.any id core = ok (
      or_else (connection source id core) (
        or_else (connection StreamSource.all id core)
          (or_else (filter_mapped_target id core) (default_target id))))
  mapped_target source (StreamTarget.program p) id core = ok (
      or_else (connection source (for_program id p) core)
        (or_else (connection StreamSource.all (for_program id p) core) (StreamTarget.program p)))
  mapped_target source (StreamTarget.filtered f p) id core = do
    filter_output ← target_stream_id_any f filters
    ok (
        or_else (connection source (for_program filter_output p) core) (
          or_else (connection StreamSource.all (for_program filter_output p) core)
            (StreamTarget.program p)))

  -- The second half: an 'all' filter on the input of the program that was found.
  unfoldable pub all_filter : StreamId → SceneCore → StreamTarget → StreamTarget
  all_filter id core (StreamTarget.program p) =
      elim (connection StreamSource.all (for_program id p) core) [
        | Option.some (StreamTarget.filtered f q) ↦
            if id_eq q p then StreamTarget.filtered f p else StreamTarget.program p
        | _ ↦ StreamTarget.program p
      ]
  all_filter id core target = target

  unfoldable pub mapped_target_for_connection :
      StreamSource → StreamTarget → StreamId → SceneCore → Result StreamTarget
  mapped_target_for_connection source target id core = do
    mapped ← mapped_target source target id core
    ok (all_filter id core mapped)
