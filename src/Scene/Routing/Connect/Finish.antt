-- ===== src/Scene/Routing/Connect/Finish.antt =====
-- scene/src/scene_core.rs: `finish_connecting_programs` and `connect_programs`, put together.
use flo_scene.Common.{List, [], ◌∷◌, ◌++◌, Option, Bool, ◌&&◌, ◌==◌, if◌then◌else◌}
use flo_scene.Common.Table.{insert}
use flo_scene.SubProgram.{SubProgramId}
use flo_scene.Scene.Filters.{FilterRegistry}
use flo_scene.Scene.Slots.{SubProgramCore}
use flo_scene.Scene.Types.{
  StreamSource, StreamTarget, StreamId, FilterHandle, for_program, matches_subprogram,
  target_sub_program, target_program, ConnectionResult, ready, target_not_ready, ok, err,
}
use flo_scene.Scene.Routing.{SceneCore, connection_key}
use flo_scene.Scene.Routing.Connect.{
  ConnectEffect, remake, announce, failed_connection, Outcome, Reconnect, has_output_sink, standard,
  update_for, and_then, check_filters, register_source, reconnection, reconnect,
}

-- The test in the loop over the programs of the scene.
unfoldable pub is_affected : StreamSource → StreamId → SubProgramCore → Bool
is_affected source id c = matches_subprogram source c.id && has_output_sink id c.outputs

-- `scene_updates`, as the loop leaves it.
unfoldable pub updates_for :
    StreamSource → StreamTarget → StreamId → List (Option SubProgramCore) → List ConnectEffect
updates_for source target id [] = []
updates_for source target id (Option.none ∷ cs) = updates_for source target id cs
updates_for source target id (Option.some c ∷ cs) =
    let rest = updates_for source target id cs in
    if is_affected source id c then announce (update_for target c.id id) ∷ rest else rest

-- The programs whose streams one conversion reaches.
unfoldable pub remake_for : StreamId → List (Option SubProgramCore) → List ConnectEffect
remake_for from [] = []
remake_for from (Option.none ∷ cs) = remake_for from cs
remake_for from (Option.some c ∷ cs) =
    let rest = remake_for from cs in
    if has_output_sink from c.outputs then remake c.id from ∷ rest else rest

-- The loops at the end of `connect_programs`, over the conversions to the type of the stream.
unfoldable pub remake_conversions :
    StreamId
    → List ((StreamId × StreamId) × FilterHandle)
    → List (Option SubProgramCore)
    → List ConnectEffect
unfolding remake_for
remake_conversions id [] cs = []
remake_conversions id (((from, to), f) ∷ conversions) cs =
    let rest = remake_conversions id conversions cs in
    if to.message_type == id.message_type then remake_for from cs ++ rest else rest

abbrev pub result_for : Option SubProgramId → ConnectionResult
result_for Option.none = target_not_ready
result_for (Option.some p) = ready

module _ (filters : FilterRegistry) where
  -- The closure, run on every program that the connection is about.
  unfoldable pub update_programs :
      Reconnect
      → StreamSource
      → StreamId
      → List (Option SubProgramCore)
      → Option (List ConnectEffect)
  update_programs r source id [] = Option.some []
  update_programs r source id (Option.none ∷ cs) = update_programs r source id cs
  update_programs r source id (Option.some c ∷ cs) =
      let rest = update_programs r source id cs in
      if is_affected source id c then and_then (reconnect filters r id c) rest else rest

  abbrev pub stored : StreamSource → StreamTarget → StreamId → SceneCore → SceneCore
  stored source target id core = record core {
    connections = insert connection_key (source, id) target core.connections;
  }

  -- From the choice of the closure on.
  unfoldable pub make_connection :
      Reconnect → StreamSource → StreamTarget → StreamId → SceneCore → Option Outcome
  unfolding updates_for update_programs
  make_connection r source target id core = elim (update_programs r source id core.sub_programs) [
    | Option.none ↦ Option.none
    | Option.some effects ↦ Option.some (record {
      result = ok (result_for (target_sub_program target));
      core = stored source target id core;
      effects = effects ++ updates_for source target id core.sub_programs;
    })
  ]

  unfoldable pub finish_connecting_programs :
      StreamSource → StreamTarget → StreamId → SceneCore → Option Outcome
  unfolding make_connection
  finish_connecting_programs source target id core =
      elim (register_source filters source target core) [
        | err e ↦ Option.some (record { result = err e; core = core; effects = [] })
        | ok core' ↦ elim (reconnection filters source target id core') [
          | err e ↦ Option.some (record { result = err e; core = core'; effects = [] })
          | ok r ↦ make_connection r source target id core'
        ]
      ]

  abbrev pub core_and_effects : Option Outcome → Option (SceneCore × List ConnectEffect)
  core_and_effects Option.none = Option.none
  core_and_effects (Option.some o) = Option.some (o.core, o.effects)

  -- The second connection, of the stream that is for the target alone. Its result is dropped.
  unfoldable pub connect_specific :
      StreamSource → StreamTarget → StreamId → SceneCore → Option (SceneCore × List ConnectEffect)
  connect_specific source (StreamTarget.filtered f p) id core = elim (target_program id) [
    | Option.none ↦
        core_and_effects
          (finish_connecting_programs source (StreamTarget.filtered f p) (for_program id p) core)
    | Option.some _ ↦ Option.some (core, [])
  ]
  connect_specific source _ id core = Option.some (core, [])

  unfoldable pub after_finish : StreamSource → StreamTarget → StreamId → Outcome → Option Outcome
  unfolding connect_specific remake_conversions
  after_finish source target id o = elim o.result [
    | err e ↦
        Option.some
          (record o { effects = o.effects ++ announce (failed_connection e source target id) ∷ [] })
    | ok r ↦ elim (connect_specific source target id o.core) [
      | Option.none ↦ Option.none
      | Option.some (core, effects) ↦ Option.some (record {
        result = o.result;
        core = core;
        effects =
            o.effects
            ++ (effects ++ remake_conversions id core.filter_conversions core.sub_programs);
      })
    ]
  ]

  -- From the standard form on.
  unfoldable pub connect_standard :
      StreamSource → StreamTarget → StreamId → SceneCore → Option Outcome
  unfolding finish_connecting_programs after_finish
  connect_standard source target id core = elim (finish_connecting_programs source target id core) [
    | Option.none ↦ Option.none
    | Option.some o ↦ after_finish source target id o
  ]

  unfoldable pub connect_programs :
      StreamSource → StreamTarget → StreamId → SceneCore → Option Outcome
  unfolding connect_standard
  connect_programs source target id core = elim (check_filters filters source target id) [
    | err e ↦ Option.some (record { result = err e; core = core; effects = [] })
    | ok _ ↦ connect_standard (standard source target).0 (standard source target).1 id core
  ]
