-- ===== src/Scene/Routing/Connect/Panics.antt =====
-- scene/src/scene_core.rs: where `finish_connecting_programs` panics.
use flo_scene.Common.{
  ℕ, List, [], ◌∷◌, Option, true, false, ◌≡◌, ◌≢◌, refl, arith, ◌==◌, zero, suc, ◌∙◌, ap, Bool, not,
  ◌&&◌, ◌||◌,
}
use flo_scene.Common.Table.{lookup}
use flo_scene.SubProgram.{SubProgramId}
use flo_scene.Scene.Filters.{FilterRegistry}
use flo_scene.Scene.Slots.Lists.{slot_at}
use flo_scene.Scene.Slots.{SubProgramCore}
use flo_scene.Scene.Types.{
  StreamSource, StreamTarget, StreamId, TypeId, FilterHandle, id_key, stream_key, ConnectionResult,
  Result, as_message_type, ok,
}
use flo_scene.Scene.Routing.{SceneCore, conversion_key}
use flo_scene.Scene.Routing.Sinks.{InputCore}
use flo_scene.Scene.Routing.Connect.{
  ConnectEffect, check_filters, Outcome, Reconnect, attaches, get_target_input, or_disconnects,
  has_output_sink, register_source, reconnection, reconnect,
}
use flo_scene.Scene.Routing.Connect.Finish.{
  is_affected, update_programs, make_connection, finish_connecting_programs, connect_standard,
  connect_programs,
}

abbrev pub has_type : StreamId → Option TypeId → Bool
has_type id Option.none = true
has_type id (Option.some t) = t == id.message_type

abbrev pub is_some : Option (List ConnectEffect) → Bool
is_some Option.none = false
is_some (Option.some effects) = true

-- The sinks for the stream, of the programs that a connection is for, carry messages of its type.
unfoldable pub own_types : StreamSource → StreamId → List (Option SubProgramCore) → Bool
unfolding is_affected lookup
own_types source id [] = true
own_types source id (Option.none ∷ cs) = own_types source id cs
own_types source id (Option.some c ∷ cs) =
    (not (is_affected source id c) || has_type id (lookup stream_key id c.outputs))
    && own_types source id cs

abbrev pub answer : Option Outcome → Option (Result ConnectionResult × SceneCore)
answer Option.none = Option.none
answer (Option.some o) = Option.some (o.result, o.core)

module _ (filters : FilterRegistry) where
  -- One program that has the sink is enough for a panic.
  update_panics :
      (i : InputCore) (source : StreamSource) (id : StreamId) (cs : List (Option SubProgramCore))
      (k : ℕ) (c : SubProgramCore)
      → (i.message_type == id.message_type) ≡ false
      → slot_at cs k ≡ Option.some c
      → is_affected source id c ≡ true
      → update_programs filters (attaches i) source id cs ≡ Option.none
  unfolding update_programs reconnect
  update_panics i source id [] k c differ at hit = cc at
  update_panics i source id (Option.none ∷ cs) zero c differ at hit = cc at
  update_panics i source id (Option.none ∷ cs) (suc k) c differ at hit =
      update_panics i source id cs k c differ at hit
  update_panics i source id (Option.some d ∷ cs) zero c differ at hit =
      unfold is_affected has_output_sink in ground arith
  update_panics i source id (Option.some d ∷ cs) (suc k) c differ at hit =
      ground (arith, update_panics i source id cs k c differ at hit)

  mismatched :
      (p : SubProgramId) (h : ℕ) (slot : StreamId × SubProgramId) (id : StreamId) (f : FilterHandle)
      (core : SceneCore)
      → lookup id_key p core.program_indexes ≡ Option.some h
      → slot_at core.sub_program_inputs h ≡ Option.some slot
      → ((slot.0).message_type == id.message_type) ≡ false
      → lookup conversion_key (as_message_type id, as_message_type slot.0) core.filter_conversions
        ≡ Option.some f
      → get_target_input p id core
        ≡ ok (record { message_type = (slot.0).message_type; through = []; handle = h })
  unfolding get_target_input
  mismatched p h slot id f core index at differ conversion = rw (index, at, differ, conversion) refl

  plain_finish :
      (source : StreamSource) (target : StreamTarget) (id : StreamId) (core : SceneCore)
      (r : Reconnect)
      → ((g : FilterHandle) → source ≢ StreamSource.filtered g)
      → reconnection filters source target id core ≡ ok r
      → finish_connecting_programs filters source target id core
        ≡ make_connection filters r source target id core
  unfolding finish_connecting_programs register_source
  plain_finish (StreamSource.filtered g) target id core r plain e = absurd (plain g refl)
  plain_finish StreamSource.all target id core r plain e = rw (e, finish_connecting_programs) refl
  plain_finish (StreamSource.program q) target id core r plain e =
      rw (e, finish_connecting_programs) refl

  plain_connect :
      (source : StreamSource) (p : SubProgramId) (id : StreamId) (core : SceneCore)
      → ((g : FilterHandle) → source ≢ StreamSource.filtered g)
      → connect_programs filters source (StreamTarget.program p) id core
        ≡ connect_standard filters source (StreamTarget.program p) id core
  unfolding connect_programs check_filters
  plain_connect (StreamSource.filtered g) p id core plain = absurd (plain g refl)
  plain_connect StreamSource.all p id core plain = refl
  plain_connect (StreamSource.program q) p id core plain = refl

  reconnection-program :
      (source : StreamSource) (p : SubProgramId) (id : StreamId) (core : SceneCore)
      → reconnection filters source (StreamTarget.program p) id core
        ≡ or_disconnects (get_target_input p id core)
  unfolding reconnection
  reconnection-program (StreamSource.filtered g) p id core = refl
  reconnection-program _ p id core = refl

  -- Connecting a source that is no filter to a program that reads messages of another type panics,
  -- where a filter is registered that converts to that type, and some program of the scene that the
  -- connection is for already has a sink for the stream.
  pub connect_panics :
      (source : StreamSource) (p : SubProgramId) (h : ℕ) (slot : StreamId × SubProgramId)
      (id : StreamId) (f : FilterHandle) (core : SceneCore) (k : ℕ) (c : SubProgramCore)
      → ((g : FilterHandle) → source ≢ StreamSource.filtered g)
      → lookup id_key p core.program_indexes ≡ Option.some h
      → slot_at core.sub_program_inputs h ≡ Option.some slot
      → ((slot.0).message_type == id.message_type) ≡ false
      → lookup conversion_key (as_message_type id, as_message_type slot.0) core.filter_conversions
        ≡ Option.some f
      → slot_at core.sub_programs k ≡ Option.some c
      → is_affected source id c ≡ true
      → connect_programs filters source (StreamTarget.program p) id core ≡ Option.none
  unfolding connect_standard make_connection
  connect_panics source p h slot id f core k c plain index at differ conversion there hit =
      let input : InputCore = record {
        message_type = (slot.0).message_type;
        through = [];
        handle = h;
      } in
      let target = mismatched p h slot id f core index at differ conversion in
      let choice = reconnection-program source p id core ∙ ap or_disconnects target in
      let finish =
        plain_finish source (StreamTarget.program p) id core (attaches input) plain choice in
      let panics = update_panics input source id core.sub_programs k c differ there hit in
      rw (plain_connect source p id core plain)
        (rw (finish, connect_standard) (rw (panics, make_connection) refl))
