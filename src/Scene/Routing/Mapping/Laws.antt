-- ===== src/Scene/Routing/Mapping/Laws.antt =====
-- scene/src/scene_core.rs: what `mapped_target_for_connection` promises.
use flo_scene.Common.{List, [], ◌∷◌, Option, ◌≡◌, ◌≢◌, refl, arith, ap, inl, inr, Option-cases}
use flo_scene.Common.Table.{lookup, insert, lookup-insert, pair_beq_iff}
use flo_scene.SubProgram.{SubProgramId, id_eq_iff}
use flo_scene.Scene.Filters.{FilterRegistry, target_stream_id_any}
use flo_scene.Scene.Types.{
  StreamSource, StreamTarget, StreamId, TypeId, FilterHandle, source_key, stream_key, for_program,
  ok, err, filter_handle_not_found, ConnectionError, bind-eq-ok, bind-eq-err, bind_ext, ok_inj,
}
use flo_scene.Scene.Routing.{SceneCore, connection, connection_key}
use flo_scene.Scene.Routing.Mapping.{
  first_connected, filter_mapped_target, mapped_target, all_filter, mapped_target_for_connection,
}

module _ (defaults : TypeId → Option StreamTarget) (filters : FilterRegistry) where
  all_filter-program :
      (id : StreamId) (core : SceneCore) (t : StreamTarget) (p : SubProgramId) (f : FilterHandle)
      → all_filter defaults filters id core t ≡ StreamTarget.program p
      → connection StreamSource.all (for_program id p) core
        ≢ Option.some (StreamTarget.filtered f p)
  unfolding all_filter
  all_filter-program id core (StreamTarget.program q) p f e = ground (arith, id_eq_iff p p)
  all_filter-program id core _ p f e = ground arith

  -- A stream is never sent straight to a program whose input has a filter for all the streams of
  -- its type.
  pub mapped_not_bypassed :
      (source : StreamSource) (target : StreamTarget) (id : StreamId) (core : SceneCore)
      (p : SubProgramId) (f : FilterHandle)
      → mapped_target_for_connection defaults filters source target id core
        ≡ ok (StreamTarget.program p)
      → connection StreamSource.all (for_program id p) core
        ≢ Option.some (StreamTarget.filtered f p)
  unfolding mapped_target_for_connection
  mapped_not_bypassed source target id core p f e =
      let (t, _, last) = bind-eq-ok (mapped_target defaults filters source target id core) _ e in
      all_filter-program id core t p f (ok_inj last)

  mapped_target-eq-err :
      (source : StreamSource) (target : StreamTarget) (id : StreamId) (core : SceneCore)
      (e : ConnectionError)
      → mapped_target defaults filters source target id core ≡ err e
      → (e ≡ filter_handle_not_found)
        × (f : FilterHandle) × (p : SubProgramId) × (target ≡ StreamTarget.filtered f p)
        × (target_stream_id_any f filters ≡ err filter_handle_not_found)
  unfolding mapped_target target_stream_id_any
  mapped_target-eq-err source (StreamTarget.filtered f p) id core e is =
      (ground arith, f, p, refl, ground arith)
  mapped_target-eq-err source _ id core e is = absurd (cc)

  -- The only error is a filter that the registry does not know, in the target that is asked for.
  pub mapped-eq-err :
      (source : StreamSource) (target : StreamTarget) (id : StreamId) (core : SceneCore)
      (e : ConnectionError)
      → mapped_target_for_connection defaults filters source target id core ≡ err e
      → (e ≡ filter_handle_not_found)
        × (f : FilterHandle) × (p : SubProgramId) × (target ≡ StreamTarget.filtered f p)
        × (target_stream_id_any f filters ≡ err filter_handle_not_found)
  unfolding mapped_target_for_connection
  mapped-eq-err source target id core e is =
      elim (bind-eq-err (mapped_target defaults filters source target id core) _ is) [
        | inl first ↦ mapped_target-eq-err source target id core e first
        | inr (t, _, last) ↦ absurd (cc last)
      ]

connection_other :
    (source other : StreamSource) (id id' : StreamId) (t : StreamTarget) (core : SceneCore)
    → source ≢ other
    → connection source id
        (record core { connections = insert connection_key (other, id') t core.connections })
      ≡ connection source id core
connection_other source other id id' t core ne = ground (
  arith,
  lookup-insert connection_key (other, id') (source, id) t core.connections,
  pair_beq_iff source_key stream_key (other, id') (source, id),
)

module _ (q : SubProgramId) (id' : StreamId) (t : StreamTarget) (core : SceneCore) where
  abbrev changed : SceneCore
  changed = record core {
    connections = insert connection_key (StreamSource.program q, id') t core.connections;
  }

  all_kept :
      (id : StreamId) → connection StreamSource.all id changed ≡ connection StreamSource.all id core
  all_kept id = connection_other StreamSource.all (StreamSource.program q) id id' t core (λ e. cc)

  first_connected-kept :
      (ids : List StreamId) → first_connected ids changed ≡ first_connected ids core
  unfolding first_connected
  first_connected-kept [] = refl
  first_connected-kept (id ∷ ids) = ground (arith, all_kept id, first_connected-kept ids)

  filter_mapped_target-kept :
      (id : StreamId) → filter_mapped_target id changed ≡ filter_mapped_target id core
  unfolding filter_mapped_target
  filter_mapped_target-kept id = elim (Option-cases (lookup stream_key id core.filtered_targets)) [
    | inl e ↦ rw (e, filter_mapped_target)
    | inr (ids, e) ↦ rw (e, filter_mapped_target) (first_connected-kept ids)
  ]

  module _ (defaults : TypeId → Option StreamTarget) (filters : FilterRegistry) where
    mapped_target-kept :
        (source : StreamSource) (target : StreamTarget) (id : StreamId)
        → source ≢ StreamSource.program q
        → mapped_target defaults filters source target id changed
          ≡ mapped_target defaults filters source target id core
    unfolding mapped_target
    mapped_target-kept source (StreamTarget.filtered f p) id ne =
        bind_ext (target_stream_id_any f filters) _ _ λ out. ground (
          arith,
          connection_other source (StreamSource.program q) (for_program out p) id' t core ne,
          all_kept (for_program out p),
        )
    mapped_target-kept source (StreamTarget.program p) id ne = ground (
      arith,
      connection_other source (StreamSource.program q) (for_program id p) id' t core ne,
      all_kept (for_program id p),
    )
    mapped_target-kept source _ id ne = ground (
      arith,
      connection_other source (StreamSource.program q) id id' t core ne,
      all_kept id,
      filter_mapped_target-kept id,
    )

    all_filter-kept :
        (id : StreamId) (target : StreamTarget)
        → all_filter defaults filters id changed target ≡ all_filter defaults filters id core target
    unfolding all_filter
    all_filter-kept id (StreamTarget.program p) = ground (arith, all_kept (for_program id p))
    all_filter-kept id _ = refl

    -- One more connection of `q`, or one changed, is nothing to the other sources.
    pub mapped_isolated :
        (source : StreamSource) (target : StreamTarget) (id : StreamId)
        → source ≢ StreamSource.program q
        → mapped_target_for_connection defaults filters source target id changed
          ≡ mapped_target_for_connection defaults filters source target id core
    unfolding mapped_target_for_connection
    mapped_isolated source target id ne =
        rw (mapped_target-kept source target id ne, mapped_target_for_connection)
          (bind_ext (mapped_target defaults filters source target id core) _ _
            λ x. ap ok (all_filter-kept id x))
