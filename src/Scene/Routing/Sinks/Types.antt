-- ===== src/Scene/Routing/Sinks/Types.antt =====
-- scene/src/scene_core.rs: messages only reach inputs of their own type.
use flo_scene.Common.{
  ℕ, List, [], ◌∷◌, Option, ◌≡◌, inl, inr, Bool-cases, Option-cases, ◌==◌, ==_iff, not, subst,
}
use flo_scene.Common.Table.{nat_key, lookup}
use flo_scene.SubProgram.{SubProgramId}
use flo_scene.Scene.Filters.{FilterRegistry, source_stream_id_any}
use flo_scene.Scene.Slots.Lists.{slot_at}
use flo_scene.Scene.Types.{
  StreamTarget, StreamId, TypeId, FilterHandle, ConnectionError, Result, ok, err, ok_or,
  wrong_input_type, with_message_type, target_not_in_scene, bind-eq-ok, StreamSource, id_key,
  filter_handle_not_found, as_message_type, stream_id_beq, filter_mapping_missing,
}
use flo_scene.Scene.Results.{Ensures, Ensures-bind, Ensures-any, Ensures-ok_or, Ensures-if}
use flo_scene.Scene.Routing.{SceneCore, conversion_key}
use flo_scene.Scene.Routing.Mapping.{mapped_target_for_connection}
use flo_scene.Scene.Routing.Sinks.{
  InputCore, OutputSinkTarget, input, close_when_dropped, downcast, input_core,
  create_input_stream_core, chain_filters, filtered_input_for_program,
  filtered_chain_input_for_program, source_filtered, filter_source_for_program, or_disconnected,
  direct_input, program_sink, sink_of, output_filter_of, sink_for_target, filtered_connection,
  through_connection, through_outputs,
}

module _ (filters : FilterRegistry) (core : SceneCore) where
  -- An input that a message can travel to: the slot of a running program, behind filters each of
  -- which puts out what the next one takes.
  pub data IsFed : InputCore → Type 0 where
    direct :
        (h : ℕ) (id : StreamId) (p : SubProgramId)
        → slot_at core.sub_program_inputs h ≡ Option.some (id, p)
        → IsFed (record { message_type = id.message_type; through = []; handle = h })
    filter :
        (f : FilterHandle) (source : StreamId) (i : InputCore)
        → IsFed i
        → lookup nat_key f filters.stream_id_for_target ≡ Option.some i.message_type
        → lookup nat_key f filters.source_stream_id ≡ Option.some source
        → IsFed (record {
          message_type = source.message_type;
          through = f ∷ i.through;
          handle = i.handle;
        })

  abbrev pub Takes : TypeId → InputCore → Type 0
  Takes t i = (i.message_type ≡ t) × IsFed i

  input_core-IsFed : (p : SubProgramId) → Ensures (λ r. IsFed r.1) (input_core p core)
  unfolding input_core
  input_core-IsFed p =
      Ensures-bind _ _ (ok_or (lookup id_key p core.program_indexes) target_not_in_scene) _
        (Ensures-ok_or _ _)
        λ h _.
          Ensures-bind _ _ (ok_or (slot_at core.sub_program_inputs h) target_not_in_scene) _
            (Ensures-ok_or _ _) λ slot at. direct h slot.0 slot.1 at

  create-IsFed :
      (f : FilterHandle) (i : InputCore)
      → IsFed i
      → Ensures IsFed (create_input_stream_core filters f i)
  unfolding create_input_stream_core
  create-IsFed f i fed =
      Ensures-bind _ _
        (ok_or (lookup nat_key f filters.stream_id_for_target) filter_handle_not_found) _
        (Ensures-ok_or _ _)
        λ output to.
          Ensures-bind _ _
            (ok_or (lookup nat_key f filters.source_stream_id) filter_handle_not_found) _
            (Ensures-ok_or _ _)
            λ source from.
              Ensures-if IsFed (i.message_type == output) _ _
                (λ same. filter f source i fed (rw ((==_iff i.message_type output).0 same) to) from)
                (λ _. tt)

  chain-IsFed :
      (f g : FilterHandle) (i : InputCore) → IsFed i → Ensures IsFed (chain_filters filters f g i)
  unfolding chain_filters
  chain-IsFed f g i fed =
      Ensures-bind IsFed IsFed (create_input_stream_core filters g i) _ (create-IsFed g i fed)
        λ k fed'. create-IsFed f k fed'

  downcast-Takes :
      (t : TypeId) (i : InputCore) (e : ConnectionError)
      → IsFed i
      → Ensures (Takes t) (downcast t i e)
  unfolding downcast
  downcast-Takes t i e fed = elim (Bool-cases (i.message_type == t)) [
    | inl same ↦ rw same ((==_iff i.message_type t).0 same, fed)
    | inr other ↦ rw other tt
  ]

  filtered-Takes :
      (t : TypeId) (f : FilterHandle) (p : SubProgramId)
      → Ensures (Takes t) (filtered_input_for_program filters t f p core)
  unfolding filtered_input_for_program
  filtered-Takes t f p = Ensures-bind _ _ (input_core p core) _ (input_core-IsFed p) λ target fed.
      Ensures-bind _ _ (source_stream_id_any f filters) _ (Ensures-any _) λ filter_input _.
        Ensures-if (Takes t) (not (stream_id_beq filter_input (with_message_type t))) _ _
          (λ _.
            Ensures-bind _ _
              (ok_or
                (lookup conversion_key (with_message_type t, filter_input) core.filter_conversions)
                filter_mapping_missing)
              _ (Ensures-any _)
              λ initial _.
                Ensures-bind _ _ (chain_filters filters initial f target.1) _
                  (chain-IsFed initial f target.1 fed)
                  λ chained fed'. downcast-Takes t chained _ fed')
          (λ _.
            Ensures-bind _ _ (create_input_stream_core filters f target.1) _
              (create-IsFed f target.1 fed) λ filtered fed'. downcast-Takes t filtered _ fed')

  filtered_chain-Takes :
      (t : TypeId) (f g : FilterHandle) (p : SubProgramId)
      → Ensures (Takes t) (filtered_chain_input_for_program filters t f g p core)
  unfolding filtered_chain_input_for_program
  filtered_chain-Takes t f g p =
      Ensures-bind _ _ (input_core p core) _ (input_core-IsFed p) λ target fed.
        Ensures-bind _ _ (chain_filters filters f g target.1) _ (chain-IsFed f g target.1 fed)
          λ chained fed'. downcast-Takes t chained _ fed'

  source_filtered-Takes :
      (t : TypeId) (wrong : ConnectionError) (f : Option FilterHandle) (c : StreamTarget)
      → Ensures (Takes t) (source_filtered filters t wrong f c core)
  unfolding source_filtered
  source_filtered-Takes t wrong (Option.some f) (StreamTarget.program p) = filtered-Takes t f p
  source_filtered-Takes t wrong (Option.some f) (StreamTarget.filtered g p) =
      filtered_chain-Takes t f g p
  source_filtered-Takes t wrong _ _ = tt

  through_connection-Takes :
      (t : TypeId) (wrong : ConnectionError) (from : StreamId)
      (c : Option (StreamTarget × StreamId))
      → Ensures (Takes t) (through_connection filters t wrong from c core)
  unfolding through_connection
  through_connection-Takes t wrong from Option.none = tt
  through_connection-Takes t wrong from (Option.some (c, output)) =
      source_filtered-Takes t wrong (lookup conversion_key (from, output) core.filter_conversions) c

  through_outputs-Takes :
      (t : TypeId) (source : SubProgramId) (wrong : ConnectionError) (from : StreamId)
      (p : SubProgramId) (outputs : Option (List StreamId))
      → Ensures (Takes t) (through_outputs filters t source wrong from p outputs core)
  unfolding through_outputs
  through_outputs-Takes t source wrong from p Option.none = tt
  through_outputs-Takes t source wrong from p (Option.some outputs) =
      through_connection-Takes t wrong from (filtered_connection filters source p outputs core)

  converted-Takes :
      (t : TypeId) (source : SubProgramId) (from to : StreamId) (p : SubProgramId)
      → Ensures (Takes t) (filter_source_for_program filters t source from to p core)
  unfolding filter_source_for_program
  converted-Takes t source from to p =
      elim (Option-cases (
        lookup conversion_key (as_message_type from, as_message_type to) core.filter_conversions)) [
          | inl e ↦ rw (e, filter_source_for_program) (through_outputs-Takes t source _ _ p _)
          | inr (f, e) ↦ rw (e, filter_source_for_program) (filtered-Takes t f p)
        ]

  -- What a sink holds takes the messages of type `t`, and delivers them.
  abbrev pub Carries : TypeId → OutputSinkTarget → Type 0
  Carries t (input i) = Takes t i
  Carries t (close_when_dropped i) = Takes t i
  Carries t _ = Unit

  or_disconnected-Carries :
      (t : TypeId) (connect : InputCore → OutputSinkTarget) (r : Result InputCore)
      → ((i : InputCore) → Takes t i → Carries t (connect i))
      → Ensures (Takes t) r
      → Ensures (Carries t) (or_disconnected filters connect r)
  or_disconnected-Carries t connect (ok i) h q = h i q
  or_disconnected-Carries t connect (err (wrong_input_type a b)) h q = tt
  or_disconnected-Carries t connect (err target_not_in_scene) h q = tt
  or_disconnected-Carries t connect (err _) h q = tt

  direct_input-Takes :
      (t : TypeId) (source p : SubProgramId) (found : StreamId × InputCore)
      → IsFed found.1
      → Ensures (Takes t) (direct_input filters t source p found core)
  unfolding direct_input
  direct_input-Takes t source p (id, i) fed =
      Ensures-if (Takes t) (i.message_type == t) _ _
        (λ same. ((==_iff i.message_type t).0 same, fed))
        (λ _. converted-Takes t source (with_message_type t) id p)

  program_sink-Carries :
      (t : TypeId) (source p : SubProgramId)
      → Ensures (Carries t) (program_sink filters t source p core)
  unfolding program_sink
  program_sink-Carries t source p = elim (Option-cases (lookup id_key p core.program_indexes)) [
    | inl e ↦ rw (e, program_sink) tt
    | inr (h, e) ↦
        rw (e, program_sink)
          (Ensures-bind _ _ (input_core p core) _ (input_core-IsFed p) λ found fed.
            or_disconnected-Carries t input _ (λ i q. q) (direct_input-Takes t source p found fed))
  ]

  sink_of-Carries :
      (t : TypeId) (source : SubProgramId) (f : Option FilterHandle) (target : StreamTarget)
      → Ensures (Carries t) (sink_of filters t source f target core)
  unfolding sink_of
  sink_of-Carries t source f StreamTarget.none = tt
  sink_of-Carries t source f StreamTarget.any = tt
  sink_of-Carries t source Option.none (StreamTarget.program p) = program_sink-Carries t source p
  sink_of-Carries t source Option.none (StreamTarget.filtered g p) =
      or_disconnected-Carries t close_when_dropped _ (λ i q. q) (filtered-Takes t g p)
  sink_of-Carries t source (Option.some f) (StreamTarget.program p) =
      or_disconnected-Carries t close_when_dropped _ (λ i q. q) (filtered-Takes t f p)
  sink_of-Carries t source (Option.some f) (StreamTarget.filtered g p) =
      or_disconnected-Carries t close_when_dropped _ (λ i q. q) (filtered_chain-Takes t f g p)

  -- Whatever the connections and filters are, the input that a sink for messages of type `t` is
  -- given takes messages of type `t`, and leads, through filters each of which puts out what the
  -- next one takes, to the input of a running program that takes what the last one puts out.
  pub sink_for_target-Carries :
      (defaults : TypeId → Option StreamTarget) (t : TypeId) (source : SubProgramId)
      (target : StreamTarget) (sink : OutputSinkTarget)
      → sink_for_target filters defaults t source target core ≡ ok sink
      → Carries t sink
  unfolding sink_for_target
  sink_for_target-Carries defaults t source target sink e =
      let (mapped, _, last) =
        bind-eq-ok
          (mapped_target_for_connection defaults filters (StreamSource.program source) target
            (with_message_type t) core)
          _ e in
      subst (Ensures (Carries t)) last
        (sink_of-Carries t source (output_filter_of filters target) mapped)
