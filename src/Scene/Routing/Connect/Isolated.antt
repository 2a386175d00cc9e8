-- ===== src/Scene/Routing/Connect/Isolated.antt =====
-- scene/src/scene_core.rs: a connection of one program's streams changes nothing for other sources.
use mathlib.Core.Option.{some-injective}
use flo_scene.Common.{List, Option, ◌≡◌, ◌≢◌, refl, ◌∙◌, subst, inl, inr, Option-cases}
use flo_scene.SubProgram.{SubProgramId}
use flo_scene.Scene.Filters.{FilterRegistry}
use flo_scene.Scene.Types.{
  StreamSource, StreamTarget, StreamId, TypeId, for_program, target_program, Result-cases,
}
use flo_scene.Scene.Routing.{SceneCore}
use flo_scene.Scene.Routing.Mapping.{mapped_target_for_connection}
use flo_scene.Scene.Routing.Mapping.Laws.{mapped_isolated}
use flo_scene.Scene.Routing.Connect.{
  ConnectEffect, Outcome, check_filters, reconnection, register_source,
}
use flo_scene.Scene.Routing.Connect.Finish.{
  stored, make_connection, update_programs, finish_connecting_programs, connect_specific,
  after_finish, connect_standard, connect_programs,
}

module _ (defaults : TypeId → Option StreamTarget) (filters : FilterRegistry)
    (q : SubProgramId) where
  -- The streams of all sources but `q` go where they went.
  abbrev Isolated : SceneCore → SceneCore → Type 0
  Isolated core core' =
      (source : StreamSource) (target : StreamTarget) (id : StreamId)
      → source ≢ StreamSource.program q
      → mapped_target_for_connection defaults filters source target id core'
        ≡ mapped_target_for_connection defaults filters source target id core

  stored-Isolated :
      (target : StreamTarget) (id : StreamId) (core : SceneCore)
      → Isolated core (stored filters (StreamSource.program q) target id core)
  stored-Isolated target id core source asked other ne =
      mapped_isolated q id target core defaults filters source asked other ne

  made-Isolated :
      (r : _) (target : StreamTarget) (id : StreamId) (core : SceneCore) (o : Outcome)
      → make_connection filters r (StreamSource.program q) target id core ≡ Option.some o
      → Isolated core o.core
  unfolding make_connection
  made-Isolated r target id core o is =
      elim (Option-cases
        (update_programs filters r (StreamSource.program q) id core.sub_programs)) [
          | inl panics ↦ absurd (cc (rw (panics, make_connection) at is))
          | inr (effects, e) ↦
              subst (λ x. Isolated core x.core) (some-injective _ _ (rw (e, make_connection) at is))
                (stored-Isolated target id core)
        ]

  finish-Isolated :
      (target : StreamTarget) (id : StreamId) (core : SceneCore) (o : Outcome)
      → finish_connecting_programs filters (StreamSource.program q) target id core ≡ Option.some o
      → Isolated core o.core
  unfolding finish_connecting_programs register_source
  finish-Isolated target id core o is =
      elim (Result-cases (reconnection filters (StreamSource.program q) target id core)) [
        | inl (e, fails) ↦
            subst (λ x. Isolated core x.core)
              (some-injective _ _ (rw (fails, finish_connecting_programs) at is)) (λ s t i ne. refl)
        | inr (r, found) ↦
            made-Isolated r target id core o (rw (found, finish_connecting_programs) at is)
      ]

  specific-Isolated :
      (target : StreamTarget) (id : StreamId) (core core' : SceneCore)
      (effects : List ConnectEffect)
      → connect_specific filters (StreamSource.program q) target id core
        ≡ Option.some (core', effects)
      → Isolated core core'
  unfolding connect_specific
  specific-Isolated (StreamTarget.filtered f p) id core core' effects is =
      elim (Option-cases (target_program id)) [
        | inl no_target ↦
            elim (Option-cases (
              finish_connecting_programs filters (StreamSource.program q)
                (StreamTarget.filtered f p) (for_program id p) core)) [
                  | inl panics ↦ absurd (cc (rw (no_target, panics, connect_specific) at is))
                  | inr (o, e) ↦
                      subst (λ x. Isolated core x.0)
                        (some-injective _ _ (rw (no_target, e, connect_specific) at is))
                        (finish-Isolated (StreamTarget.filtered f p) (for_program id p) core o e)
                ]
        | inr (p', e) ↦
            subst (λ x. Isolated core x.0) (some-injective _ _ (rw (e, connect_specific) at is))
              (λ s t i ne. refl)
      ]
  specific-Isolated _ id core core' effects is =
      subst (λ x. Isolated core x.0) (some-injective _ _ is) (λ s t i ne. refl)

  after-Isolated :
      (target : StreamTarget) (id : StreamId) (core : SceneCore) (o o' : Outcome)
      → Isolated core o.core
      → after_finish filters (StreamSource.program q) target id o ≡ Option.some o'
      → Isolated core o'.core
  unfolding after_finish
  after-Isolated target id core o o' first after = elim (Result-cases o.result) [
    | inl (e, fails) ↦
        subst (λ x. Isolated core x.core) (some-injective _ _ (rw (fails, after_finish) at after))
          first
    | inr (r, done) ↦
        elim (Option-cases (connect_specific filters (StreamSource.program q) target id o.core)) [
          | inl panics ↦ absurd (cc (rw (done, panics, after_finish) at after))
          | inr ((core'', effects), e) ↦
              subst (λ x. Isolated core x.core)
                (some-injective _ _ (rw (done, e, after_finish) at after))
                (λ s t i ne.
                  specific-Isolated target id o.core core'' effects e s t i ne ∙ first s t i ne)
        ]
  ]

  -- Connections are isolated: where `connect_programs` connects the streams of one program and does not
  -- panic, the streams of every other source go where they went before, whatever the target that they
  -- ask for, also where there is an error.
  pub connect_isolated :
      (target : StreamTarget) (id : StreamId) (core : SceneCore) (o : Outcome)
      (source : StreamSource) (asked : StreamTarget) (other : StreamId)
      → connect_programs filters (StreamSource.program q) target id core ≡ Option.some o
      → source ≢ StreamSource.program q
      → mapped_target_for_connection defaults filters source asked other o.core
        ≡ mapped_target_for_connection defaults filters source asked other core
  unfolding connect_programs connect_standard
  connect_isolated target id core o source asked other is ne =
      elim (Result-cases (check_filters filters (StreamSource.program q) target id)) [
        | inl (e, fails) ↦
            subst (λ x. Isolated core x.core)
              (some-injective _ _ (rw (fails, connect_programs) at is)) (λ s t i n. refl) source
              asked other ne
        | inr (_, passes) ↦
            elim (Option-cases
              (finish_connecting_programs filters (StreamSource.program q) target id core)) [
                | inl panics ↦
                    absurd (cc (rw (passes, panics, connect_programs, connect_standard) at is))
                | inr (first, e) ↦
                    after-Isolated target id core first o (finish-Isolated target id core first e)
                      (rw (passes, e, connect_programs, connect_standard) at is) source asked other
                      ne
              ]
      ]
