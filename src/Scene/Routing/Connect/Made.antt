-- ===== src/Scene/Routing/Connect/Made.antt =====
-- scene/src/scene_core.rs: a connection that is made is the one that is followed.
use flo_scene.Common.{List, Option, ◌≡◌, ◌≢◌, refl, subst, arith, inl, inr, ◌⊎◌, Option-cases}
use flo_scene.Common.Table.{lookup-insert, lookup-insert_self, pair_beq_iff}
use flo_scene.SubProgram.{SubProgramId}
use flo_scene.Scene.Filters.{FilterRegistry}
use flo_scene.Scene.Types.{
  StreamSource, StreamTarget, StreamId, TypeId, FilterHandle, source_key, stream_key, for_program,
  for_target, target_program, target_sub_program, ConnectionError, ConnectionResult, ok, err,
  Result-cases,
}
use flo_scene.Scene.Routing.{SceneCore, connection, connection_key}
use flo_scene.Scene.Routing.Mapping.{mapped_target_for_connection, mapped_target, all_filter}
use flo_scene.Scene.Routing.Connect.{ConnectEffect, Outcome, standard, check_filters}
use flo_scene.Scene.Routing.Connect.Finish.{
  result_for, finish_connecting_programs, connect_specific, after_finish, connect_standard,
  connect_programs,
}
use flo_scene.Scene.Routing.Connect.Laws.{Kept, register-Kept, finish_cases}

module _ (filters : FilterRegistry) where
  for_program-ne :
      (id : StreamId) (p : SubProgramId) → target_program id ≡ Option.none → for_program id p ≢ id
  unfolding target_program for_target
  for_program-ne id p no_target same = cc (no_target, same)

  -- A connection of another stream, to a program behind a filter, changes no connection.
  finish_other :
      (source : StreamSource) (f : FilterHandle) (p : SubProgramId) (id other : StreamId)
      (core : SceneCore) {o : Outcome}
      → other ≢ id
      → finish_connecting_programs filters source (StreamTarget.filtered f p) other core
        ≡ Option.some o
      → connection source id o.core ≡ connection source id core
  finish_other source f p id other core ne is =
      elim (finish_cases filters source (StreamTarget.filtered f p) other core is) [
        | inl (e, _, kept) ↦ rw kept.0
        | inr (core', known, core_is, _) ↦
            let kept =
              register-Kept filters source (StreamTarget.filtered f p) core (λ e. cc) known in
            ground (
              arith,
              core_is,
              kept.0,
              lookup-insert connection_key (source, other) (source, id) (StreamTarget.filtered f p)
                  core'.connections,
              pair_beq_iff source_key stream_key (source, other) (source, id),
            )
      ]

  specific_keeps :
      (source : StreamSource) (target : StreamTarget) (id : StreamId) (core core' : SceneCore)
      (effects : List ConnectEffect)
      → connect_specific filters source target id core ≡ Option.some (core', effects)
      → connection source id core' ≡ connection source id core
  unfolding connect_specific
  specific_keeps source (StreamTarget.filtered f p) id core core' effects is =
      elim (Option-cases (target_program id)) [
        | inl no_target ↦
            elim (Option-cases (
              finish_connecting_programs filters source (StreamTarget.filtered f p)
                (for_program id p) core)) [
                  | inl panics ↦ absurd (cc (rw (no_target, panics, connect_specific) at is))
                  | inr (o, e) ↦
                      let done = rw (no_target, e, connect_specific) at is in
                      let same =
                        finish_other source f p id (for_program id p) core
                          (for_program-ne id p no_target) e in
                      cc (done, same)
                ]
        | inr (q, e) ↦ cc (rw (e, connect_specific) at is)
      ]
  specific_keeps source _ id core core' effects is = cc is

  abbrev pub Done : StreamSource → StreamTarget → StreamId → SceneCore → Outcome → Type 0
  Done source target id core o =
      ((e : ConnectionError) × (o.result ≡ err e) × Kept core o.core)
      ⊎ ((connection source id o.core ≡ Option.some target)
          × (o.result ≡ ok (result_for (target_sub_program target))))

  after_cases :
      (source : StreamSource) (target : StreamTarget) (id : StreamId) (core : SceneCore)
      (o o' : Outcome)
      → finish_connecting_programs filters source target id core ≡ Option.some o
      → after_finish filters source target id o ≡ Option.some o'
      → Done source target id core o'
  unfolding after_finish
  after_cases source target id core o o' is after =
      elim (finish_cases filters source target id core is) [
        | inl (e, fails, kept) ↦
            let done = rw (fails, after_finish) at after in
            inl (e, cc (done, fails), (cc (done, kept.0), cc (done, kept.1), cc (done, kept.2)))
        | inr (core', known, core_is, result_is) ↦
            elim (Option-cases (connect_specific filters source target id o.core)) [
              | inl panics ↦ absurd (cc (rw (result_is, panics, after_finish) at after))
              | inr ((core'', effects), e) ↦
                  let done = rw (result_is, e, after_finish) at after in
                  let same = specific_keeps source target id o.core core'' effects e in
                  let here : connection source id o.core ≡ Option.some target =
                    rw core_is
                      (lookup-insert_self connection_key (source, id) target core'.connections) in
                  inr (cc (done, same, here), cc (done, result_is))
            ]
      ]

  standard_cases :
      (source : StreamSource) (target : StreamTarget) (id : StreamId) (core : SceneCore)
      (o : Outcome)
      → connect_standard filters source target id core ≡ Option.some o
      → Done source target id core o
  unfolding connect_standard
  standard_cases source target id core o is =
      elim (Option-cases (finish_connecting_programs filters source target id core)) [
        | inl panics ↦ absurd (cc (rw (panics, connect_standard) at is))
        | inr (first, e) ↦
            after_cases source target id core first o e (rw (e, connect_standard) at is)
      ]

  -- Connecting programs, where it does not panic, has one of two outcomes. An error leaves every
  -- connection, the targets of filters and the programs as they were. Otherwise the connection, in
  -- its standard form, is in the table, and the result is `ready` if the target names a program and
  -- `target_not_ready` if it does not.
  pub connect_programs_cases :
      (source : StreamSource) (target : StreamTarget) (id : StreamId) (core : SceneCore)
      (o : Outcome)
      → connect_programs filters source target id core ≡ Option.some o
      → Done (standard source target).0 (standard source target).1 id core o
  unfolding connect_programs
  connect_programs_cases source target id core o is =
      elim (Result-cases (check_filters filters source target id)) [
        | inl (e, fails) ↦
            let done = rw (fails, connect_programs) at is in
            inl (e, cc done, (cc done, cc done, cc done))
        | inr (_, passes) ↦
            standard_cases (standard source target).0 (standard source target).1 id core o
              (rw (passes, connect_programs) at is)
      ]

  -- A connection that is made is followed: afterwards the streams of program `q` that are open to
  -- any target go where the connection says (through the filter on that program's input, if there
  -- is one for all streams), if the connection is for `q`, or if it is for all sources and `q` has
  -- none of its own.
  pub connected_is_followed :
      (defaults : TypeId → Option StreamTarget) (source : StreamSource) (target : StreamTarget)
      (id : StreamId) (core : SceneCore) (o : Outcome) (r : ConnectionResult) (q : SubProgramId)
      → connect_programs filters source target id core ≡ Option.some o
      → o.result ≡ ok r
      → ((standard source target).0 ≡ StreamSource.program q)
        ⊎ (((standard source target).0 ≡ StreamSource.all)
            × (connection (StreamSource.program q) id o.core ≡ Option.none))
      → mapped_target_for_connection defaults filters
          (StreamSource.program q)
          StreamTarget.any
          id
          o.core
        ≡ ok (all_filter defaults filters id o.core (standard source target).1)
  unfolding mapped_target_for_connection mapped_target
  connected_is_followed defaults source target id core o r q is result_is from =
      elim (connect_programs_cases source target id core o is) [
        | inl (e, fails, _) ↦ absurd (cc (fails, result_is))
        | inr (here, _) ↦ elim from [
          | inl own ↦
              let found : connection (StreamSource.program q) id o.core
                  ≡ Option.some (standard source target).1 =
                subst (λ s. connection s id o.core ≡ Option.some (standard source target).1) own
                  here in
              rw found refl
          | inr (general, none_own) ↦
              let found : connection StreamSource.all id o.core
                  ≡ Option.some (standard source target).1 =
                subst (λ s. connection s id o.core ≡ Option.some (standard source target).1) general
                  here in
              rw (none_own, found) refl
        ]
      ]
