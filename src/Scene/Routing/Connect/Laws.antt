-- ===== src/Scene/Routing/Connect/Laws.antt =====
-- scene/src/scene_core.rs: what `connect_programs` does to the connections.
use flo_scene.Common.{Option, ◌≡◌, ◌≢◌, refl, arith, inl, inr, ◌⊎◌, Option-cases, subst}
use flo_scene.Scene.Filters.{FilterRegistry, source_stream_id_any, target_stream_id_any}
use flo_scene.Scene.Types.{
  StreamSource, StreamTarget, StreamId, target_sub_program, ConnectionError, ok, err, bind-eq-ok,
  Result-cases, target_discrete,
}
use flo_scene.Scene.Routing.{SceneCore}
use flo_scene.Scene.Routing.Connect.{
  Outcome, Reconnect, register_source, add_filtered_target, reconnection,
}
use flo_scene.Scene.Routing.Connect.Finish.{
  stored, result_for, make_connection, update_programs, finish_connecting_programs,
}

-- Nothing that decides where a stream goes is changed.
abbrev pub Kept : SceneCore → SceneCore → Type 0
Kept core core' =
    (core'.connections ≡ core.connections)
    × (core'.filtered_targets ≡ core.filtered_targets)
    × (core'.slots ≡ core.slots)

module _ (filters : FilterRegistry) where
  pub register-Kept :
      (source : StreamSource) (target : StreamTarget) (core : SceneCore) {core' : SceneCore}
      → target ≢ StreamTarget.any
      → register_source filters source target core ≡ ok core'
      → Kept core core'
  unfolding register_source add_filtered_target
  register-Kept (StreamSource.filtered f) StreamTarget.any core ne e = absurd (ne refl)
  register-Kept (StreamSource.filtered f) target core ne e =
      let (source, _, e₁) = bind-eq-ok (source_stream_id_any f filters) _ e in
      let (middle, _, e₂) = bind-eq-ok (target_stream_id_any f filters) _ e₁ in ground arith
  register-Kept _ target core ne e = ground arith

  -- Where a filter source is registered for any target, the closure is found.
  reconnection-any :
      (source : StreamSource) (id : StreamId) (core core' : SceneCore) (e : ConnectionError)
      → register_source filters source StreamTarget.any core ≡ ok core'
      → reconnection filters source StreamTarget.any id core' ≢ err e
  unfolding register_source reconnection
  reconnection-any (StreamSource.filtered f) id core core' e known fails =
      let (source, is, _) = bind-eq-ok (source_stream_id_any f filters) _ known in ground arith
  reconnection-any _ id core core' e known fails = ground arith

  abbrev pub Finished : StreamSource → StreamTarget → StreamId → SceneCore → Outcome → Type 0
  Finished source target id core o =
      ((e : ConnectionError) × (o.result ≡ err e) × Kept core o.core)
      ⊎ ((core' : SceneCore) × (register_source filters source target core ≡ ok core')
          × (o.core ≡ stored filters source target id core')
          × (o.result ≡ ok (result_for (target_sub_program target))))

  made :
      (r : Reconnect) (source : StreamSource) (target : StreamTarget) (id : StreamId)
      (core : SceneCore) {o : Outcome}
      → make_connection filters r source target id core ≡ Option.some o
      → (o.core ≡ stored filters source target id core)
        × (o.result ≡ ok (result_for (target_sub_program target)))
  unfolding make_connection
  made r source target id core is =
      elim (Option-cases (update_programs filters r source id core.sub_programs)) [
        | inl panics ↦ absurd (cc (rw (panics, make_connection) at is))
        | inr (effects, e) ↦
            (cc (rw (e, make_connection) at is), cc (rw (e, make_connection) at is))
      ]

  reconnection-Kept :
      (source : StreamSource) (target : StreamTarget) (id : StreamId) (core core' : SceneCore)
      (e : ConnectionError)
      → register_source filters source target core ≡ ok core'
      → reconnection filters source target id core' ≡ err e
      → Kept core core'
  reconnection-Kept source target id core core' e known fails =
      elim (target_discrete target StreamTarget.any) [
        | inl same ↦ absurd (
            reconnection-any source id core core' e
              (subst (λ t. register_source filters source t core ≡ ok core') same known)
              (subst (λ t. reconnection filters source t id core' ≡ err e) same fails))
        | inr other ↦ register-Kept source target core other known
      ]

  pub finish_cases :
      (source : StreamSource) (target : StreamTarget) (id : StreamId) (core : SceneCore)
      {o : Outcome}
      → finish_connecting_programs filters source target id core ≡ Option.some o
      → Finished source target id core o
  unfolding finish_connecting_programs
  finish_cases source target id core is =
      elim (Result-cases (register_source filters source target core)) [
        | inl (e, fails) ↦
            let done = rw (fails, finish_connecting_programs) at is in
            inl (e, cc done, (cc done, cc done, cc done))
        | inr (core', known) ↦ elim (Result-cases (reconnection filters source target id core')) [
          | inl (e, fails) ↦
              let done = rw (known, fails, finish_connecting_programs) at is in
              let kept = reconnection-Kept source target id core core' e known fails in
              inl (e, cc done, (cc (done, kept.0), cc (done, kept.1), cc (done, kept.2)))
          | inr (r, found) ↦
              let done = rw (known, found, finish_connecting_programs) at is in
              let (core_is, result_is) = made r source target id core' done in
              inr (core', known, core_is, result_is)
        ]
      ]
