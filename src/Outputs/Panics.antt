-- ===== src/Outputs/Panics.antt =====
-- scene/src/scene_context.rs: where `send` panics.
use flo_scene.Common.{
  ℕ, Bool-cases, false, Option, none, some, inl, inr, ◌≡◌, ◌↔◌, refl, ◌∙◌, ap, subst, if◌then◌else◌,
  length, get_elem?,
}
use flo_scene.Common.Table.{lookup}
use flo_scene.Scene.Types.{StreamTarget, StreamId, TypeId, stream_key, Result, ok, err}
use flo_scene.Scene.Filters.{FilterRegistry}
use flo_scene.Scene.Routing.{SceneCore}
use flo_scene.Scene.Routing.Sinks.{OutputSinkTarget, sink_for_target}
use flo_scene.Outputs.{
  ProgramOutputs, has_type, downcast_core, found_core, output_core, hold, add_core, existing,
  try_create_output_target, stream_for, attached, created, send_on, send,
}

module _ (filters : FilterRegistry) (defaults : TypeId → Option StreamTarget) where
  -- Where `send` panics.
  abbrev pub IsClash : SceneCore → TypeId → StreamTarget → ProgramOutputs → Type 0
  IsClash core t target p =
      (id : StreamId) × (h : ℕ) × (sink : OutputSinkTarget) × (stream_for filters defaults t target
        ≡ ok id)
      × (lookup stream_key id p.outputs ≡ some h)
      × (has_type t (get_elem? p.cores h) ≡ false)
      × (sink_for_target filters defaults t p.id target core ≡ ok sink)

  -- What `send` does with what the table has for its stream.
  abbrev on_core :
      SceneCore
      → TypeId
      → StreamTarget
      → StreamId
      → ProgramOutputs
      → Option ℕ
      → Option (Result ℕ × ProgramOutputs)
  on_core core t target id p o = elim o [
    | some k ↦ some (ok k, hold k p)
    | none ↦ created t id (sink_for_target filters defaults t p.id target core) p
  ]

  no_downcast :
      (t : TypeId) (h : ℕ) (p : ProgramOutputs)
      → has_type t (get_elem? p.cores h) ≡ false
      → downcast_core t h p ≡ none
  no_downcast t h p other = rw other refl

  clash_panics :
      (core : SceneCore) (t : TypeId) (target : StreamTarget) (p : ProgramOutputs)
      → IsClash core t target p
      → send filters defaults core t target p ≡ none
  unfolding send output_core try_create_output_target
  clash_panics core t target p (id, h, sink, stream, entry, other, ready) =
      ap (λ x. send_on filters defaults core t target x p) stream
      ∙ (ap (λ o. on_core core t target id p (found_core t p o)) entry
          ∙ (ap (λ o. on_core core t target id p o) (no_downcast t h p other)
              ∙ (ap (λ x. created t id x p) ready
                  ∙ (ap
                        (λ o. attached (elim o [
                          | some k ↦ existing (downcast_core t k p) p
                          | none ↦ some (inl (length p.cores), add_core t id sink p)
                        ]))
                        entry
                      ∙ ap (λ o. attached (existing o p)) (no_downcast t h p other)))))

  panic_clashes :
      (core : SceneCore) (t : TypeId) (target : StreamTarget) (p : ProgramOutputs)
      → send filters defaults core t target p ≡ none
      → IsClash core t target p
  unfolding send output_core try_create_output_target
  panic_clashes core t target p is = on_stream (stream_for filters defaults t target) refl is
    where
      on_entry :
          (id : StreamId) (sink : OutputSinkTarget) (o : Option ℕ)
          → lookup stream_key id p.outputs ≡ o
          → found_core t p o ≡ none
          → attached (elim o [
            | some k ↦ existing (downcast_core t k p) p
            | none ↦ some (inl (length p.cores), add_core t id sink p)
          ])
            ≡ none
          → (h : ℕ) × (lookup stream_key id p.outputs ≡ some h)
            × (has_type t (get_elem? p.cores h) ≡ false)
      on_entry id sink none at no_core is' = cc
      on_entry id sink (some h) at no_core is' =
          elim (Bool-cases (has_type t (get_elem? p.cores h))) [
            | inl same ↦ absurd (cc (subst (λ b. (if b then some h else none) ≡ none) same no_core))
            | inr other ↦ (h, at, other)
          ]

      on_sink :
          (id : StreamId) (x : Result OutputSinkTarget)
          → found_core t p (lookup stream_key id p.outputs) ≡ none
          → created t id x p ≡ none
          → (sink : OutputSinkTarget) × (x ≡ ok sink)
            × ((h : ℕ) × (lookup stream_key id p.outputs ≡ some h)
                × (has_type t (get_elem? p.cores h) ≡ false))
      on_sink id (err e) no_core is' = cc
      on_sink id (ok sink) no_core is' =
          (sink, refl, on_entry id sink (lookup stream_key id p.outputs) refl no_core is')

      on_found :
          (id : StreamId) (o : Option ℕ)
          → found_core t p (lookup stream_key id p.outputs) ≡ o
          → on_core core t target id p o ≡ none
          → found_core t p (lookup stream_key id p.outputs) ≡ none
      on_found id none at is' = at
      on_found id (some k) at is' = cc

      on_stream :
          (x : Result StreamId)
          → stream_for filters defaults t target ≡ x
          → send_on filters defaults core t target x p ≡ none
          → IsClash core t target p
      on_stream (err e) at is' = cc
      on_stream (ok id) at is' =
          let no_core = on_found id (found_core t p (lookup stream_key id p.outputs)) refl is' in
          let parts =
            on_sink id (sink_for_target filters defaults t p.id target core) no_core
              (subst (λ o. on_core core t target id p o ≡ none) no_core is') in
          (id, parts.2.0, parts.0, at, parts.2.1, parts.2.2, parts.1)

  -- `send` panics exactly when its stream has a core of another type in the table, and the scene has a
  -- sink for the target.
  pub send_panics_iff :
      (core : SceneCore) (t : TypeId) (target : StreamTarget) (p : ProgramOutputs)
      → (send filters defaults core t target p ≡ none) ↔ IsClash core t target p
  send_panics_iff core t target p = (panic_clashes core t target p, clash_panics core t target p)
