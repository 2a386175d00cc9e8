-- ===== src/Outputs/Run.antt =====
-- scene/src/scene_context.rs and scene/src/subprogram_core.rs: the calls of a program, one after the
-- other.
use flo_scene.Common.{ℕ, true, List, [], ◌∷◌, Option, none, some, ◌≡◌, subst}
use flo_scene.Scene.Types.{StreamTarget, StreamId, TypeId, Result, ok}
use flo_scene.Scene.Filters.{FilterRegistry}
use flo_scene.Scene.Routing.{SceneCore}
use flo_scene.Outputs.{
  ProgramOutputs, is_held, hold, let_go, release_all_unused_output_sinks, new_task_id, stream_for,
  send,
}
use flo_scene.Outputs.Shared.{Shares, release_all-Shares}
use flo_scene.Outputs.Reuse.{Leaves, send-Shares, send_again, send-makes}

-- What happens to the outputs of a program: `send` in a scene, the drop of a sink, the release of the
-- unused cores, and a new task.
pub data Call : Type 0 where
  send_to : SceneCore → TypeId → StreamTarget → Call
  drop_sink : ℕ → Call
  release : Call
  task : Call

module _ (filters : FilterRegistry) (defaults : TypeId → Option StreamTarget) where
  abbrev after : {A : Type 0} → Option (A × ProgramOutputs) → Option ProgramOutputs
  after none = none
  after (some (a, p)) = some p

  -- The state after a call; `none` is a panic.
  unfoldable pub step : Call → ProgramOutputs → Option ProgramOutputs
  unfolding send let_go release_all_unused_output_sinks new_task_id
  step (send_to core t target) p = after (send filters defaults core t target p)
  step (drop_sink h) p = some (let_go h p)
  step release p = some (release_all_unused_output_sinks p).1
  step task p = some (new_task_id p).1

  unfoldable pub run : List Call → ProgramOutputs → Option ProgramOutputs
  unfolding step
  run [] p = some p
  run (c ∷ cs) p = elim (step c p) [ none ↦ none | some q ↦ run cs q ]

  -- Something holds the core after each of the calls.
  abbrev pub HeldAfter : ℕ → Option ProgramOutputs → Type 0
  HeldAfter h none = Unit {0}
  HeldAfter h (some p) = is_held h p.held ≡ true

  abbrev pub IsHeldIn : ℕ → List Call → ProgramOutputs → Type 0
  IsHeldIn h [] p = Unit {0}
  IsHeldIn h (c ∷ cs) p =
      HeldAfter h (step c p)
      × (elim (step c p) as (λ o. Type 0) [ none ↦ Unit {0} | some q ↦ IsHeldIn h cs q ])

  module _ (t : TypeId) (id : StreamId) (h : ℕ) where
    abbrev StillShares : Option ProgramOutputs → Type 0
    StillShares none = Unit {0}
    StillShares (some p) = Shares t id h p

    step-Shares :
        (c : Call) (p : ProgramOutputs)
        → Shares t id h p
        → HeldAfter h (step c p)
        → StillShares (step c p)
    unfolding step let_go new_task_id
    step-Shares (send_to core u target) p s held =
        of_result (send filters defaults core u target p)
          (send-Shares t id h filters defaults core u target p s)
      where
        of_result :
            (x : Option (Result ℕ × ProgramOutputs)) → Leaves t id h x → StillShares (after x)
        of_result none l = tt
        of_result (some (r, q)) l = l
    step-Shares (drop_sink k) p s held = record { entry = s.entry; typed = s.typed; held = held }
    step-Shares release p s held = release_all-Shares t id h p s
    step-Shares task p s held = record { entry = s.entry; typed = s.typed; held = s.held }

    run-Shares :
        (cs : List Call) (p q : ProgramOutputs)
        → Shares t id h p
        → IsHeldIn h cs p
        → run cs p ≡ some q
        → Shares t id h q
    unfolding run
    run-Shares [] p q s held is = subst (λ x. Shares t id h x) (cc) s
    run-Shares (c ∷ cs) p q s held is =
        on_step (step c p) (step-Shares c p s held.0) held.1 is
          (λ r s' h' is'. run-Shares cs r q s' h' is')
      where
        on_step :
            (o : Option ProgramOutputs)
            → StillShares o
            → elim o as (λ x. Type 0) [ none ↦ Unit {0} | some r ↦ IsHeldIn h cs r ]
            → elim o [ none ↦ none | some r ↦ run cs r ] ≡ some q
            → ((r : ProgramOutputs)
                → Shares t id h r
                → IsHeldIn h cs r
                → run cs r ≡ some q
                → Shares t id h q)
            → Shares t id h q
        on_step none s' h' is' go = cc
        on_step (some r) s' h' is' go = go r s' h' is'

    -- After a `send` that gives a sink, and any calls during which some sink keeps its core, a `send` of
    -- the same type to the same target, in whatever state the scene is then, gives a sink with the same
    -- core, and changes nothing but that the core has one holder more.
    pub sends_share :
        (target : StreamTarget) (core core' : SceneCore) (p q r : ProgramOutputs) (cs : List Call)
        → stream_for filters defaults t target ≡ ok id
        → send filters defaults core t target p ≡ some (ok h, q)
        → IsHeldIn h cs q
        → run cs q ≡ some r
        → send filters defaults core' t target r ≡ some (ok h, hold h r)
    sends_share target core core' p q r cs stream first held ran =
        send_again t id h filters defaults core' target r stream (
          run-Shares cs q r (send-makes t id h filters defaults core target p q stream first) held
            ran)
