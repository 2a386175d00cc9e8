-- ===== src/Sink/Core.antt =====
-- scene/src/output_sink.rs: `OutputSinkTarget`, `OutputSinkCore` and `OutputSink`, with
-- `SceneSendError` of scene/src/error.rs.
use flo_scene.Common.{ℕ, Bool, true, false, not, List, [], ◌++◌, Option, none, some}
use flo_scene.SubProgram.{SubProgramId}
use flo_scene.Input.Core.{Waker, InputStreamCore, close, option_to_list}
use flo_scene.Scene.Slots.Lists.{set, slot_at}
use flo_scene.Scene.Types.{
  ConnectionError, target_not_in_scene, target_not_available, cannot_steal_thread, target_not_ready,
  target_cannot_deserialize,
}

pub data SceneSendError {ℓ} (M : Type ℓ) : Type ℓ where
  target_program_ended_before_ready cannot_re_enter_target_program : SceneSendError M
  error_after_deserialization : SceneSendError M
  stream_closed target_program_ended stream_disconnected : M → SceneSendError M
  cannot_accept_more_input_until_scene_is_idle cannot_deserialize : M → SceneSendError M

-- A weak reference to an input is the index of its core, and is dead if there is none.
pub data SinkTarget : Type 0 where
  disconnected discard : SinkTarget
  input close_when_dropped : ℕ → SinkTarget

-- What a sink shares with the scene: the input cores, the core of the sink (an `OutputSinkCore`),
-- and whether the scene's core is alive.
pub record World {ℓ} (M : Type ℓ) : Type ℓ where
  pub inputs : List (Option (InputStreamCore M))
  pub target : SinkTarget
  pub when_target_changed : Option Waker
  pub scene_alive : Bool

pub record OutputSink {ℓ} (M : Type ℓ) : Type ℓ where
  pub program_id : SubProgramId
  pub waiting_message : Option M
  pub yield_after_sending : Bool
  pub when_message_sent : Option Waker

abbrev pub or_no_wakers : Option (List Waker) → List Waker
or_no_wakers none = []
or_no_wakers (some ws) = ws

module _ {ℓ} {M : Type ℓ} where
  -- `SceneSendError::message`; `to_message` is the same.
  unfoldable pub error_message : SceneSendError M → Option M
  error_message target_program_ended_before_ready = none
  error_message cannot_re_enter_target_program = none
  error_message error_after_deserialization = none
  error_message (stream_closed m) = some m
  error_message (target_program_ended m) = some m
  error_message (stream_disconnected m) = some m
  error_message (cannot_accept_more_input_until_scene_is_idle m) = some m
  error_message (cannot_deserialize m) = some m

  -- `From<SceneSendError> for ConnectionError`
  unfoldable pub to_connection_error : SceneSendError M → ConnectionError
  to_connection_error target_program_ended_before_ready = target_not_in_scene
  to_connection_error cannot_re_enter_target_program = cannot_steal_thread
  to_connection_error error_after_deserialization = target_cannot_deserialize
  to_connection_error (stream_closed m) = target_not_available
  to_connection_error (target_program_ended m) = target_not_in_scene
  to_connection_error (stream_disconnected m) = target_not_available
  to_connection_error (cannot_accept_more_input_until_scene_is_idle m) = target_not_ready
  to_connection_error (cannot_deserialize m) = target_cannot_deserialize

  -- `OutputSink::attach`, without the shared core.
  unfoldable pub attach : SubProgramId → OutputSink M
  attach p = record {
    program_id = p;
    waiting_message = none;
    yield_after_sending = false;
    when_message_sent = none;
  }

  -- `upgrade` on the target's input, with its index.
  abbrev pub with_index : ℕ → Option (InputStreamCore M) → Option (ℕ × InputStreamCore M)
  with_index i none = none
  with_index i (some c) = some (i, c)

  unfoldable pub target_input : World M → Option (ℕ × InputStreamCore M)
  target_input w = elim w.target [
    | disconnected ↦ none
    | discard ↦ none
    | input i ↦ with_index i (slot_at w.inputs i)
    | close_when_dropped i ↦ with_index i (slot_at w.inputs i)
  ]

  -- `OutputSinkCore::target_program_id`
  unfoldable pub target_program_id : World M → Option SubProgramId
  unfolding target_input
  target_program_id w = elim (target_input w) [ none ↦ none | some (i, c) ↦ some c.program_id ]

  unfoldable pub is_attached : World M → Bool
  unfolding target_input
  is_attached w = elim w.target [
    | discard ↦ true
    | _ ↦ elim (target_input w) [ none ↦ false | some (i, c) ↦ not c.closed ]
  ]

  unfoldable pub is_discarding : World M → Bool
  is_discarding w = elim w.target [ discard ↦ true | _ ↦ false ]

  -- `OutputSinkTarget::drop`, with the wakers that it calls.
  unfoldable pub drop_target : World M → World M × List Waker
  drop_target w = elim w.target [
    | close_when_dropped i ↦ elim (slot_at w.inputs i) [
      | none ↦ (w, [])
      | some c ↦ (record w { inputs = set w.inputs i (some (close c).0) }, or_no_wakers (close c).1)
    ]
    | _ ↦ (w, [])
  ]

  -- `OutputSink::attach_to_core`; the old target is dropped as it is replaced.
  unfoldable pub attach_to_core : ℕ → World M → World M × List Waker
  unfolding drop_target
  attach_to_core i w =
      let (dropped, wakers) = drop_target w in
      (
        record dropped { target = input i; when_target_changed = none },
        wakers ++ option_to_list w.when_target_changed,
      )
