-- ===== src/Sink/Send/Flush.antt =====
-- scene/src/output_sink.rs: what `poll_flush` does with the message that waits.
use flo_scene.Common.{
  ℕ, Bool, true, false, [], ◌∷◌, Option, none, some, ◌≡◌, inl, inr, refl, Option-cases, Bool-cases,
}
use flo_scene.Input.Core.{Waker, InputStreamCore, accepts, enqueue, send, wake_when_slots_available}
use flo_scene.Input.Stream.{Poll, ready, pending}
use flo_scene.Scene.Slots.Lists.{set}
use flo_scene.Sink.Core.{
  SceneSendError, SinkTarget, World, OutputSink, target_input, error_message,
  target_program_ended_before_ready,
}
use flo_scene.Sink.Send.{
  SinkResult, ok, err, SinkStep, refusal, flush_answer, flush_to_input, flush_on, flush_by,
  poll_flush,
}
use flo_scene.Sink.Send.Laws.{refusal_message}

module _ {ℓ} {M : Type ℓ} where
  -- A flush for the task `k`, by what it does. A pending one has either woken the task itself, or
  -- has left its waker where a change of the target looks for it, and with the input that had no
  -- room if there is one.
  pub data Flushed (k : Waker) (s : OutputSink M) (w : World M)
      : SinkStep M (Poll (SinkResult M)) → Type ℓ where
    yielded :
        (r : SinkStep M (Poll (SinkResult M)))
        → r.result ≡ pending
        → r.wakes ≡ k ∷ []
        → r.sink.waiting_message ≡ s.waiting_message
        → r.sink.yield_after_sending ≡ false
        → r.world ≡ w
        → Flushed k s w r
    idle :
        (r : SinkStep M (Poll (SinkResult M)))
        → s.waiting_message ≡ none
        → r.result ≡ ready ok
        → r.sink ≡ s
        → r.world ≡ w
        → Flushed k s w r
    no_target :
        (r : SinkStep M (Poll (SinkResult M)))
        → w.target ≡ SinkTarget.disconnected
        → r.result ≡ pending
        → r.sink.waiting_message ≡ s.waiting_message
        → r.world ≡ record w { when_target_changed = some k }
        → Flushed k s w r
    thrown_away :
        (r : SinkStep M (Poll (SinkResult M)))
        → w.target ≡ SinkTarget.discard
        → r.result ≡ ready ok
        → r.sink.waiting_message ≡ none
        → r.world.inputs ≡ w.inputs
        → Flushed k s w r
    no_room :
        (r : SinkStep M (Poll (SinkResult M))) (m : M) (i : ℕ) (c : InputStreamCore M)
        → target_input w ≡ some (i, c)
        → accepts c ≡ false
        → r.result ≡ pending
        → s.waiting_message ≡ some m
        → r.sink.waiting_message ≡ some m
        → r.world ≡ record w {
          inputs = set w.inputs i (some (wake_when_slots_available k c));
          when_target_changed = some k;
        }
        → Flushed k s w r
    delivered :
        (r : SinkStep M (Poll (SinkResult M))) (m : M) (i : ℕ) (c : InputStreamCore M)
        → target_input w ≡ some (i, c)
        → accepts c ≡ true
        → s.waiting_message ≡ some m
        → r.result ≡ ready ok
        → r.sink.waiting_message ≡ none
        → r.world.inputs ≡ set w.inputs i (some (enqueue s.program_id m c))
        → Flushed k s w r
    returned :
        (r : SinkStep M (Poll (SinkResult M))) (m : M) (e : SceneSendError M)
        → s.waiting_message ≡ some m
        → r.result ≡ ready (err e)
        → error_message e ≡ some m
        → r.sink.waiting_message ≡ none
        → r.world.inputs ≡ w.inputs
        → Flushed k s w r
    ended :
        (r : SinkStep M (Poll (SinkResult M)))
        → target_input w ≡ none
        → r.result ≡ ready (err target_program_ended_before_ready)
        → r.sink.waiting_message ≡ s.waiting_message
        → r.world.target ≡ SinkTarget.disconnected
        → r.world.inputs ≡ w.inputs
        → Flushed k s w r

  abbrev unparked : World M → World M
  unparked w = record w { when_target_changed = none }

  answer_Flushed :
      (k : Waker) (m : M) (s : OutputSink M) (w : World M) (i : ℕ) (c : InputStreamCore M)
      → s.waiting_message ≡ some m
      → target_input w ≡ some (i, c)
      → Flushed k s w (flush_answer k s (unparked w) i (send s.program_id m c))
  unfolding flush_answer send
  answer_Flushed k m s w i c has at = elim (Bool-cases (accepts c)) [
    | inl takes ↦ rw (takes, send) (delivered _ m i c at takes has refl refl refl)
    | inr not_now ↦ elim (Option-cases (refusal c m)) [
      | inl later ↦
          rw (not_now, send)
            (rw (later, flush_answer) (no_room _ m i c at not_now refl has refl refl))
      | inr (e, is) ↦
          rw (not_now, send)
            (rw (is, flush_answer) (returned _ m e has refl (refusal_message c m e is) refl refl))
    ]
  ]

  input_Flushed :
      (k : Waker) (m : M) (s : OutputSink M) (w : World M) (t : Option (ℕ × InputStreamCore M))
      → s.waiting_message ≡ some m
      → target_input w ≡ t
      → Flushed k s w (flush_to_input k m s (unparked w) t)
  unfolding flush_to_input
  input_Flushed k m s w none has at = ended _ at refl refl refl refl
  input_Flushed k m s w (some (i, c)) has at = answer_Flushed k m s w i c has at

  on_Flushed :
      (k : Waker) (m : M) (s : OutputSink M) (w : World M) (t : SinkTarget)
      → s.waiting_message ≡ some m
      → w.target ≡ t
      → Flushed k s w (flush_on k m s (unparked w) t)
  unfolding flush_on target_input
  on_Flushed k m s w SinkTarget.disconnected has is = no_target _ is refl refl refl
  on_Flushed k m s w SinkTarget.discard has is = thrown_away _ is refl refl refl
  on_Flushed k m s w (SinkTarget.input i) has is = input_Flushed k m s w (target_input w) has refl
  on_Flushed k m s w (SinkTarget.close_when_dropped i) has is =
      input_Flushed k m s w (target_input w) has refl

  by_Flushed :
      (k : Waker) (s : OutputSink M) (w : World M) (must : Bool) (waiting : Option M)
      → s.waiting_message ≡ waiting
      → Flushed k s w (flush_by k s w must waiting)
  unfolding flush_by
  by_Flushed k s w true waiting has = yielded _ refl refl refl refl refl
  by_Flushed k s w false none has = idle _ has refl refl refl
  by_Flushed k s w false (some m) has = on_Flushed k m s w w.target has refl

  -- `poll_flush` is never pending without a wake-up to come: it woke its task, or left the task's
  -- waker with the target and with the input that has no room. It neither loses nor doubles the
  -- message that waits: the message stays, or is the last in the target's queue, or comes back in
  -- the error, or was thrown away by a sink that discards.
  pub poll_flush-Flushed :
      (k : Waker) (s : OutputSink M) (w : World M) → Flushed k s w (poll_flush k s w)
  unfolding poll_flush
  poll_flush-Flushed k s w = by_Flushed k s w s.yield_after_sending s.waiting_message refl
