-- ===== src/Sink/Send/Laws.antt =====
-- scene/src/output_sink.rs: what becomes of a message that is given to a sink.
use flo_scene.Common.{
  ℕ, true, false, not, ◌&&◌, ◌||◌, [], Option, none, some, ◌≡◌, inl, inr, refl, arith, Option-cases,
  Bool-cases,
}
use flo_scene.Input.Core.{
  InputStreamCore, accepts, enqueue, send, is_queue_full, is_blocked, option_to_list,
}
use flo_scene.Scene.Slots.Lists.{set}
use flo_scene.Sink.Core.{
  SceneSendError, SinkTarget, World, OutputSink, target_input, error_message, target_program_ended,
}
use flo_scene.Sink.Send.{
  SinkResult, ok, err, SinkStep, Steal, is_none, with_input, refusal, steal_thread, after_sent,
  start_send, start_on, send_answer, send_to_input,
}

module _ {ℓ} {M : Type ℓ} where
  pub refusal_message :
      (c : InputStreamCore M) (m : M) (e : SceneSendError M)
      → refusal c m ≡ some e
      → error_message e ≡ some m
  unfolding refusal error_message
  refusal_message c m e is = ground arith

  -- One of four things became of message `m`: it waits in the sink, nothing else being changed but the
  -- flag to yield; it was thrown away by a sink that discards; it is the last in the queue of the
  -- target's input, which took it; or it came back in the error.
  pub data Fate (steal : Steal M) (m : M) (s : OutputSink M) (w : World M)
      : SinkStep M (SinkResult M) → Type ℓ where
    waits :
        (r : SinkStep M (SinkResult M))
        → r.result ≡ ok
        → r.sink ≡ record s { waiting_message = some m; yield_after_sending = false }
        → r.world ≡ w
        → r.wakes ≡ []
        → Fate steal m s w r
    discarded :
        (r : SinkStep M (SinkResult M))
        → w.target ≡ SinkTarget.discard
        → r.result ≡ ok
        → r.sink ≡ record s {
          waiting_message = none;
          when_message_sent = none;
          yield_after_sending = false;
        }
        → r.world ≡ w
        → r.wakes ≡ option_to_list s.when_message_sent
        → Fate steal m s w r
    queued :
        (r : SinkStep M (SinkResult M)) (i : ℕ) (c : InputStreamCore M)
        → target_input w ≡ some (i, c)
        → accepts c ≡ true
        → r.result ≡ ok
        → r.sink ≡ record s {
          waiting_message = none;
          yield_after_sending =
              not (is_none c.when_message_sent)
              && (not
                    (steal_thread steal
                      (enqueue s.program_id m c)
                      (with_input w (set w.inputs i (some (enqueue s.program_id m c))))).0
                  && (is_queue_full (enqueue s.program_id m c)
                      || is_blocked (enqueue s.program_id m c)));
        }
        → r.world
          ≡ (steal_thread steal
              (enqueue s.program_id m c)
              (with_input w (set w.inputs i (some (enqueue s.program_id m c))))).1
        → r.wakes ≡ option_to_list c.when_message_sent
        → Fate steal m s w r
    returned :
        (r : SinkStep M (SinkResult M)) (e : SceneSendError M)
        → r.result ≡ err e
        → error_message e ≡ some m
        → r.sink ≡ record s { yield_after_sending = false }
        → r.world.inputs ≡ w.inputs
        → r.wakes ≡ []
        → Fate steal m s w r

  answer-Fate :
      (steal : Steal M) (m : M) (s : OutputSink M) (w : World M) (i : ℕ) (c : InputStreamCore M)
      → target_input w ≡ some (i, c)
      → Fate steal m s w
          (send_answer steal (record s { yield_after_sending = false }) w i (send s.program_id m c))
  unfolding send_answer send after_sent
  answer-Fate steal m s w i c at = elim (Bool-cases (accepts c)) [
    | inl takes ↦ rw (takes, send) (queued _ i c at takes refl refl refl refl)
    | inr not_now ↦ elim (Option-cases (refusal c m)) [
      | inl later ↦ rw (not_now, send) (rw (later, send_answer) (waits _ refl refl refl refl))
      | inr (e, is) ↦
          rw (not_now, send)
            (rw (is, send_answer) (returned _ e refl (refusal_message c m e is) refl refl refl))
    ]
  ]

  input-Fate :
      (steal : Steal M) (m : M) (s : OutputSink M) (w : World M)
      (t : Option (ℕ × InputStreamCore M))
      → target_input w ≡ t
      → Fate steal m s w (send_to_input steal m (record s { yield_after_sending = false }) w t)
  unfolding send_to_input error_message
  input-Fate steal m s w none at = returned _ (target_program_ended m) refl refl refl refl refl
  input-Fate steal m s w (some (i, c)) at = answer-Fate steal m s w i c at

  on_Fate :
      (steal : Steal M) (m : M) (s : OutputSink M) (w : World M) (t : SinkTarget)
      → w.target ≡ t
      → Fate steal m s w (start_on steal m (record s { yield_after_sending = false }) w t)
  unfolding start_on
  on_Fate steal m s w SinkTarget.disconnected is = waits _ refl refl refl refl
  on_Fate steal m s w SinkTarget.discard is = discarded _ is refl refl refl refl
  on_Fate steal m s w _ is = input-Fate steal m s w (target_input w) refl

  -- Whatever the target is, the message given to `start_send` ends in one of four places. It waits in
  -- the sink, and nothing else has changed there or in the world; or it was put last in the queue of
  -- the target's input, which had room, before the target's program had its turn, and the waker of the
  -- input's owner is called; or it comes back in the error, and the sink and the inputs are as they
  -- were; or it was thrown away, which only a sink that discards does, and the waker of the sink is
  -- called and taken. The sink's flag to yield is set only in the second case, if the owner had to be
  -- woken, its thread was not stolen, and the queue is full or blocked; else it is reset.
  pub start_send-Fate :
      (steal : Steal M) (m : M) (s : OutputSink M) (w : World M)
      → Fate steal m s w (start_send steal m s w)
  unfolding start_send
  start_send-Fate steal m s w = on_Fate steal m s w w.target refl
