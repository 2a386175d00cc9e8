-- ===== src/Sink/Send.antt =====
-- scene/src/output_sink.rs: `Sink for OutputSink`. The result has the wakers that are called, in
-- order. Stealing the thread runs a program, so `steal` (`SceneCore::steal_thread_for_program`) is
-- a function of the world: an error, if there is one, and the world that the program leaves.
pub mod Immediate
pub mod Laws
pub mod Flush
use flo_scene.Common.{
  ℕ, Bool, true, false, not, ◌&&◌, ◌||◌, List, [], ◌∷◌, ◌++◌, Option, none, some, if◌then◌else◌,
}
use flo_scene.SubProgram.{SubProgramId}
use flo_scene.Input.Core.{
  Waker, InputStreamCore, SendResult, sent, refused, send, is_queue_full, is_blocked,
  is_waiting_for_idle, wake_when_slots_available, option_to_list,
}
use flo_scene.Input.Stream.{Poll, ready, pending}
use flo_scene.Scene.Slots.Lists.{set}
use flo_scene.Sink.Core.{
  SceneSendError, target_program_ended_before_ready, stream_closed, target_program_ended,
  cannot_accept_more_input_until_scene_is_idle, SinkTarget, World, OutputSink, target_input,
}

pub data SinkResult {ℓ} (M : Type ℓ) : Type ℓ where
  ok : SinkResult M
  err : SceneSendError M → SinkResult M

pub record SinkStep {ℓ} (M A : Type ℓ) : Type ℓ where
  pub sink : OutputSink M
  pub world : World M
  pub result : A
  pub wakes : List Waker

abbrev pub Steal {ℓ} : Type ℓ → Type ℓ
Steal M = SubProgramId → World M → Option (SceneSendError M) × World M

abbrev pub is_none {ℓ} : {A : Type ℓ} → Option A → Bool
is_none none = true
is_none (some a) = false

module _ {ℓ} {M : Type ℓ} where
  -- `core.target = OutputSinkTarget::Disconnected`, where the old target is dead.
  abbrev pub downgrade : World M → World M
  downgrade w = record w { target = SinkTarget.disconnected }

  abbrev pub with_input : World M → List (Option (InputStreamCore M)) → World M
  with_input w is = record w { inputs = is }

  unfoldable pub poll_ready : Waker → OutputSink M → World M → SinkStep M (Poll (SinkResult M))
  poll_ready k s w = elim s.waiting_message [
    | some m ↦ record {
      sink = record s { when_message_sent = some k };
      world = w;
      result = pending;
      wakes = [];
    }
    | none ↦ elim w.target [
      | SinkTarget.disconnected ↦ record {
        sink = s;
        world = record w { when_target_changed = some k };
        result = pending;
        wakes = [];
      }
      | SinkTarget.discard ↦ record { sink = s; world = w; result = ready ok; wakes = [] }
      | _ ↦ elim (target_input w) [
        | none ↦ record {
          sink = s;
          world = downgrade w;
          result = ready (err target_program_ended_before_ready);
          wakes = [];
        }
        | some (i, c) ↦ record { sink = s; world = w; result = ready ok; wakes = [] }
      ]
    ]
  ]

  -- The error for a message that the input refuses, or none if the message is to wait.
  unfoldable pub refusal : InputStreamCore M → M → Option (SceneSendError M)
  refusal c m =
      if c.closed
      then some (stream_closed m)
      else if is_waiting_for_idle c
      then some (cannot_accept_more_input_until_scene_is_idle m)
      else none

  -- Whether the thread was stolen, and the world after that.
  unfoldable pub steal_thread : Steal M → InputStreamCore M → World M → Bool × World M
  steal_thread steal c w =
      if c.allow_thread_stealing && not (is_blocked c) && w.scene_alive
      then (let stolen = steal c.program_id w in (is_none stolen.0, stolen.1))
      else (false, w)

  -- The arm of `start_send` for a message that the input takes.
  unfoldable pub after_sent :
      Steal M
      → OutputSink M
      → InputStreamCore M
      → Option Waker
      → World M
      → SinkStep M (SinkResult M)
  unfolding steal_thread
  after_sent steal s c waker w =
      let (stolen, w') = steal_thread steal c w in
      record {
        sink = record s {
          waiting_message = none;
          yield_after_sending =
              not (is_none waker) && (not stolen && (is_queue_full c || is_blocked c));
        };
        world = w';
        result = ok;
        wakes = option_to_list waker;
      }

  -- The arm of `start_send` for an input, on what `upgrade` gives and on what `send` gives.
  unfoldable pub send_answer :
      Steal M → OutputSink M → World M → ℕ → SendResult M → SinkStep M (SinkResult M)
  unfolding after_sent refusal
  send_answer steal s w i (sent c waker) =
      after_sent steal s c waker (with_input w (set w.inputs i (some c)))
  send_answer steal s w i (refused c m) = elim (refusal c m) [
    | some e ↦ record { sink = s; world = w; result = err e; wakes = [] }
    | none ↦ record {
      sink = record s { waiting_message = some m };
      world = w;
      result = ok;
      wakes = [];
    }
  ]

  unfoldable pub send_to_input :
      Steal M
      → M
      → OutputSink M
      → World M
      → Option (ℕ × InputStreamCore M)
      → SinkStep M (SinkResult M)
  unfolding send_answer
  send_to_input steal m s w none = record {
    sink = s;
    world = downgrade w;
    result = err (target_program_ended m);
    wakes = [];
  }
  send_to_input steal m s w (some (i, c)) = send_answer steal s w i (send s.program_id m c)

  -- The `match` of `start_send` on the target.
  unfoldable pub start_on :
      Steal M → M → OutputSink M → World M → SinkTarget → SinkStep M (SinkResult M)
  unfolding send_to_input
  start_on steal m s w SinkTarget.disconnected = record {
    sink = record s { waiting_message = some m };
    world = w;
    result = ok;
    wakes = [];
  }
  start_on steal m s w SinkTarget.discard = record {
    sink = record s { waiting_message = none; when_message_sent = none };
    world = w;
    result = ok;
    wakes = option_to_list s.when_message_sent;
  }
  start_on steal m s w _ = send_to_input steal m s w (target_input w)

  unfoldable pub start_send : Steal M → M → OutputSink M → World M → SinkStep M (SinkResult M)
  unfolding start_on
  start_send steal m s w = start_on steal m (record s { yield_after_sending = false }) w w.target

  -- The arm of `poll_flush` for an input, on what `send` gives and on what `upgrade` gives.
  unfoldable pub flush_answer :
      Waker → OutputSink M → World M → ℕ → SendResult M → SinkStep M (Poll (SinkResult M))
  unfolding refusal
  flush_answer k s w i (sent c waker) = record {
    sink = record s { waiting_message = none; when_message_sent = none };
    world = with_input w (set w.inputs i (some c));
    result = ready ok;
    wakes = option_to_list waker ++ option_to_list s.when_message_sent;
  }
  flush_answer k s w i (refused c m) = elim (refusal c m) [
    | some e ↦ record {
      sink = record s { waiting_message = none };
      world = w;
      result = ready (err e);
      wakes = [];
    }
    | none ↦ record {
      sink = record s { waiting_message = some m };
      world = record w {
        inputs = set w.inputs i (some (wake_when_slots_available k c));
        when_target_changed = some k;
      };
      result = pending;
      wakes = [];
    }
  ]

  unfoldable pub flush_to_input :
      Waker
      → M
      → OutputSink M
      → World M
      → Option (ℕ × InputStreamCore M)
      → SinkStep M (Poll (SinkResult M))
  unfolding flush_answer
  flush_to_input k m s w none = record {
    sink = s;
    world = record w { target = SinkTarget.disconnected; when_target_changed = some k };
    result = ready (err target_program_ended_before_ready);
    wakes = [];
  }
  flush_to_input k m s w (some (i, c)) = flush_answer k s w i (send s.program_id m c)

  -- The `match` of `poll_flush` on the target, with the message that waits. The waker of the
  -- target has been removed before.
  unfoldable pub flush_on :
      Waker → M → OutputSink M → World M → SinkTarget → SinkStep M (Poll (SinkResult M))
  unfolding flush_to_input
  flush_on k m s w SinkTarget.disconnected = record {
    sink = s;
    world = record w { when_target_changed = some k };
    result = pending;
    wakes = [];
  }
  flush_on k m s w SinkTarget.discard = record {
    sink = record s { waiting_message = none; when_message_sent = none };
    world = w;
    result = ready ok;
    wakes = option_to_list s.when_message_sent;
  }
  flush_on k m s w _ = flush_to_input k m s w (target_input w)

  -- `poll_flush`, on the flag and the message that it reads first.
  unfoldable pub flush_by :
      Waker → OutputSink M → World M → Bool → Option M → SinkStep M (Poll (SinkResult M))
  unfolding flush_on
  flush_by k s w true waiting = record {
    sink = record s { yield_after_sending = false };
    world = w;
    result = pending;
    wakes = k ∷ [];
  }
  flush_by k s w false none = record { sink = s; world = w; result = ready ok; wakes = [] }
  flush_by k s w false (some m) = flush_on k m s (record w { when_target_changed = none }) w.target

  unfoldable pub poll_flush : Waker → OutputSink M → World M → SinkStep M (Poll (SinkResult M))
  unfolding flush_by
  poll_flush k s w = flush_by k s w s.yield_after_sending s.waiting_message

  unfoldable pub poll_close : OutputSink M → World M → SinkStep M (Poll (SinkResult M))
  poll_close s w = record { sink = s; world = w; result = ready ok; wakes = [] }
