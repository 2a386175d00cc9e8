-- ===== src/Sink/Send/Immediate.antt =====
-- scene/src/output_sink.rs: `send_immediate`, `try_send_immediate` and `try_flush_immediate`. Of the
-- sink they read only the program that owns it, the `source`.
pub mod Places
use flo_scene.Common.{
  ℕ, Bool, true, false, List, [], ◌∷◌, Option, none, some, ◌≡◌, ◌⊎◌, inl, inr, refl, sym, arith,
  Option-cases, Bool-cases, if◌then◌else◌,
}
use flo_scene.SubProgram.{SubProgramId}
use flo_scene.Input.Core.{
  Waker, InputStreamCore, SendResult, accepts, enqueue, sent, refused, send, send_with_overfill,
  option_to_list,
}
use flo_scene.Scene.Slots.Lists.{set}
use flo_scene.Sink.Core.{
  SceneSendError, target_program_ended_before_ready, stream_disconnected, SinkTarget, World,
  target_input,
}
use flo_scene.Sink.Send.{SinkResult, ok, err, Steal, with_input}

-- `Result<(), TMessage>`, with the world after it: the message is the one that comes back.
pub record Tried {ℓ} (M : Type ℓ) : Type ℓ where
  pub world : World M
  pub returned : Option M
  pub wakes : List Waker

pub record Sending {ℓ} (M : Type ℓ) : Type ℓ where
  pub world : World M
  pub result : SinkResult M
  pub wakes : List Waker

module _ {ℓ} {M : Type ℓ} where
  -- The last part of `try_flush_immediate`, on what `upgrade` gives.
  unfoldable pub flush_input :
      Steal M → World M → Option (ℕ × InputStreamCore M) → Option (SceneSendError M) × World M
  flush_input steal w none = (none, w)
  flush_input steal w (some (i, c)) =
      if c.allow_thread_stealing then steal c.program_id w else (none, w)

  unfoldable pub try_flush_immediate : Steal M → World M → Option (SceneSendError M) × World M
  unfolding flush_input
  try_flush_immediate steal w =
      if w.scene_alive
      then flush_input steal w (target_input w)
      else (some target_program_ended_before_ready, w)

  -- `try_send_immediate` on what `send` gives, on what `upgrade` gives, and on the target.
  unfoldable pub try_answer : Steal M → World M → ℕ → SendResult M → Tried M
  unfolding try_flush_immediate
  try_answer steal w i (sent c waker) = record {
    world = (try_flush_immediate steal (with_input w (set w.inputs i (some c)))).1;
    returned = none;
    wakes = option_to_list waker;
  }
  try_answer steal w i (refused c m) = record { world = w; returned = some m; wakes = [] }

  unfoldable pub try_input :
      Steal M → SubProgramId → M → World M → Option (ℕ × InputStreamCore M) → Tried M
  unfolding try_answer
  try_input steal source m w none = record { world = w; returned = some m; wakes = [] }
  try_input steal source m w (some (i, c)) = try_answer steal w i (send source m c)

  unfoldable pub try_on : Steal M → SubProgramId → M → World M → SinkTarget → Tried M
  unfolding try_input
  try_on steal source m w SinkTarget.discard = record { world = w; returned = none; wakes = [] }
  try_on steal source m w SinkTarget.disconnected = record {
    world = w;
    returned = some m;
    wakes = [];
  }
  try_on steal source m w _ = try_input steal source m w (target_input w)

  unfoldable pub try_send_immediate : Steal M → SubProgramId → M → World M → Tried M
  unfolding try_on
  try_send_immediate steal source m w = try_on steal source m w w.target

  -- The last resort of `send_immediate`: the input is filled beyond its limit.
  unfoldable pub overfill_answer : World M → ℕ → SendResult M → Sending M
  overfill_answer w i (sent c waker) = record {
    world = with_input w (set w.inputs i (some c));
    result = ok;
    wakes = option_to_list waker;
  }
  overfill_answer w i (refused c m) = record {
    world = w;
    result = err (stream_disconnected m);
    wakes = [];
  }

  unfoldable pub overfill_input :
      SubProgramId → M → World M → Option (ℕ × InputStreamCore M) → Sending M
  unfolding overfill_answer
  overfill_input source m w none = record {
    world = w;
    result = err (stream_disconnected m);
    wakes = [];
  }
  overfill_input source m w (some (i, c)) = overfill_answer w i (send_with_overfill source m c)

  unfoldable pub overfill_on : SubProgramId → M → World M → SinkTarget → Sending M
  unfolding overfill_input
  overfill_on source m w SinkTarget.discard = record { world = w; result = ok; wakes = [] }
  overfill_on source m w SinkTarget.disconnected = record {
    world = w;
    result = err (stream_disconnected m);
    wakes = [];
  }
  overfill_on source m w _ = overfill_input source m w (target_input w)

  -- What `send_immediate` does once a try has given its answer: `next` takes a message that came
  -- back.
  unfoldable pub or_else : Tried M → (M → World M → Sending M) → Sending M
  or_else t next = elim t.returned [
    | none ↦ record { world = t.world; result = ok; wakes = t.wakes }
    | some m ↦ next m t.world
  ]

  unfoldable pub last_resort : SubProgramId → M → World M → Sending M
  unfolding overfill_on
  last_resort source m w = overfill_on source m w w.target

  -- After a try that failed: flush, try again, and then the last resort.
  unfoldable pub flush_and_retry : Steal M → SubProgramId → M → World M → Sending M
  unfolding or_else
  flush_and_retry steal source m w =
      or_else (try_send_immediate steal source m (try_flush_immediate steal w).1)
        (last_resort source)

  unfoldable pub send_immediate : Steal M → SubProgramId → M → World M → Sending M
  unfolding or_else
  send_immediate steal source m w =
      or_else (try_send_immediate steal source m w) (flush_and_retry steal source)
