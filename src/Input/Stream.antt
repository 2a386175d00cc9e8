-- ===== src/Input/Stream.antt =====
-- scene/src/input_stream.rs, the owner's side: `Stream for InputStream`, `Stream for
-- InputStreamWithSources`, and the two `Drop` implementations.
use flo_scene.Common.{true, false, List, [], ◌∷◌, ◌++◌, Option, none, some, if◌then◌else◌}
use flo_scene.SubProgram.{SubProgramId}
use flo_scene.Input.Core.{Waker, InputStreamCore, option_to_list}

-- What a poll does outside the core, in order: `set_last_message_source` writes to the owner's
-- `SubProgramCore`, and wakers are called.
pub data Effect : Type 0 where
  set_source : Option SubProgramId → Effect
  wake : Waker → Effect

pub data Poll {ℓ} (A : Type ℓ) : Type ℓ where
  ready : A → Poll A
  pending : Poll A

pub record Polled {ℓ} (M A : Type ℓ) : Type ℓ where
  pub core : InputStreamCore M
  pub result : Poll (Option A)
  pub effects : List Effect

abbrev pub wake_all : List Waker → List Effect
wake_all [] = []
wake_all (w ∷ ws) = wake w ∷ wake_all ws

-- `pop_front` on `when_slots_available`: what is popped, and what is left.
abbrev pub first_waker : List Waker → List Waker
first_waker [] = []
first_waker (w ∷ ws) = w ∷ []

abbrev pub other_wakers : List Waker → List Waker
other_wakers [] = []
other_wakers (w ∷ ws) = ws

-- The body that the two `poll_next` share, on the queue that it finds: `give` makes the item.
unfoldable pub poll_queue {ℓ} :
    {M A : Type ℓ}
    → (SubProgramId → M → A)
    → Waker
    → List (SubProgramId × M)
    → InputStreamCore M
    → Polled M A
poll_queue give w ((source, message) ∷ rest) c = record {
  core = record c {
    waiting_messages = rest;
    when_slots_available = other_wakers c.when_slots_available;
    idle = false;
  };
  result = ready (some (give source message));
  effects =
      set_source none
      ∷ (wake_all (first_waker c.when_slots_available) ++ set_source (some source) ∷ []);
}
poll_queue give w [] c =
    if c.closed
    then record { core = c; result = ready none; effects = set_source none ∷ [] }
    else record {
      core = record c { when_message_sent = some w; idle = true; when_slots_available = [] };
      result = pending;
      effects = set_source none ∷ wake_all c.when_slots_available;
    }

module _ {ℓ} {M : Type ℓ} where
  -- `InputStream::poll_next`
  unfoldable pub poll_next : Waker → InputStreamCore M → Polled M M
  unfolding poll_queue
  poll_next w c = poll_queue (λ source message. message) w c.waiting_messages c

  -- `InputStreamWithSources::poll_next`
  unfoldable pub poll_next_with_sources : Waker → InputStreamCore M → Polled M (SubProgramId × M)
  unfolding poll_queue
  poll_next_with_sources w c =
      poll_queue (λ source message. (source, message)) w c.waiting_messages c

  -- `InputStream::drop` for an active stream, with the wakers that it calls. (It does nothing
  -- where `active` is false.)
  unfoldable pub drop_stream : InputStreamCore M → InputStreamCore M × List Waker
  drop_stream c = (
    record c {
      idle = true;
      closed = true;
      dropped = true;
      waiting_messages = [];
      when_slots_available = [];
      when_message_sent = none;
    },
    c.when_slots_available ++ option_to_list c.when_message_sent,
  )

  -- `InputStreamWithSources::drop`, which calls no waker.
  unfoldable pub drop_stream_with_sources : InputStreamCore M → InputStreamCore M
  drop_stream_with_sources c = record c { idle = true; closed = true }
